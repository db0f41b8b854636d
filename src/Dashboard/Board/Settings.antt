-- ===== src/Dashboard/Board/Settings.antt =====
-- dashboard/backend/routes_api.py: the routes that change counts, claw power and settings. A request
-- has the fields that the route reads, parsed as the integers and Booleans that the page sends.
use progress_claw_machine.Shared.{
  ℕ, ℤ, pos, pos_part, ◌+ℤ◌, Text, Bool, not, ◌&&◌, is_some, Option, none, some, if◌then◌else◌,
}
use progress_claw_machine.Controller.Adapter.{Adapter}
use progress_claw_machine.Controller.Runtime
use progress_claw_machine.Dashboard.Panel
use progress_claw_machine.Dashboard.Panel.{
  PowerMode, clamp, play_duration_seconds, grabber_power_of_level, refresh_power,
}
use progress_claw_machine.Dashboard.Board.{
  power_set, people_updated, settings_updated, ai_counted, for_disabling, Board, control, add_event,
  count_people, apply_grabber_power_outputs, stop_play, missing_power, missing_people, bad_mode,
  Reply, refused, show_page, controller_error_response, try, crash,
}
use progress_claw_machine.Shared.{codes}

-- The body of `/api/claw/power`.
pub record PowerRequest : Type 0 where
  pub power_percent : Option ℤ
  pub source : Text

-- The body of `/api/settings`: the mode is one of the two, or another text.
pub record SettingsRequest : Type 0 where
  pub target : Option ℤ
  pub play_duration : Option ℤ
  pub grabber_power_percent : Option ℤ
  pub grabber_power_mode : Option (Option PowerMode)
  pub ai_people_count : Option ℤ
  pub machine_enabled : Option Bool

module _ (a : Adapter) where
  -- `/api/claw/power`
  unfoldable pub api_claw_power : PowerRequest → Board a → Reply × Board a
  api_claw_power q b = elim q.power_percent [
    | none ↦ (refused 400 missing_power, b)
    | some percent ↦
        try a
          (control a
            (Runtime.set_claw_power a (record { power_percent = percent; source = q.source })))
          (controller_error_response a)
          (λ result t.
            let power = result.state.claw_power_percent in
            show_page a (
              add_event a (power_set power) (record t {
                panel = record t.panel {
                  manual_grabber_power_percent = power;
                  grabber_power_percent = power;
                };
              })))
          b
  ]

  abbrev new_count : Option ℤ → ℤ → ℕ → ℤ
  new_count (some value) change people = value
  new_count none change people = pos people +ℤ change

  -- `/api/count`, with the value if there is one, and the change otherwise.
  unfoldable pub update_count : Option ℤ → ℤ → Board a → Reply × Board a
  update_count value change b =
      let t = count_people a (new_count value change b.panel.people) b in
      show_page a (add_event a (people_updated t.panel.people) t)

  -- `/api/ai-count`
  unfoldable pub ai_count : Option ℤ → Board a → Reply × Board a
  ai_count none b = (refused 400 missing_people, b)
  ai_count (some people) b =
      try a (apply_grabber_power_outputs a) (controller_error_response a)
        (λ _ t.
          show_page a
            (add_event a (ai_counted t.panel.ai_people_count t.panel.ai_grabber_power_percent) t))
        (record b { panel = Panel.set_ai_people_count people b.panel })

  -- The parts of `/api/settings`, each with the rest of the route.
  abbrev pub Rest : Type 0
  Rest = Board a → Reply × Board a

  unfoldable pub set_target : Option ℤ → Board a → Board a
  set_target none b = b
  set_target (some n) b = record b {
    panel = record b.panel { target = pos_part (clamp (pos 1) (pos 999) n) };
  }

  unfoldable pub set_duration : Option ℤ → Board a → Board a
  set_duration none b = b
  set_duration (some n) b = record b { play_duration = play_duration_seconds n }

  unfoldable pub set_power : Option ℤ → Rest → Rest
  set_power none rest b = rest b
  set_power (some n) rest b =
      try a (apply_grabber_power_outputs a) (controller_error_response a) (λ _. rest)
        (record b {
          panel =
              refresh_power
                (record b.panel { manual_grabber_power_percent = grabber_power_of_level n });
        })

  unfoldable pub set_mode : Option (Option PowerMode) → Rest → Rest
  set_mode none rest b = rest b
  set_mode (some none) rest b = (refused 400 bad_mode, b)
  set_mode (some (some mode)) rest b =
      try a (apply_grabber_power_outputs a) (controller_error_response a) (λ _. rest)
        (record b { panel = Panel.set_grabber_power_mode mode b.panel })

  unfoldable pub set_ai_people : Option ℤ → Rest → Rest
  set_ai_people none rest b = rest b
  set_ai_people (some n) rest b =
      try a (apply_grabber_power_outputs a) (controller_error_response a) (λ _. rest)
        (record b { panel = Panel.set_ai_people_count n b.panel })

  unfoldable pub set_enabled : Option Bool → Rest → Rest
  set_enabled none rest b = rest b
  set_enabled (some enabled) rest b =
      let t : Board a = record b { machine_enabled = enabled } in
      if not enabled && is_some t.play_mode
      then try a (stop_play a for_disabling (codes "dashboard")) (crash a) (λ _. rest) t
      else rest t

  abbrev pub settled : Rest
  settled b = show_page a (add_event a settings_updated b)

  -- `/api/settings`
  unfoldable pub settings : SettingsRequest → Board a → Reply × Board a
  settings q b =
      set_power q.grabber_power_percent
        (set_mode q.grabber_power_mode
          (set_ai_people q.ai_people_count (set_enabled q.machine_enabled settled)))
        (set_duration q.play_duration (set_target q.target b))
