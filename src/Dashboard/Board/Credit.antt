-- ===== src/Dashboard/Board/Credit.antt =====
-- What a play costs, and what the switch of the settings does.
use progress_claw_machine.Shared.{
  ◌+◌, ◌-◌, refl, inl, inr, if◌then◌else◌, ℤ, Text, ◌≡◌, Bool, true, false, none, some, arith,
}
use progress_claw_machine.Controller.Adapter.{Adapter}
use progress_claw_machine.Controller.Machine.{Snapshot, snapshot}
use progress_claw_machine.Controller.Runtime
use progress_claw_machine.Controller.Safety.{SafetyError}
use progress_claw_machine.Shared.Action.{Result-cases}
use progress_claw_machine.Dashboard.Panel.{play_duration_seconds}
use progress_claw_machine.Dashboard.Board.{
  Board, dashboard_state, refresh_arduino_connection, trigger_play, controller_error_response,
  Reply, played_page, add_event, try, error_shown,
}
use progress_claw_machine.Dashboard.Board.Play.{begin_play, play_route}
use progress_claw_machine.Dashboard.Board.Settings.{
  SettingsRequest, settings, set_target, set_duration, set_power, set_mode, set_ai_people,
  set_enabled,
}

abbrev pub is_played : Reply → Bool
is_played (played_page _ _) = true
is_played _ = false

module _ (a : Adapter) where
  -- The credits and the plays of the day, of which no page takes any.
  dashboard_state_counts :
      (b : Board a)
      → let t = (dashboard_state a b).1 in
        (t.panel.credits ≡ b.panel.credits)
        × (t.plays_today ≡ b.plays_today)
        × (b.player_photo_ready ≡ false → t.player_photo_ready ≡ false)
  unfolding dashboard_state
  dashboard_state_counts b = ground arith

  refresh_counts :
      (b : Board a)
      → let t = refresh_arduino_connection a b in
        (t.panel ≡ b.panel)
        × (t.plays_today ≡ b.plays_today)
        × (t.play_mode ≡ b.play_mode)
        × (t.maintenance_mode ≡ b.maintenance_mode)
        × (t.player_photo_ready ≡ b.player_photo_ready)
  unfolding refresh_arduino_connection
  refresh_counts b = (refl, refl, refl, refl, refl)

  controller_error_response_counts :
      (e : SafetyError) (b : Board a)
      → let (r, t) = controller_error_response a e b in
        (is_played r ≡ false)
        × (t.panel.credits ≡ b.panel.credits)
        × (t.plays_today ≡ b.plays_today)
  unfolding controller_error_response add_event
  controller_error_response_counts e b =
      ground (arith, dashboard_state_counts (add_event a (error_shown e) b))

  trigger_play_counts :
      (duration : ℤ) (test_mode : Bool) (now : ℤ) (b : Board a)
      → let t = (trigger_play a duration test_mode now b).1 in
        (t.panel ≡ b.panel) × (t.plays_today ≡ b.plays_today)
  unfolding trigger_play
  trigger_play_counts duration test_mode now b = (refl, refl)

  begin_play_counts :
      (test_mode : Bool) (duration : ℤ) (stamp : Text) (result : Snapshot) (b : Board a)
      → let (r, t) = begin_play a test_mode duration stamp result b in
        (is_played r ≡ true)
        × (t.player_photo_ready ≡ false)
        × (t.panel.credits ≡ (if test_mode then b.panel.credits else b.panel.credits - 1))
        × (t.plays_today ≡ (if test_mode then b.plays_today else b.plays_today + 1))
  unfolding begin_play add_event
  begin_play_counts true duration stamp result b =
      let (credits, plays, photo) = dashboard_state_counts _ in (refl, photo refl, credits, plays)
  begin_play_counts false duration stamp result b =
      let (credits, plays, photo) = dashboard_state_counts _ in (refl, photo refl, credits, plays)

  -- The start of `/api/play`, once its checks have passed.
  started_counts :
      (test_mode : Bool) (duration now : ℤ) (stamp : Text) (b : Board a)
      → let (r, t) =
          try a
            (trigger_play a duration test_mode now)
            (controller_error_response a)
            (begin_play a test_mode duration stamp)
            b in
        (is_played r ≡ true
          → (t.player_photo_ready ≡ false)
            × (t.panel.credits ≡ (if test_mode then b.panel.credits else b.panel.credits - 1))
            × (t.plays_today ≡ (if test_mode then b.plays_today else b.plays_today + 1)))
        × (is_played r ≡ false
            → (t.panel.credits ≡ b.panel.credits) × (t.plays_today ≡ b.plays_today))
  started_counts test_mode duration now stamp b =
      let m = trigger_play a duration test_mode now b in
      let k = trigger_play_counts duration test_mode now b in
      elim (Result-cases m.0) [
        | inl (x, e) ↦
            rw e (let c = begin_play_counts test_mode duration stamp x m.1 in ground arith)
        | inr (x, e) ↦ rw e (let c = controller_error_response_counts x m.1 in ground arith)
      ]

  -- A play from the dashboard starts only off maintenance, on a board that shows no play, with a new
  -- photo, which it uses up, and, unless it is a test, with a credit, of which it takes exactly one,
  -- and it is counted. A play that is not started takes no credit and is not counted.
  pub play_route_cost :
      (test_mode : Bool) (now : ℤ) (stamp : Text) (b : Board a)
      → let (r, t) = play_route a test_mode now stamp b in
        (is_played r ≡ true
          → (b.maintenance_mode ≡ false)
            × (b.play_mode ≡ none)
            × (b.player_photo_ready ≡ true)
            × (t.player_photo_ready ≡ false)
            × (test_mode ≡ false
                → (t.panel.credits + 1 ≡ b.panel.credits) × (t.plays_today ≡ b.plays_today + 1))
            × (test_mode ≡ true
                → (t.panel.credits ≡ b.panel.credits) × (t.plays_today ≡ b.plays_today)))
        × (is_played r ≡ false
            → (t.panel.credits ≡ b.panel.credits) × (t.plays_today ≡ b.plays_today))
  unfolding play_route
  play_route_cost test_mode now stamp b =
      let r = refresh_arduino_connection a b in
      let duration = play_duration_seconds r.play_duration in
      let t : Board a = record r { play_duration = duration } in
      ground (arith, refresh_counts b, started_counts test_mode duration now stamp t)

  -- The request of `/api/settings` that has the field `machine_enabled` only.
  abbrev pub switch : Bool → SettingsRequest
  switch enabled = record {
    target = none;
    play_duration = none;
    grabber_power_percent = none;
    grabber_power_mode = none;
    ai_people_count = none;
    machine_enabled = some enabled;
  }

  -- On a board without a play, the switch of the settings is lost before the answer: whatever was
  -- asked, the board has the flag of the controller again, which the request does not reach.
  pub switch_lost :
      (enabled : Bool) (b : Board a)
      → b.play_mode ≡ none
      → let t = (settings a (switch enabled) b).1 in
        (t.machine_enabled ≡ b.runtime.state.machine_enabled)
        × (t.runtime.state.machine_enabled ≡ b.runtime.state.machine_enabled)
  unfolding settings set_target set_duration set_power set_mode set_ai_people set_enabled add_event
      dashboard_state Runtime.status snapshot
  switch_lost enabled b e = ground arith
