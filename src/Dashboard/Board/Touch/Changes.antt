-- ===== src/Dashboard/Board/Touch/Changes.antt =====
-- The routes for settings and for new players keep the board in touch with its controller.
use progress_claw_machine.Dashboard.Board.{try}
use progress_claw_machine.Shared.{
  ℕ, ℤ, Text, codes, split_once, Bool, true, false, Option, none, some, List, arith,
}
use progress_claw_machine.Controller.Adapter.{Adapter}
use progress_claw_machine.Dashboard.Panel.{PowerMode}
use progress_claw_machine.Dashboard.Board.{Board, stop_play, for_disabling, crash}
use progress_claw_machine.Dashboard.Board.Settings.{
  SettingsRequest, settings, Rest, set_target, set_duration, set_power, set_mode, set_ai_people,
  set_enabled, settled,
}
use progress_claw_machine.Dashboard.Board.Players.{
  Capture, register, player_photo, capture_player, clean_player_name, with_count, registered,
  with_name, decoded, photo_parts,
}
use progress_claw_machine.Dashboard.Board.Touch.{
  IsInTouch, add_event-IsInTouch, dashboard_state-IsInTouch, stop_play-IsInTouch, try-IsInTouch,
  with_power-IsInTouch,
}

module _ (a : Adapter) where
  -- The rest of a route keeps touch.
  abbrev Keeps : Rest a → Type 0
  Keeps rest = (b : Board a) → IsInTouch a b → IsInTouch a (rest b).1

  set_power-Keeps : (n : Option ℤ) (rest : Rest a) → Keeps rest → Keeps (set_power a n rest)
  unfolding set_power
  set_power-Keeps none rest k b h = k b h
  set_power-Keeps (some n) rest k b h =
      with_power-IsInTouch a rest _ k (record { shown = h.shown; parked = h.parked })

  set_mode-Keeps :
      (mode : Option (Option PowerMode)) (rest : Rest a) → Keeps rest → Keeps (set_mode a mode rest)
  unfolding set_mode
  set_mode-Keeps none rest k b h = k b h
  set_mode-Keeps (some none) rest k b h = h
  set_mode-Keeps (some (some mode)) rest k b h =
      with_power-IsInTouch a rest _ k (record { shown = h.shown; parked = h.parked })

  set_ai_people-Keeps : (n : Option ℤ) (rest : Rest a) → Keeps rest → Keeps (set_ai_people a n rest)
  unfolding set_ai_people
  set_ai_people-Keeps none rest k b h = k b h
  set_ai_people-Keeps (some n) rest k b h =
      with_power-IsInTouch a rest _ k (record { shown = h.shown; parked = h.parked })

  stopped-Keeps :
      (rest : Rest a)
      → Keeps rest
      → Keeps (try a (stop_play a for_disabling (codes "dashboard")) (crash a) (λ _. rest))
  stopped-Keeps rest k b h =
      let kept = (stop_play-IsInTouch a for_disabling (codes "dashboard") b h).0 in
      try-IsInTouch a (stop_play a for_disabling (codes "dashboard")) (crash a) (λ _. rest) b
        (λ e p. kept) (λ e p. kept)
        (λ x p. k (stop_play a for_disabling (codes "dashboard") b).1 kept)

  set_enabled-Keeps :
      (enabled : Option Bool) (rest : Rest a) → Keeps rest → Keeps (set_enabled a enabled rest)
  unfolding set_enabled
  set_enabled-Keeps none rest k b h = k b h
  set_enabled-Keeps (some enabled) rest k b h =
      let t : Board a = record b { machine_enabled = enabled } in
      let h' : IsInTouch a t = record { shown = h.shown; parked = h.parked } in
      ground (arith, k t h', stopped-Keeps rest k t h')

  settled-Keeps : Keeps (settled a)
  settled-Keeps b h = dashboard_state-IsInTouch a _ (add_event-IsInTouch a _ b h)

  set_target-IsInTouch :
      (n : Option ℤ) (b : Board a) → IsInTouch a b → IsInTouch a (set_target a n b)
  unfolding set_target
  set_target-IsInTouch none b h = h
  set_target-IsInTouch (some n) b h = record { shown = h.shown; parked = h.parked }

  set_duration-IsInTouch :
      (n : Option ℤ) (b : Board a) → IsInTouch a b → IsInTouch a (set_duration a n b)
  unfolding set_duration
  set_duration-IsInTouch none b h = h
  set_duration-IsInTouch (some n) b h = record { shown = h.shown; parked = h.parked }

  pub settings-IsInTouch :
      (q : SettingsRequest) (b : Board a) → IsInTouch a b → IsInTouch a (settings a q b).1
  unfolding settings
  settings-IsInTouch q b h =
      set_power-Keeps q.grabber_power_percent _
        (set_mode-Keeps q.grabber_power_mode _ (
          set_ai_people-Keeps q.ai_people_count _
            (set_enabled-Keeps q.machine_enabled _ settled-Keeps)))
        _ (set_duration-IsInTouch q.play_duration _ (set_target-IsInTouch q.target b h))

  with_count-Keeps : (n : Option ℤ) (rest : Rest a) → Keeps rest → Keeps (with_count a n rest)
  with_count-Keeps none rest k b h = k b h
  with_count-Keeps (some n) rest k b h =
      with_power-IsInTouch a rest _ k (record { shown = h.shown; parked = h.parked })

  registered-Keeps : (name : Text) (c : Capture) → Keeps (registered a name c)
  registered-Keeps name c b h =
      dashboard_state-IsInTouch a _
        (add_event-IsInTouch a _ _ (record { shown = h.shown; parked = h.parked }))

  pub register-Keeps : (name : Text) (c : Capture) → Keeps (register a name c)
  unfolding register
  register-Keeps name c b h =
      let t : Board a = record b {
        player_photo_ready = true;
        player_photo_version = c.id;
        current_player_name = some name;
      } in
      ground (
        arith,
        with_count-Keeps c.people_count (registered a name c) (registered-Keeps name c) t
            (record { shown = h.shown; parked = h.parked }),
      )

  with_name-Keeps :
      (name : Option Text) (rest : Text → Rest a)
      → ((n : Text) → Keeps (rest n))
      → Keeps (with_name a name rest)
  with_name-Keeps none rest k b h = h
  with_name-Keeps (some n) rest k b h = k n b h

  decoded-Keeps :
      (image : Option (List ℕ)) (name : Text) (c : Capture) → Keeps (decoded a image name c)
  decoded-Keeps none name c b h = h
  decoded-Keeps (some image) name c b h = ground (arith, register-Keeps name c b h)

  photo_parts-Keeps :
      (parts : Option (Text × Text)) (decode : Text → Option (List ℕ)) (name : Text) (c : Capture)
      → Keeps (photo_parts a parts decode name c)
  photo_parts-Keeps none decode name c b h = h
  photo_parts-Keeps (some (header, encoded)) decode name c b h =
      ground (arith, decoded-Keeps (decode encoded) name c b h)

  pub player_photo-IsInTouch :
      (value image : Option Text) (decode : Text → Option (List ℕ)) (c : Capture) (b : Board a)
      → IsInTouch a b
      → IsInTouch a (player_photo a value image decode c b).1
  unfolding player_photo
  player_photo-IsInTouch value none decode c =
      with_name-Keeps (clean_player_name value) _ (λ name b h. h)
  player_photo-IsInTouch value (some s) decode c =
      with_name-Keeps (clean_player_name value) _
        (λ name. photo_parts-Keeps (split_once b',' s) decode name c)

  pub capture_player-IsInTouch :
      (value : Option Text) (has_frame : Bool) (c : Capture) (b : Board a)
      → IsInTouch a b
      → IsInTouch a (capture_player a value has_frame c b).1
  unfolding capture_player
  capture_player-IsInTouch value false c =
      with_name-Keeps (clean_player_name value) _ (λ name b h. h)
  capture_player-IsInTouch value true c =
      with_name-Keeps (clean_player_name value) _ (λ name. register-Keeps name c)
