-- ===== src/Dashboard/Board/Touch/Routes.antt =====
-- Every route keeps the board in touch with its controller.
use progress_claw_machine.Shared.{
  inl, inr, ap, ◌∙◌, Option-cases, ℤ, pos, ◌+ℤ◌, Text, codes, ◌≡◌, refl, Bool, true, false, Option,
  none, some, arith,
}
use progress_claw_machine.Shared.Action.{is_ok}
use progress_claw_machine.Controller.Machine.{
  PlayStartCommand, PlayStopCommand, ClawPowerCommand, EmergencyStopCommand, Snapshot,
}
use progress_claw_machine.Controller.Adapter.{Adapter}
use progress_claw_machine.Controller.Runtime
use progress_claw_machine.Controller.Runtime.Commands.{start_play_failure, set_claw_power_effect}
use progress_claw_machine.Dashboard.Panel.{play_duration_seconds}
use progress_claw_machine.Dashboard.Board.{
  Board, status_route, add_event, dashboard_state, refresh_arduino_connection, trigger_play,
  control, stop_play, controller_error_response, try, from_dashboard, for_reset,
}
use progress_claw_machine.Dashboard.Board.Play.{
  StartRequest, or_else, api_play_start, api_play_stop, api_emergency_stop, begin_play, play_route,
  stop_route, reset_route,
}
use progress_claw_machine.Dashboard.Board.Settings.{
  PowerRequest, api_claw_power, update_count, ai_count,
}
use progress_claw_machine.Dashboard.Board.Touch.{
  IsInTouch, status_plays, stop_play-plays, emergency_stop-plays, add_event-IsInTouch,
  dashboard_state-IsInTouch, controller_error_response-IsInTouch, refresh-IsInTouch,
  count_people-IsInTouch, stop_play-IsInTouch, try-IsInTouch, with_power-IsInTouch,
}

module _ (a : Adapter) where
  pub status_route-IsInTouch : (b : Board a) → IsInTouch a b → IsInTouch a (status_route a b).1
  unfolding status_route
  status_route-IsInTouch b h = dashboard_state-IsInTouch a _ (refresh-IsInTouch a b h)

  pub api_play_start-IsInTouch :
      (q : StartRequest) (now : ℤ) (b : Board a)
      → IsInTouch a b
      → IsInTouch a (api_play_start a q now b).1
  unfolding api_play_start dashboard_state controller_error_response
  api_play_start-IsInTouch q now b h =
      let command : PlayStartCommand = record {
        duration_seconds = play_duration_seconds (or_else q.duration_seconds b.play_duration);
        source = q.source;
        test_mode = q.test_mode;
        startup_seconds = pos 0;
      } in
      ground (
        arith,
        start_play_failure a command now b.runtime,
        status_plays a (Runtime.start_play a command now b.runtime).1,
      )

  pub api_play_stop-IsInTouch :
      (command : PlayStopCommand) (b : Board a)
      → IsInTouch a b
      → IsInTouch a (api_play_stop a command b).1
  unfolding api_play_stop dashboard_state controller_error_response
  api_play_stop-IsInTouch command b h = ground (
    arith,
    stop_play-plays a command b.runtime,
    status_plays a (Runtime.stop_play a command b.runtime).1,
  )

  pub api_emergency_stop-IsInTouch :
      (command : EmergencyStopCommand) (b : Board a)
      → IsInTouch a b
      → IsInTouch a (api_emergency_stop a command b).1
  unfolding api_emergency_stop dashboard_state
  api_emergency_stop-IsInTouch command b h = ground (
    arith,
    emergency_stop-plays a command b.runtime,
    status_plays a (Runtime.emergency_stop a command b.runtime).1,
  )

  pub stop_route-IsInTouch : (b : Board a) → IsInTouch a b → IsInTouch a (stop_route a b).1
  unfolding stop_route dashboard_state controller_error_response add_event
  stop_route-IsInTouch b h = ground (
    arith,
    stop_play-IsInTouch a from_dashboard (codes "dashboard") b,
    status_plays a (stop_play a from_dashboard (codes "dashboard") b).1.runtime,
  )

  pub reset_route-IsInTouch : (b : Board a) → IsInTouch a b → IsInTouch a (reset_route a b).1
  unfolding reset_route dashboard_state
  reset_route-IsInTouch b h = ground (
    arith,
    stop_play-IsInTouch a for_reset (codes "dashboard") b,
    status_plays a (stop_play a for_reset (codes "dashboard") b).1.runtime,
  )

  pub begin_play-IsInTouch :
      (test_mode : Bool) (duration : ℤ) (stamp : Text) (result : Snapshot) (t : Board a)
      → t.maintenance_mode ≡ false
      → IsInTouch a (begin_play a test_mode duration stamp result t).1
  unfolding begin_play
  begin_play-IsInTouch true duration stamp result t off =
      dashboard_state-IsInTouch a _
        (add_event-IsInTouch a _ _ (record { shown = λ on. refl; parked = λ on. cc }))
  begin_play-IsInTouch false duration stamp result t off =
      dashboard_state-IsInTouch a _
        (add_event-IsInTouch a _ _ (record { shown = λ on. refl; parked = λ on. cc }))

  pub trigger_play-IsInTouch :
      (duration : ℤ) (test_mode : Bool) (now : ℤ) (b : Board a)
      → IsInTouch a b
      → let (r, t) = trigger_play a duration test_mode now b in
        (t.maintenance_mode ≡ b.maintenance_mode) × (is_ok r ≡ false → IsInTouch a t)
  unfolding trigger_play
  trigger_play-IsInTouch duration test_mode now b h =
      let command : PlayStartCommand = record {
        duration_seconds = duration;
        source = codes "dashboard";
        test_mode = test_mode;
        startup_seconds = b.ready_duration +ℤ b.grabber_start_duration;
      } in
      ground (arith, start_play_failure a command now b.runtime)

  -- The start of `/api/play`, on a board that is not in maintenance.
  pub start_played-IsInTouch :
      (duration : ℤ) (test_mode : Bool) (now : ℤ) (stamp : Text) (b : Board a)
      → b.maintenance_mode ≡ false
      → IsInTouch a b
      → IsInTouch a
          (try a
            (trigger_play a duration test_mode now)
            (controller_error_response a)
            (begin_play a test_mode duration stamp)
            b).1
  start_played-IsInTouch duration test_mode now stamp b off h =
      let t = (trigger_play a duration test_mode now b).1 in
      let (same, kept) = trigger_play-IsInTouch duration test_mode now b h in
      try-IsInTouch a (trigger_play a duration test_mode now) (controller_error_response a)
        (begin_play a test_mode duration stamp) b (λ e p. kept (ap is_ok p))
        (λ e p. controller_error_response-IsInTouch a e t (kept (ap is_ok p)))
        (λ x p. begin_play-IsInTouch test_mode duration stamp x t (same ∙ off))

  pub play_route-IsInTouch :
      (test_mode : Bool) (now : ℤ) (stamp : Text) (b : Board a)
      → IsInTouch a b
      → IsInTouch a (play_route a test_mode now stamp b).1
  unfolding play_route
  play_route-IsInTouch test_mode now stamp b h =
      let r = refresh_arduino_connection a b in
      let k = refresh-IsInTouch a b h in
      let duration = play_duration_seconds r.play_duration in
      let t : Board a = record r { play_duration = duration } in
      ground (arith, start_played-IsInTouch duration test_mode now stamp t)

  set_claw_power-IsInTouch :
      (command : ClawPowerCommand) (b : Board a)
      → IsInTouch a b
      → IsInTouch a (control a (Runtime.set_claw_power a command) b).1
  set_claw_power-IsInTouch command b h = ground (arith, set_claw_power_effect a command b.runtime)

  pub api_claw_power-IsInTouch :
      (q : PowerRequest) (b : Board a) → IsInTouch a b → IsInTouch a (api_claw_power a q b).1
  unfolding api_claw_power
  api_claw_power-IsInTouch q b h = elim (Option-cases q.power_percent) [
    | inl none_given ↦ rw none_given h
    | inr (percent, given) ↦
        let command : ClawPowerCommand = record { power_percent = percent; source = q.source } in
        let sent = control a (Runtime.set_claw_power a command) in
        let t = set_claw_power-IsInTouch command b h in
        rw given (
          try-IsInTouch a sent (controller_error_response a) _ b (λ e p. t)
            (λ e p. controller_error_response-IsInTouch a e (sent b).1 t)
            (λ result p.
              dashboard_state-IsInTouch a _
                (add_event-IsInTouch a _ _ (record { shown = t.shown; parked = t.parked }))))
  ]

  pub update_count-IsInTouch :
      (value : Option ℤ) (change : ℤ) (b : Board a)
      → IsInTouch a b
      → IsInTouch a (update_count a value change b).1
  unfolding update_count
  update_count-IsInTouch value change b h =
      dashboard_state-IsInTouch a _ (add_event-IsInTouch a _ _ (count_people-IsInTouch a _ b h))

  pub ai_count-IsInTouch :
      (people : Option ℤ) (b : Board a) → IsInTouch a b → IsInTouch a (ai_count a people b).1
  unfolding ai_count
  ai_count-IsInTouch none b h = h
  ai_count-IsInTouch (some people) b h =
      with_power-IsInTouch a _ _
        (λ t k. dashboard_state-IsInTouch a _ (add_event-IsInTouch a _ t k))
        (record { shown = h.shown; parked = h.parked })
