-- ===== src/Dashboard/Board/Play.antt =====
-- dashboard/backend/routes_api.py: the routes that start and stop a play. A request has the fields
-- that the route reads, parsed; `now` is the clock, `stamp` the time of day.
use progress_claw_machine.Shared.{
  ◌+◌, ◌-◌, ltb, ℤ, pos, ◌-ℤ◌, scale, Text, codes, Bool, true, false, not, ◌&&◌, is_none, is_some,
  Option, none, some, List, [], ◌∷◌, if◌then◌else◌,
}
use progress_claw_machine.Controller.Machine.{
  PlayMode, play, test, PlayStartCommand, PlayStopCommand, EmergencyStopCommand, Snapshot,
}
use progress_claw_machine.Controller.Adapter.{Adapter}
use progress_claw_machine.Controller.Runtime
use progress_claw_machine.Dashboard.Panel.{play_duration_seconds}
use progress_claw_machine.Dashboard.Board.{
  ready, running, emergency_stopped, getting_ready, simulation, test_simulation, play_started,
  play_stopped, emergency_activated, play_activated, dashboard_reset, from_dashboard, for_reset,
  Player, tested, played, Board, control, add_event, no_play, dashboard_state,
  refresh_arduino_connection, trigger_play, stop_play, in_maintenance, disabled, already_running,
  no_photo, no_credit, not_running, Reply, played_page, refused, show_page,
  controller_error_response, try, crash,
}

-- The body of `/api/play/start`; a missing field takes the value that the route gives it.
pub record StartRequest : Type 0 where
  pub duration_seconds : Option ℤ
  pub source : Text
  pub test_mode : Bool

abbrev pub or_else : Option ℤ → ℤ → ℤ
or_else none d = d
or_else (some n) d = n

abbrev pub mode_of : Bool → PlayMode
mode_of true = test
mode_of false = play

abbrev pub mark_first : Bool → List Player → List Player
mark_first t [] = []
mark_first t (p ∷ ps) = record p { status = if t then tested else played } ∷ ps

module _ (a : Adapter) where
  -- `/api/play/start`
  unfoldable pub api_play_start : StartRequest → ℤ → Board a → Reply × Board a
  api_play_start q now b =
      let duration = play_duration_seconds (or_else q.duration_seconds b.play_duration) in
      let command : PlayStartCommand = record {
        duration_seconds = duration;
        source = q.source;
        test_mode = q.test_mode;
        startup_seconds = pos 0;
      } in
      if b.maintenance_mode
      then (refused 409 in_maintenance, b)
      else try a (control a (Runtime.start_play a command now)) (controller_error_response a)
          (λ result t. show_page a (
            add_event a play_started (record t {
              play_mode = some (mode_of q.test_mode);
              play_duration = duration;
              countdown_starts_at = some now;
              play_ends_at = result.state.play_ends_at;
              machine_status = running;
            })))
          b

  -- `/api/play/stop`
  unfoldable pub api_play_stop : PlayStopCommand → Board a → Reply × Board a
  api_play_stop command =
      try a (control a (Runtime.stop_play a command)) (controller_error_response a) (λ _ t.
        show_page a (add_event a play_stopped (record (no_play a t) { machine_status = ready })))

  -- `/api/emergency-stop`
  unfoldable pub api_emergency_stop : EmergencyStopCommand → Board a → Reply × Board a
  api_emergency_stop command =
      try a (control a (Runtime.emergency_stop a command)) (crash a) (λ _ t. show_page a (
        add_event a emergency_activated
          (record (no_play a t) { machine_status = emergency_stopped })))

  -- `/api/play`, once its checks have passed and the controller has started.
  unfoldable pub begin_play : Bool → ℤ → Text → Snapshot → Board a → Reply × Board a
  begin_play test_mode duration stamp result t =
      let sent = not result.state.mock_arduino in
      let paid : Board a = if test_mode then t else record t {
        panel = record t.panel { credits = t.panel.credits - 1 };
        plays_today = t.plays_today + 1;
        last_play = some stamp;
      } in
      let u : Board a = record paid {
        players = mark_first test_mode t.players;
        player_photo_ready = false;
        current_player_name = none;
        play_mode = some (mode_of test_mode);
        play_ends_at = result.state.play_ends_at;
        countdown_starts_at = elim result.state.play_ends_at [
          | none ↦ none
          | some ends ↦ some (ends -ℤ scale 1000 duration)
        ];
        machine_status =
            if t.arduino_connected
            then getting_ready
            else if test_mode
            then test_simulation
            else simulation;
      } in
      let (s, v) = dashboard_state a (add_event a (play_activated test_mode sent) u) in
      (played_page sent s, v)

  -- `/api/play`
  unfoldable pub play_route : Bool → ℤ → Text → Board a → Reply × Board a
  play_route test_mode now stamp b0 =
      let b = refresh_arduino_connection a b0 in
      let duration = play_duration_seconds b.play_duration in
      if b.maintenance_mode
      then (refused 409 in_maintenance, b)
      else if not b.machine_enabled
      then (refused 409 disabled, b)
      else if is_some b.play_mode
      then (refused 409 already_running, b)
      else if not b.player_photo_ready
      then (refused 409 no_photo, b)
      else if not test_mode && ltb b.panel.credits 1
      then (refused 409 no_credit, b)
      else try a (trigger_play a duration test_mode now) (controller_error_response a)
          (begin_play test_mode duration stamp) (record b { play_duration = duration })

  -- `/api/stop`
  unfoldable pub stop_route : Board a → Reply × Board a
  stop_route b =
      if is_none b.play_mode
      then (refused 409 not_running, b)
      else try a (stop_play a from_dashboard (codes "dashboard")) (controller_error_response a)
          (λ _. show_page a) b

  -- `/api/reset`; the photos of old players, which it deletes, are files outside this state.
  unfoldable pub reset_route : Board a → Reply × Board a
  reset_route = try a (stop_play a for_reset (codes "dashboard")) (crash a) (λ _ t. show_page a (
      add_event a dashboard_reset (record t {
        panel = record t.panel { people = 0; credits = 0 };
        plays_today = 0;
        last_play = none;
        player_photo_ready = false;
        player_photo_version = 0;
        current_player_name = none;
        players = [];
        events = [];
      })))
