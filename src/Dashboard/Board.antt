-- ===== src/Dashboard/Board.antt =====
-- dashboard/backend/dashboard_state.py: the whole state behind the dashboard's routes, with the
-- controller that it owns. `Panel` has the counts and the claw power. The routes hold one lock, so
-- each is one step. The times of events are left out; an event is a constructor for its message.
pub mod Play
pub mod Settings
pub mod Players
pub mod Touch
pub mod Credit
use progress_claw_machine.Shared.{
  ℕ, ◌+◌, ◌-◌, ltb, ℤ, pos, ◌+ℤ◌, Text, codes, Bool, true, false, not, ◌&&◌, is_some, is_none,
  Option, none, some, List, [], ◌∷◌, if◌then◌else◌,
}
use progress_claw_machine.Shared.Deque.{append_left}
use progress_claw_machine.Shared.Action.{Result, ok, err, Action, pure, gets, modify, ◌>>=◌, ◌>>◌}
use progress_claw_machine.Controller.Machine.{
  Status, fault, PlayMode, Snapshot, PlayStartCommand, PlayStopCommand, ClawPowerCommand,
}
use progress_claw_machine.Controller.Safety.{SafetyError, escapes}
use progress_claw_machine.Controller.Adapter.{Adapter}
use progress_claw_machine.Controller.Runtime
use progress_claw_machine.Controller.Runtime.{Runtime}
use progress_claw_machine.Game.Rules.{is_fault}
use progress_claw_machine.Dashboard.Panel.{Panel, refresh_power}
use progress_claw_machine.Dashboard.Panel

-- The strings of `state["machine_status"]`.
pub data MachineLabel : Type 0 where
  ready running emergency_stopped fault_label maintenance getting_ready : MachineLabel
  simulation test_simulation : MachineLabel

-- Why the dashboard stops a play: the messages that `stop_play` is given.
pub data StopReason : Type 0 where
  from_dashboard for_reset for_disabling by_administrator for_maintenance : StopReason

abbrev stop_text : StopReason → Text
stop_text from_dashboard = codes "Machine stopped from dashboard"
stop_text for_reset = codes "Machine stopped for dashboard reset"
stop_text for_disabling = codes "Machine disabled from dashboard"
stop_text by_administrator = codes "Current game stopped by administrator"
stop_text for_maintenance = codes "Current game stopped for maintenance"

-- The events of the dashboard, by their messages.
pub data Note : Type 0 where
  window_completed play_started play_stopped emergency_activated settings_updated : Note
  dashboard_reset game_stopped : Note
  stopped_for : StopReason → Note
  play_activated : Bool → Bool → Note
  credits_earned people_updated : ℕ → Note
  power_set : ℤ → Note
  ai_counted : ℕ → ℤ → Note
  player_registered : Text → Option ℤ → Note
  maintenance_changed : Bool → Note
  kiosk_requested power_requested wifi_requested : Bool → Note
  error_shown : SafetyError → Note

-- The texts of `status` of a player.
pub data PlayerStatus : Type 0 where
  player_ready tested played : PlayerStatus
  ready_with : ℤ → PlayerStatus

pub record Player : Type 0 where
  pub id : ℕ
  pub name : Text
  pub time : Text
  pub status : PlayerStatus

module _ (a : Adapter) where
  pub record Board : Type 0 where
    pub panel : Panel
    pub plays_today : ℕ
    pub machine_enabled : Bool
    pub maintenance_mode : Bool
    pub arduino_connected : Bool
    pub machine_status : MachineLabel
    pub play_mode : Option PlayMode
    pub countdown_starts_at : Option ℤ
    pub play_ends_at : Option ℤ
    pub play_duration : ℤ
    pub ready_duration : ℤ
    pub grabber_start_duration : ℤ
    pub player_photo_ready : Bool
    pub player_photo_version : ℕ
    pub current_player_name : Option Text
    pub players : List Player
    pub last_play : Option Text
    pub events : List Note
    pub play_generation : ℕ
    pub runtime : Runtime a

  abbrev pub Method : Type 0 → Type 0
  Method A = Action SafetyError Board A

  -- A call of the controller.
  abbrev pub control : {A : Type 0} → Runtime.Method a A → Method A
  control m b = let (r, c) = m b.runtime in (r, record b { runtime = c })

  abbrev pub controller_status : Method Snapshot
  controller_status b = let (s, c) = Runtime.status a b.runtime in (ok s, record b { runtime = c })

  unfoldable pub add_event : Note → Board → Board
  add_event note b = record b { events = append_left 30 note b.events }

  abbrev no_play : Board → Board
  no_play b = record b { play_mode = none; countdown_starts_at = none; play_ends_at = none }

  -- `state["machine_status"]` after a look at the controller.
  abbrev label : Snapshot → Board → MachineLabel
  label s b =
      if s.state.emergency_stopped
      then emergency_stopped
      else if s.running
      then running
      else if is_fault s.state.status
      then fault_label
      else if b.maintenance_mode
      then maintenance
      else if is_none b.play_mode
      then ready
      else b.machine_status

  finish_window : Snapshot → Board → Board
  unfolding add_event
  finish_window s b =
      if is_some b.play_mode && not s.running
      then add_event window_completed (record (no_play b) { player_photo_ready = false })
      else b

  -- `dashboard_state`: the payload is the controller's status beside the board that is left.
  unfoldable pub dashboard_state : Board → Snapshot × Board
  unfolding finish_window
  dashboard_state b =
      let (s, c) = Runtime.status a b.runtime in
      let seen : Board = record b {
        runtime = c;
        arduino_connected = s.state.arduino_connected;
        machine_enabled = s.state.machine_enabled;
        panel = record b.panel { grabber_power_percent = s.state.claw_power_percent };
      } in
      let t = finish_window s seen in (s, record t { machine_status = label s t })

  unfoldable pub refresh_arduino_connection : Board → Board
  refresh_arduino_connection b =
      let (s, c) = Runtime.status a b.runtime in
      record b { runtime = c; arduino_connected = s.state.arduino_connected }

  -- `set_people`, with the event of `award_credits`
  unfoldable pub count_people : ℤ → Board → Board
  unfolding add_event
  count_people value b =
      let p = Panel.set_people value b.panel in
      let t : Board = record b { panel = p } in
      if ltb b.panel.credits p.credits
      then add_event (credits_earned (p.credits - b.panel.credits)) t
      else t

  unfoldable pub apply_grabber_power_outputs : Method (Unit {0})
  apply_grabber_power_outputs b =
      let p = refresh_power b.panel in
      (do
        control (
            Runtime.set_claw_power a
              (record { power_percent = p.grabber_power_percent; source = codes "dashboard" }))
        pure tt)
        (record b { panel = p })

  unfoldable pub trigger_play : ℤ → Bool → ℤ → Method Snapshot
  trigger_play duration test_mode now b =
      control
        (Runtime.start_play a
          (record {
            duration_seconds = duration;
            source = codes "dashboard";
            test_mode = test_mode;
            startup_seconds = b.ready_duration +ℤ b.grabber_start_duration;
          })
          now)
        b

  -- The controller's stop, if a play runs.
  stop_running : PlayStopCommand → Method (Unit {0})
  stop_running command = do
    s ← controller_status
    if s.running then (do control (Runtime.stop_play a command); pure tt) else pure tt

  -- `stop_play(message, source)`
  unfoldable pub stop_play : StopReason → Text → Method (Unit {0})
  unfolding stop_running add_event
  stop_play reason source = do
    modify (λ b. record b { play_generation = b.play_generation + 1 })
    stop_running (record { source = source; reason = stop_text reason })
    modify (λ b. add_event (stopped_for reason) (record (no_play b) { machine_status = ready }))

-- What a route answers. A page has the board and the controller's status; a refusal has its HTTP
-- code; a `SafetyError` is shown with code 409. It may leave the route, as what the transport raises
-- always does, and Flask answers 500.

pub data Refusal : Type 0 where
  in_maintenance disabled already_running no_photo no_credit not_running : Refusal
  missing_power missing_people bad_mode bad_name bad_photo not_jpeg too_large not_saved : Refusal
  unconfirmed unknown_action stop_game_first enter_maintenance_first : Refusal
  kiosk_failed power_failed wifi_failed no_camera : Refusal

pub data Reply : Type 0 where
  page : Snapshot → Reply
  played_page : Bool → Snapshot → Reply
  refused : ℕ → Refusal → Reply
  failed : SafetyError → Snapshot → Reply
  crashed : SafetyError → Reply

module _ (a : Adapter) where
  abbrev pub show_page : Board a → Reply × Board a
  show_page b = let (s, t) = dashboard_state a b in (page s, t)

  -- `/api/status`
  unfoldable pub status_route : Board a → Reply × Board a
  status_route b = show_page (refresh_arduino_connection a b)

  unfoldable pub controller_error_response : SafetyError → Board a → Reply × Board a
  controller_error_response e b =
      let (s, t) = dashboard_state a (add_event a (error_shown e) b) in (failed e s, t)

  abbrev caught :
      {A : Type 0}
      → Result SafetyError A
      → Board a
      → (A → Board a → Reply × Board a)
      → (SafetyError → Board a → Reply × Board a)
      → Reply × Board a
  caught (ok x) b fine handler = fine x b
  caught (err e) b fine handler = if escapes e then (crashed e, b) else handler e b

  -- `try: … except SafetyError`, followed by the rest of the route.
  abbrev pub try :
      {A : Type 0}
      → Method a A
      → (SafetyError → Board a → Reply × Board a)
      → (A → Board a → Reply × Board a)
      → Board a
      → Reply × Board a
  try m handler fine b = let (r, t) = m b in caught r t fine handler

  -- No `try`: the error leaves the route.
  abbrev pub crash : SafetyError → Board a → Reply × Board a
  crash e b = (crashed e, b)
