-- ===== src/Controller/Runtime.antt =====
-- controller/core/runtime_controller.py: every method is an action on the controller, which keeps
-- what it wrote when it raises. The lock makes each method one step. Log calls are left out, and
-- `now` is the clock reading that `start_play` takes.
pub mod Steps
pub mod Exchange
pub mod Invariant
pub mod Timers
pub mod Guard
pub mod Halted
pub mod Commands
use progress_claw_machine.Shared.{
  ℕ, ◌+◌, ℤ, pos, scale, ◌+ℤ◌, Text, Bool, true, false, not, ◌||◌, Option, none, some, is_none,
  List, [], ◌∷◌, ◌==◌, if◌then◌else◌,
}
use progress_claw_machine.Shared.Action.{
  Result, ok, err, Action, pure, check, gets, modify, ◌>>=◌, ◌>>◌,
}
use progress_claw_machine.Controller.Machine.{
  Status, ready, running, fault, emergency_stopped, PlayMode, play, test, MachineState, Snapshot,
  snapshot, PlayStartCommand, PlayStopCommand, ClawPowerCommand, EmergencyStopCommand,
}
use progress_claw_machine.Controller.Safety.{
  Attempt, SafetyError, could_not, transport_raised, validate_start, validate_stop,
  validate_claw_power,
}
use progress_claw_machine.Controller.Adapter.{
  ArduinoResponse, Adapter, power_line, start_line, stop_line, emergency_line,
}

-- A daemon thread that sleeps `seconds` and then runs `_auto_stop_after_play` for `generation`.
pub record Timer : Type 0 where
  pub generation : ℕ
  pub seconds : ℤ

module _ (a : Adapter) where
  pub record Runtime : Type 0 where
    pub arduino : a.Device
    pub state : MachineState
    pub play_generation : ℕ
    pub timers : List Timer

  -- `RuntimeController(arduino, state)`
  unfoldable pub new : a.Device → MachineState → Runtime
  new device state = record { arduino = device; state = state; play_generation = 0; timers = [] }

  abbrev pub Method : Type 0 → Type 0
  Method A = Action SafetyError Runtime A

  -- `_send`
  unfoldable pub send : Text → Method ArduinoResponse
  send line c =
      let (answer, d) = a.send_command line c.arduino in
      elim answer [
        | none ↦ (err transport_raised, record c { arduino = d })
        | some response ↦
            let (connected, d') = a.connected d in
            (
              ok response,
              record c {
                arduino = d';
                state = record c.state {
                  arduino_connected = connected;
                  mock_arduino = response.mock;
                };
              },
            )
      ]

  -- `_record_response`
  unfoldable pub record_response : ArduinoResponse → Method (Unit {0})
  record_response response c =
      if response.ok then (ok tt, record c { state = record c.state { last_error = none } }) else (
        ok tt,
        record c { state = record c.state { last_error = some response.message; status = fault } },
      )

  -- `_require_ok`
  unfoldable pub require_ok : ArduinoResponse → Attempt → Method (Unit {0})
  require_ok response attempt c =
      if not response.ok then (err (could_not attempt response.message), c) else (ok tt, c)

  -- `_mark_stopped`
  unfoldable pub mark_stopped : Status → Runtime → Runtime
  mark_stopped status c = record c {
    state = record c.state {
      status = status;
      play_mode = none;
      play_started_at = none;
      play_ends_at = none;
    };
  }

  abbrev next_generation : Runtime → Runtime
  next_generation c = record c { play_generation = c.play_generation + 1 }

  abbrev answered : ArduinoResponse → Snapshot → Snapshot
  answered response s = record s { ok = some true; arduino_response = some response.message }

  -- The assignments of `start_play` after the hardware has answered, and the new thread.
  unfoldable pub mark_started : PlayStartCommand → ℤ → Runtime → Runtime
  mark_started command now c =
      let window = command.startup_seconds +ℤ command.duration_seconds in
      record c {
        play_generation = c.play_generation + 1;
        state = record c.state {
          status = running;
          play_mode = some (if command.test_mode then test else play);
          play_duration_seconds = command.duration_seconds;
          play_started_at = some now;
          play_ends_at = some (now +ℤ scale 1000 window);
        };
        timers = record { generation = c.play_generation + 1; seconds = window } ∷ c.timers;
      }

  -- The three calls that `start_play` makes for each of its two lines.
  unfoldable pub send_checked : Text → Attempt → Method ArduinoResponse
  unfolding send record_response require_ok
  send_checked line attempt = do
    response ← send line
    record_response response
    require_ok response attempt
    pure response

  unfoldable pub start_play : PlayStartCommand → ℤ → Method Snapshot
  unfolding mark_started
  start_play command now = do
    check (λ c. validate_start command c.state)
    power ← gets (λ c. c.state.claw_power_percent)
    power_response ← send_checked (power_line power) Attempt.set_claw_power
    start_response ← send_checked (start_line command.duration_seconds) Attempt.start_play
    modify (mark_started command now)
    gets (λ c. record (answered start_response (snapshot c.state)) {
      power_response = some power_response.message;
    })

  unfoldable pub stop_play : PlayStopCommand → Method Snapshot
  unfolding send record_response require_ok mark_stopped
  stop_play command = do
    check (λ c. validate_stop command c.state)
    modify next_generation
    response ← send stop_line
    record_response response
    require_ok response Attempt.stop_play
    modify (mark_stopped ready)
    gets (λ c. answered response (snapshot c.state))

  unfoldable pub set_claw_power : ClawPowerCommand → Method Snapshot
  unfolding send record_response require_ok
  set_claw_power command = do
    check (λ c. validate_claw_power command c.state)
    response ← send (power_line command.power_percent)
    record_response response
    require_ok response Attempt.set_claw_power
    modify λ c. record c { state = record c.state { claw_power_percent = command.power_percent } }
    gets (λ c. answered response (snapshot c.state))

  unfoldable pub emergency_stop : EmergencyStopCommand → Method Snapshot
  unfolding send record_response mark_stopped
  emergency_stop command = do
    modify next_generation
    modify λ c. record c { state = record c.state { emergency_stopped = true } }
    response ← send emergency_line
    record_response response
    modify (mark_stopped emergency_stopped)
    gets (λ c. answered response (snapshot c.state))

  -- `clear_emergency_for_tests`
  unfoldable pub clear_emergency : Runtime → Runtime
  clear_emergency c = record c {
    state = record c.state { emergency_stopped = false; status = ready };
  }

  unfoldable pub status : Runtime → Snapshot × Runtime
  status c =
      let (connected, d) = a.connected c.arduino in
      let s = record c.state { arduino_connected = connected; mock_arduino = a.mock_mode d } in
      (snapshot s, record c { arduino = d; state = s })

  stop_now : Method (Unit {0})
  unfolding send record_response mark_stopped
  stop_now = do
    response ← send stop_line
    record_response response
    modify (λ c. if response.ok then mark_stopped ready c else c)

  -- `_auto_stop_after_play`, after its sleep
  unfoldable pub auto_stop : ℕ → Runtime → Runtime
  unfolding stop_now
  auto_stop generation c =
      if not (generation == c.play_generation) || is_none c.state.play_mode
      then c
      else (stop_now c).1
