-- ===== src/Controller/Machine.antt =====
-- controller/state.py and controller/models.py: the machine state and the commands. Clock readings
-- are in milliseconds, so that a duration of n seconds adds 1000 * n to one.
use progress_claw_machine.Shared.{ℤ, pos, Text, codes, Bool, true, false, Option, none, is_some}

-- The strings that the controller stores in `MachineState.status`.
pub data Status : Type 0 where
  ready running fault emergency_stopped : Status

pub data PlayMode : Type 0 where
  play test : PlayMode

pub record MachineState : Type 0 where
  pub status : Status
  pub machine_enabled : Bool
  pub emergency_stopped : Bool
  pub play_mode : Option PlayMode
  pub play_duration_seconds : ℤ
  pub play_started_at : Option ℤ
  pub play_ends_at : Option ℤ
  pub claw_power_percent : ℤ
  pub arduino_connected : Bool
  pub mock_arduino : Bool
  pub last_error : Option Text

-- `MachineState()`: the defaults of the fields
abbrev pub default_state : MachineState
default_state = record {
  status = ready;
  machine_enabled = true;
  emergency_stopped = false;
  play_mode = none;
  play_duration_seconds = pos 60;
  play_started_at = none;
  play_ends_at = none;
  claw_power_percent = pos 100;
  arduino_connected = false;
  mock_arduino = true;
  last_error = none;
}

-- The dictionary of `snapshot`: the fields, `running`, and the entries of `extra`.
pub record Snapshot : Type 0 where
  pub state : MachineState
  pub running : Bool
  pub ok : Option Bool
  pub arduino_response : Option Text
  pub power_response : Option Text

unfoldable pub snapshot : MachineState → Snapshot
snapshot s = record {
  state = s;
  running = is_some s.play_mode;
  ok = none;
  arduino_response = none;
  power_response = none;
}

pub record PlayStartCommand : Type 0 where
  pub duration_seconds : ℤ
  pub source : Text
  pub test_mode : Bool
  pub startup_seconds : ℤ

pub record PlayStopCommand : Type 0 where
  pub source : Text
  pub reason : Text

pub record ClawPowerCommand : Type 0 where
  pub power_percent : ℤ
  pub source : Text

pub record EmergencyStopCommand : Type 0 where
  pub source : Text
  pub reason : Text

abbrev pub default_stop : PlayStopCommand
default_stop = record { source = codes "dashboard"; reason = codes "operator_stop" }

abbrev pub default_emergency_stop : EmergencyStopCommand
default_emergency_stop = record { source = codes "dashboard"; reason = codes "emergency_stop" }
