-- ===== src/Controller/Safety.antt =====
-- controller/safety/validator.py: the checks before a command reaches the hardware. An exception is
-- a value of `SafetyError`, one constructor for each message. `transport_raised` stands beside them: an
-- exception of the transport, which is no `SafetyError`.
use progress_claw_machine.Shared.{
  ℤ, pos, leb_ℤ, Text, Bool, true, false, not, ◌&&◌, is_some, is_none, if◌then◌else◌,
}
use progress_claw_machine.Shared.Action.{Result, ok, err}
use progress_claw_machine.Controller.Machine.{
  MachineState, PlayStartCommand, PlayStopCommand, ClawPowerCommand,
}

-- The `action` of "Machine could not {action}: {message}".
pub data Attempt : Type 0 where
  set_claw_power start_play stop_play : Attempt

pub data SafetyError : Type 0 where
  emergency_stop_active machine_disabled already_running bad_duration bad_startup : SafetyError
  not_running bad_power : SafetyError
  could_not : Attempt → Text → SafetyError
  transport_raised : SafetyError

-- No `SafetyError`, but what the transport raised: it passes every `except SafetyError`.
abbrev pub escapes : SafetyError → Bool
escapes transport_raised = true
escapes _ = false

abbrev pub min_play_seconds : ℤ
min_play_seconds = pos 10

abbrev pub max_play_seconds : ℤ
max_play_seconds = pos 180

abbrev pub max_startup_seconds : ℤ
max_startup_seconds = pos 30

abbrev pub min_claw_power_percent : ℤ
min_claw_power_percent = pos 40

abbrev pub max_claw_power_percent : ℤ
max_claw_power_percent = pos 100

-- `lo <= x <= hi`
abbrev pub within : ℤ → ℤ → ℤ → Bool
within lo hi x = leb_ℤ lo x && leb_ℤ x hi

unfoldable pub validate_start : PlayStartCommand → MachineState → Result SafetyError (Unit {0})
validate_start command state =
    if state.emergency_stopped
    then err emergency_stop_active
    else if not state.machine_enabled
    then err machine_disabled
    else if is_some state.play_mode
    then err already_running
    else if not (within min_play_seconds max_play_seconds command.duration_seconds)
    then err bad_duration
    else if not (within (pos 0) max_startup_seconds command.startup_seconds)
    then err bad_startup
    else ok tt

unfoldable pub validate_stop : PlayStopCommand → MachineState → Result SafetyError (Unit {0})
validate_stop command state = if is_none state.play_mode then err not_running else ok tt

unfoldable pub validate_claw_power : ClawPowerCommand → MachineState → Result SafetyError (Unit {0})
validate_claw_power command state =
    if state.emergency_stopped
    then err emergency_stop_active
    else if not (within min_claw_power_percent max_claw_power_percent command.power_percent)
    then err bad_power
    else ok tt
