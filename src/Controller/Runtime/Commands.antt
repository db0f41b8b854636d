-- ===== src/Controller/Runtime/Commands.antt =====
-- What each command does: when it passes, what it leaves when it does not, and the emergency stop.
use progress_claw_machine.Shared.{
  ℕ, is_some, ℤ, pos, ◌≤ℤ◌, ◌≡◌, ◌↔◌, true, false, Option, none, if◌then◌else◌, arith, Text,
}
use progress_claw_machine.Shared.Action.{err, is_ok}
use progress_claw_machine.Controller.Machine.{
  emergency_stopped, PlayStartCommand, PlayStopCommand, ClawPowerCommand, EmergencyStopCommand,
}
use progress_claw_machine.Controller.Safety.{
  SafetyError, emergency_stop_active, not_running, validate_start, validate_stop,
  validate_claw_power,
}
use progress_claw_machine.Controller.Adapter.{
  Adapter, ArduinoResponse, accepted, power_line, stop_line, emergency_line,
}
use progress_claw_machine.Controller.Runtime.{
  Runtime, start_play, stop_play, set_claw_power, emergency_stop, auto_stop,
}
use progress_claw_machine.Controller.Runtime.Exchange.{start_play-cases}
use progress_claw_machine.Controller.Runtime.Timers.{StartedBy, pending, pending-fresh}

module _ (a : Adapter) where
  -- What the transport answers to a line, and its state after the answer and the `connected` check.
  abbrev pub answer : Text → a.Device → Option ArduinoResponse
  answer line d = (a.send_command line d).0

  abbrev pub after : Text → a.Device → a.Device
  after line d = (a.connected (a.send_command line d).1).1

  -- A start that fails starts nothing: the play, its times, the generation and the timers are those
  -- before.
  pub start_play_failure :
      (command : PlayStartCommand) (now : ℤ) (c : Runtime a)
      → is_ok (start_play a command now c).0 ≡ false
      → let d = (start_play a command now c).1 in
        (d.state.play_mode ≡ c.state.play_mode)
        × (d.state.play_started_at ≡ c.state.play_started_at)
        × (d.state.play_ends_at ≡ c.state.play_ends_at)
        × (d.play_generation ≡ c.play_generation)
        × (d.timers ≡ c.timers)
  start_play_failure command now c h = ground (arith, start_play-cases a command now c)

  -- A start or a power change that the validator refuses raises the validator's error, changes
  -- nothing and sends nothing.
  pub rejected_unchanged :
      (start : PlayStartCommand) (power : ClawPowerCommand) (now : ℤ) (c : Runtime a)
      {e f : SafetyError}
      → validate_start start c.state ≡ err e
      → validate_claw_power power c.state ≡ err f
      → (start_play a start now c ≡ (err e, c)) × (set_claw_power a power c ≡ (err f, c))
  unfolding start_play set_claw_power
  rejected_unchanged start power now c h k = ground arith

  -- A stop passes exactly when a play is on and the transport accepts `PLAY STOP`.
  pub stop_play-ok_iff :
      (command : PlayStopCommand) (c : Runtime a)
      → (is_ok (stop_play a command c).0 ≡ true)
        ↔ ((is_some c.state.play_mode ≡ true) × (accepted (answer stop_line c.arduino) ≡ true))
  unfolding stop_play validate_stop
  stop_play-ok_iff command c = (λ h. ground arith, λ h. ground arith)

  -- Whatever happens, an emergency stop sets its flag and voids every timer. It raises exactly if the
  -- transport raises on `EMERGENCY STOP`, and then leaves the play and the status as they were; if the
  -- transport answers, with success or not, there is no play and the status is `emergency_stopped`.
  pub emergency_stop_effect :
      (command : EmergencyStopCommand) (c : Runtime a)
      → StartedBy c.play_generation c.timers
      → let (r, d) = emergency_stop a command c in
        let answered = is_some (answer emergency_line c.arduino) in
        (is_ok r ≡ answered)
        × (d.state.emergency_stopped ≡ true)
        × (d.state.status ≡ (if answered then emergency_stopped else c.state.status))
        × (d.state.play_mode ≡ (if answered then none else c.state.play_mode))
        × (d.state.play_ends_at ≡ (if answered then none else c.state.play_ends_at))
        × (pending d.play_generation d.timers ≡ 0)
  unfolding emergency_stop
  emergency_stop_effect command c h = ground (arith, pending-fresh c.play_generation c.timers)

  -- Under an emergency stop and with no play, no start, stop, power change or timer changes the
  -- controller or sends a line: each method raises and gives back the same controller.
  pub emergency_locks :
      (c : Runtime a)
      → c.state.emergency_stopped ≡ true
      → c.state.play_mode ≡ none
      → ((command : PlayStartCommand) (now : ℤ)
          → start_play a command now c ≡ (err emergency_stop_active, c))
        × ((command : PlayStopCommand) → stop_play a command c ≡ (err not_running, c))
        × ((command : ClawPowerCommand)
            → set_claw_power a command c ≡ (err emergency_stop_active, c))
        × ((g : ℕ) → auto_stop a g c ≡ c)
  unfolding start_play stop_play set_claw_power auto_stop validate_start validate_stop
      validate_claw_power
  emergency_locks c e p = (
    λ command now. ground arith,
    λ command. ground arith,
    λ command. ground arith,
    λ g. ground arith,
  )

  -- A power change passes exactly when no emergency stop is active, the power is 40 to 100 percent
  -- and the transport accepts it.
  pub set_claw_power-ok_iff :
      (command : ClawPowerCommand) (c : Runtime a)
      → (is_ok (set_claw_power a command c).0 ≡ true) ↔ (
          (c.state.emergency_stopped ≡ false)
          × (pos 40 ≤ℤ command.power_percent)
          × (command.power_percent ≤ℤ pos 100)
          × (accepted (answer (power_line command.power_percent) c.arduino) ≡ true))
  unfolding set_claw_power validate_claw_power
  set_claw_power-ok_iff command c = (λ h. ground arith, λ h. ground arith)

  -- The stored claw power becomes the commanded one if the command passes, and stays if it raises;
  -- either way no play is started or ended.
  pub set_claw_power_effect :
      (command : ClawPowerCommand) (c : Runtime a)
      → let (r, d) = set_claw_power a command c in
        (d.state.claw_power_percent
          ≡ (if is_ok r then command.power_percent else c.state.claw_power_percent))
        × (d.state.play_mode ≡ c.state.play_mode)
        × (d.state.play_ends_at ≡ c.state.play_ends_at)
        × (d.timers ≡ c.timers)
        × (d.play_generation ≡ c.play_generation)
  unfolding set_claw_power validate_claw_power
  set_claw_power_effect command c = ground arith
