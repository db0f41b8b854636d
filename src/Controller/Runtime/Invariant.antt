-- ===== src/Controller/Runtime/Invariant.antt =====
-- What holds of the controller between two calls, whatever the transport answers or
-- raises.
use progress_claw_machine.Shared.{
  ℕ, ℤ, pos, ◌+ℤ◌, ◌≤ℤ◌, scale, ◌≡◌, true, false, Option, none, some, is_some, List, ◌++◌, arith,
}
use progress_claw_machine.Controller.Machine.{
  running, MachineState, PlayStartCommand, PlayStopCommand, ClawPowerCommand, EmergencyStopCommand,
}
use progress_claw_machine.Shared.Action.{ok}
use progress_claw_machine.Controller.Safety.{validate_start, validate_stop, validate_claw_power}
use progress_claw_machine.Controller.Adapter.{Adapter}
use progress_claw_machine.Controller.Runtime.{
  Timer, Runtime, start_play, stop_play, set_claw_power, emergency_stop, clear_emergency, status,
  auto_stop, mark_started,
}
use progress_claw_machine.Controller.Runtime.Exchange.{start_play-cases}
use progress_claw_machine.Controller.Runtime.Steps.{
  Step, started, stopped, powered, halted, cleared, asked, fired, fire, Reach, here, next,
}

-- A play window is set, and lasts 10 to 210 seconds.
pub IsWindow : Option ℤ → Option ℤ → Type 0
IsWindow (some s) (some e) = (s +ℤ pos 10000 ≤ℤ e) × (e ≤ℤ s +ℤ pos 210000)
IsWindow _ _ = ⊥

pub record IsConsistent (s : MachineState) : Type 0 where
  pub idle_untimed : s.play_mode ≡ none → (s.play_started_at ≡ none) × (s.play_ends_at ≡ none)
  pub play_timed : is_some s.play_mode ≡ true → IsWindow s.play_started_at s.play_ends_at
  pub running_plays : s.status ≡ running → is_some s.play_mode ≡ true

IsWindow-bounds :
    (now startup duration : ℤ)
    → pos 0 ≤ℤ startup
    → startup ≤ℤ pos 30
    → pos 10 ≤ℤ duration
    → duration ≤ℤ pos 180
    → IsWindow (some now) (some (now +ℤ scale 1000 (startup +ℤ duration)))
unfolding IsWindow ◌+ℤ◌ scale
IsWindow-bounds now startup duration a b c d = ground arith

-- What a start command needs, in the order of the checks.
pub record CanStart (command : PlayStartCommand) (s : MachineState) : Type 0 where
  pub not_stopped : s.emergency_stopped ≡ false
  pub enabled : s.machine_enabled ≡ true
  pub idle : s.play_mode ≡ none
  pub duration_min : pos 10 ≤ℤ command.duration_seconds
  pub duration_max : command.duration_seconds ≤ℤ pos 180
  pub startup_min : pos 0 ≤ℤ command.startup_seconds
  pub startup_max : command.startup_seconds ≤ℤ pos 30

pub validate_start-CanStart :
    (command : PlayStartCommand) (s : MachineState)
    → validate_start command s ≡ ok tt
    → CanStart command s
unfolding validate_start
validate_start-CanStart command s h = ground arith

module _ (a : Adapter) where
  start_play-IsConsistent :
      (command : PlayStartCommand) (now : ℤ) (c : Runtime a)
      → IsConsistent c.state
      → IsConsistent (start_play a command now c).1.state
  unfolding mark_started
  start_play-IsConsistent command now c h = ground (
    arith,
    start_play-cases a command now c,
    validate_start-CanStart command c.state,
    IsWindow-bounds now command.startup_seconds command.duration_seconds,
  )

  stop_play-IsConsistent :
      (command : PlayStopCommand) (c : Runtime a)
      → IsConsistent c.state
      → IsConsistent (stop_play a command c).1.state
  unfolding stop_play validate_stop
  stop_play-IsConsistent command c h = ground arith

  set_claw_power-IsConsistent :
      (command : ClawPowerCommand) (c : Runtime a)
      → IsConsistent c.state
      → IsConsistent (set_claw_power a command c).1.state
  unfolding set_claw_power validate_claw_power
  set_claw_power-IsConsistent command c h = ground arith

  emergency_stop-IsConsistent :
      (command : EmergencyStopCommand) (c : Runtime a)
      → IsConsistent c.state
      → IsConsistent (emergency_stop a command c).1.state
  unfolding emergency_stop
  emergency_stop-IsConsistent command c h = ground arith

  auto_stop-IsConsistent :
      (n : ℕ) (c : Runtime a) → IsConsistent c.state → IsConsistent (auto_stop a n c).state
  unfolding auto_stop
  auto_stop-IsConsistent n c h = ground arith

  fire-IsConsistent :
      (before after : List Timer) (t : Timer) (c : Runtime a)
      → IsConsistent c.state
      → IsConsistent (fire a before t after c).state
  unfolding fire
  fire-IsConsistent before after t c h =
      auto_stop-IsConsistent t.generation (record c { timers = before ++ after }) h

  Step-IsConsistent : {c d : Runtime a} → Step a c d → IsConsistent c.state → IsConsistent d.state
  unfolding clear_emergency status
  Step-IsConsistent (started command now) h = start_play-IsConsistent command now _ h
  Step-IsConsistent (stopped command) h = stop_play-IsConsistent command _ h
  Step-IsConsistent (powered command) h = set_claw_power-IsConsistent command _ h
  Step-IsConsistent (halted command) h = emergency_stop-IsConsistent command _ h
  Step-IsConsistent cleared h = ground arith
  Step-IsConsistent asked h = ground arith
  Step-IsConsistent (fired before after t e) h = fire-IsConsistent before after t _ h

  -- Every controller that is reached from a consistent one, whatever the calls, their arguments, the
  -- transport's answers and exceptions and the timers, is consistent: no play times without a play, a
  -- play window of 10 to 210 seconds with a play, and status `running` only with a play.
  pub Reach-IsConsistent :
      {c d : Runtime a} → Reach a c d → IsConsistent c.state → IsConsistent d.state
  Reach-IsConsistent here h = h
  Reach-IsConsistent (next r s) h = Step-IsConsistent s (Reach-IsConsistent r h)
