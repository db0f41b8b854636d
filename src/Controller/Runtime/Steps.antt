-- ===== src/Controller/Runtime/Steps.antt =====
-- What can happen to a controller: a method call, or a timer thread that wakes up. A method that
-- raises is a step too, to the controller that it leaves.
use progress_claw_machine.Shared.{ℤ, ◌≡◌, List, ◌∷◌, ◌++◌}
use progress_claw_machine.Controller.Machine.{
  PlayStartCommand, PlayStopCommand, ClawPowerCommand, EmergencyStopCommand,
}
use progress_claw_machine.Controller.Adapter.{Adapter}
use progress_claw_machine.Controller.Runtime.{
  Timer, Runtime, start_play, stop_play, set_claw_power, emergency_stop, clear_emergency, status,
  auto_stop,
}

-- The thread of `t` wakes up, runs, and is gone.
unfoldable pub fire : (a : Adapter) → List Timer → Timer → List Timer → Runtime a → Runtime a
fire a before t after c = auto_stop a t.generation (record c { timers = before ++ after })

pub data Step (a : Adapter) (c : Runtime a) : Runtime a → Type 0 where
  started : (command : PlayStartCommand) (now : ℤ) → Step a c (start_play a command now c).1
  stopped : (command : PlayStopCommand) → Step a c (stop_play a command c).1
  powered : (command : ClawPowerCommand) → Step a c (set_claw_power a command c).1
  halted : (command : EmergencyStopCommand) → Step a c (emergency_stop a command c).1
  cleared : Step a c (clear_emergency a c)
  asked : Step a c (status a c).1
  fired :
      (before after : List Timer) (t : Timer)
      → c.timers ≡ before ++ t ∷ after
      → Step a c (fire a before t after c)

-- Any number of steps.
pub data Reach (a : Adapter) (c : Runtime a) : Runtime a → Type 0 where
  here : Reach a c c
  next : {d e : Runtime a} → Reach a c d → Step a d e → Reach a c e
