-- ===== src/Controller/Runtime/Halted.antt =====
-- What an emergency stop stands for as long as it lasts.
use progress_claw_machine.Shared.{
  ◌++◌, ℕ, ℤ, ◌≡◌, ap, true, false, none, is_some, List, Bool-cases, inl, inr, arith,
}
use progress_claw_machine.Controller.Machine.{
  emergency_stopped, PlayStartCommand, PlayStopCommand, ClawPowerCommand, EmergencyStopCommand,
}
use progress_claw_machine.Controller.Safety.{validate_stop}
use progress_claw_machine.Controller.Adapter.{Adapter, Reliable, emergency_line}
use progress_claw_machine.Controller.Runtime.{
  Timer, Runtime, start_play, stop_play, set_claw_power, emergency_stop, clear_emergency, status,
  auto_stop, mark_started,
}
use progress_claw_machine.Controller.Runtime.Exchange.{start_play-cases}
use progress_claw_machine.Controller.Runtime.Commands.{emergency_locks}
use progress_claw_machine.Controller.Runtime.Guard.{Step-IsUp}
use progress_claw_machine.Controller.Runtime.Steps.{
  Step, started, stopped, powered, halted, cleared, asked, fired, fire, Reach, here, next,
}

-- Under an emergency stop there is no play, and the status says so.
pub record IsHalted {a : Adapter} (c : Runtime a) : Type 0 where
  pub no_play : c.state.emergency_stopped ≡ true → c.state.play_mode ≡ none
  pub shown : c.state.emergency_stopped ≡ true → c.state.status ≡ emergency_stopped

module _ (a : Adapter) where
  -- What is left of a method that, under an emergency stop and with no play, does nothing.
  kept-IsHalted :
      (c d : Runtime a)
      → IsHalted c
      → (c.state.emergency_stopped ≡ true → c.state.play_mode ≡ none → d ≡ c)
      → (c.state.emergency_stopped ≡ false → d.state.emergency_stopped ≡ false)
      → IsHalted d
  kept-IsHalted c d h same clear = elim (Bool-cases c.state.emergency_stopped) [
    | inl under ↦ rw (same under (h.no_play under)) h
    | inr free ↦ record {
      no_play = λ e. ground (arith, clear free);
      shown = λ e. ground (arith, clear free);
    }
  ]

  start_play-clear :
      (command : PlayStartCommand) (now : ℤ) (c : Runtime a)
      → c.state.emergency_stopped ≡ false
      → (start_play a command now c).1.state.emergency_stopped ≡ false
  unfolding mark_started
  start_play-clear command now c free = ground (arith, start_play-cases a command now c)

  stop_play-clear :
      (command : PlayStopCommand) (c : Runtime a)
      → c.state.emergency_stopped ≡ false
      → (stop_play a command c).1.state.emergency_stopped ≡ false
  unfolding stop_play validate_stop
  stop_play-clear command c free = ground arith

  set_claw_power-clear :
      (command : ClawPowerCommand) (c : Runtime a)
      → c.state.emergency_stopped ≡ false
      → (set_claw_power a command c).1.state.emergency_stopped ≡ false
  unfolding set_claw_power
  set_claw_power-clear command c free = ground arith

  auto_stop-clear :
      (g : ℕ) (c : Runtime a)
      → c.state.emergency_stopped ≡ false
      → (auto_stop a g c).state.emergency_stopped ≡ false
  unfolding auto_stop
  auto_stop-clear g c free = ground arith

  emergency_stop-IsHalted :
      (command : EmergencyStopCommand) (c : Runtime a)
      → is_some (a.send_command emergency_line c.arduino).0 ≡ true
      → IsHalted (emergency_stop a command c).1
  unfolding emergency_stop
  emergency_stop-IsHalted command c answered = ground arith

  fire-IsHalted :
      (before after : List Timer) (t : Timer) (c : Runtime a)
      → IsHalted c
      → IsHalted (fire a before t after c)
  unfolding fire
  fire-IsHalted before after t c h =
      let c' : Runtime a = record c { timers = before ++ after } in
      kept-IsHalted c' (auto_stop a t.generation c')
        (record { no_play = h.no_play; shown = h.shown })
        (λ e p. (emergency_locks a c' e p).3 t.generation) (auto_stop-clear t.generation c')

module _ (a : Adapter) (q : Reliable a) where
  open q use {IsUp, emergency_answered}

  Step-IsHalted : {c d : Runtime a} → Step a c d → IsUp c.arduino → IsHalted c → IsHalted d
  unfolding clear_emergency status
  Step-IsHalted {c} (started command now) u h =
      kept-IsHalted a c _ h (λ e p. ap (λ r. r.1) ((emergency_locks a c e p).0 command now))
        (start_play-clear a command now c)
  Step-IsHalted {c} (stopped command) u h =
      kept-IsHalted a c _ h (λ e p. ap (λ r. r.1) ((emergency_locks a c e p).1 command))
        (stop_play-clear a command c)
  Step-IsHalted {c} (powered command) u h =
      kept-IsHalted a c _ h (λ e p. ap (λ r. r.1) ((emergency_locks a c e p).2 command))
        (set_claw_power-clear a command c)
  Step-IsHalted (halted command) u h = emergency_stop-IsHalted a command _ (emergency_answered _ u)
  Step-IsHalted cleared u h = ground arith
  Step-IsHalted asked u h = ground arith
  Step-IsHalted (fired before after t e) u h = fire-IsHalted a before after t _ h

  -- Over a transport that accepts every `PLAY STOP` and does not raise on `EMERGENCY STOP`, in every
  -- controller that is reached from one of which it holds: under an emergency stop there is no play and
  -- the status is `emergency_stopped`.
  pub Reach-IsHalted :
      {c d : Runtime a} → Reach a c d → IsUp c.arduino → IsHalted c → IsUp d.arduino × IsHalted d
  Reach-IsHalted here u h = (u, h)
  Reach-IsHalted (next r s) u h =
      let (u', h') = Reach-IsHalted r u h in (Step-IsUp a q s u', Step-IsHalted s u' h')
