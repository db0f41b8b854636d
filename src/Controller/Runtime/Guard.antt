-- ===== src/Controller/Runtime/Guard.antt =====
-- When a play that goes on has a timer that will end it, and how a failed stop loses it.
use progress_claw_machine.Shared.{
  ℕ, ◌≤◌, ◌≡◌, true, false, none, some, is_some, List, ◌∷◌, ◌++◌, arith,
}
use progress_claw_machine.Shared.{ℤ, Text}
use progress_claw_machine.Shared.Action.{err}
use progress_claw_machine.Controller.Machine.{
  ready, fault, PlayStartCommand, PlayStopCommand, ClawPowerCommand, EmergencyStopCommand,
}
use progress_claw_machine.Controller.Safety.{could_not, Attempt, validate_stop}
use progress_claw_machine.Controller.Adapter.{
  Adapter, ArduinoResponse, Reliable, accepted, power_line, start_line, stop_line, emergency_line,
}
use progress_claw_machine.Controller.Runtime.{
  Timer, Runtime, start_play, stop_play, set_claw_power, emergency_stop, clear_emergency, status,
  auto_stop, mark_started, send_checked,
}
use progress_claw_machine.Controller.Runtime.Exchange.{start_play-cases}
use progress_claw_machine.Controller.Runtime.Steps.{
  Step, started, stopped, powered, halted, cleared, asked, fired, fire, Reach, here, next,
}
use progress_claw_machine.Controller.Runtime.Timers.{
  pending, StartedBy, pending-fresh, StartedBy-suc, pending-remove, StartedBy-remove, IsScheduled,
}

-- A play that goes on has a timer that will end it.
pub record IsGuarded {a : Adapter} (c : Runtime a) : Type 0 where
  pub scheduled : IsScheduled c
  pub guard : is_some c.state.play_mode ≡ true → pending c.play_generation c.timers ≡ 1

module _ (a : Adapter) where
  start_play-IsGuarded :
      (command : PlayStartCommand) (now : ℤ) (c : Runtime a)
      → IsGuarded c
      → IsGuarded (start_play a command now c).1
  unfolding mark_started
  start_play-IsGuarded command now c h = ground (
    arith,
    start_play-cases a command now c,
    StartedBy-suc c.play_generation c.timers,
    pending-fresh c.play_generation c.timers,
  )

  stop_play-IsGuarded :
      (command : PlayStopCommand) (c : Runtime a)
      → accepted (a.send_command stop_line c.arduino).0 ≡ true
      → IsGuarded c
      → IsGuarded (stop_play a command c).1
  unfolding stop_play validate_stop
  stop_play-IsGuarded command c fine h =
      ground
        (arith, StartedBy-suc c.play_generation c.timers, pending-fresh c.play_generation c.timers)

  set_claw_power-IsGuarded :
      (command : ClawPowerCommand) (c : Runtime a)
      → IsGuarded c
      → IsGuarded (set_claw_power a command c).1
  unfolding set_claw_power
  set_claw_power-IsGuarded command c h = ground arith

  emergency_stop-IsGuarded :
      (command : EmergencyStopCommand) (c : Runtime a)
      → is_some (a.send_command emergency_line c.arduino).0 ≡ true
      → IsGuarded c
      → IsGuarded (emergency_stop a command c).1
  unfolding emergency_stop
  emergency_stop-IsGuarded command c answered h =
      ground
        (arith, StartedBy-suc c.play_generation c.timers, pending-fresh c.play_generation c.timers)

  fire-IsGuarded :
      (before after : List Timer) (t : Timer) (c : Runtime a)
      → c.timers ≡ before ++ t ∷ after
      → accepted (a.send_command stop_line c.arduino).0 ≡ true
      → IsGuarded c
      → IsGuarded (fire a before t after c)
  unfolding fire auto_stop
  fire-IsGuarded before after t c e fine h =
      let started : StartedBy c.play_generation (before ++ t ∷ after) =
        rw (← e) h.scheduled.started_by in
      let single : pending c.play_generation (before ++ t ∷ after) ≤ 1 =
        rw (← e) h.scheduled.at_most_one in
      let guard : is_some c.state.play_mode ≡ true
          → pending c.play_generation (before ++ t ∷ after) ≡ 1 =
        rw (← e) h.guard in
      ground (
        arith,
        StartedBy-remove c.play_generation before t after,
        pending-remove c.play_generation before t after,
      )

module _ (a : Adapter) (q : Reliable a) where
  open q use {IsUp, send_up, connected_up, stop_accepted, emergency_answered}

  send_connected_up :
      (line : Text) (d : a.Device) → IsUp d → IsUp (a.connected (a.send_command line d).1).1
  send_connected_up line d u = connected_up _ (send_up line d u)

  auto_stop_up : (g : ℕ) (c : Runtime a) → IsUp c.arduino → IsUp (auto_stop a g c).arduino
  unfolding auto_stop
  auto_stop_up g c u =
      ground (arith, send_up stop_line c.arduino u, send_connected_up stop_line c.arduino u)

  send_checked_up :
      (line : Text) (attempt : Attempt) (c : Runtime a)
      → IsUp c.arduino
      → IsUp (send_checked a line attempt c).1.arduino
  unfolding send_checked
  send_checked_up line attempt c u =
      ground (arith, send_up line c.arduino u, send_connected_up line c.arduino u)

  start_play_up :
      (command : PlayStartCommand) (now : ℤ) (c : Runtime a)
      → IsUp c.arduino
      → IsUp (start_play a command now c).1.arduino
  unfolding start_play mark_started
  start_play_up command now c u =
      let power = power_line c.state.claw_power_percent in
      let c' = (send_checked a power Attempt.set_claw_power c).1 in
      let first = send_checked_up power Attempt.set_claw_power c u in
      let second =
        send_checked_up (start_line command.duration_seconds) Attempt.start_play c' first in
      ground (arith, first, second)

  stop_play_up :
      (command : PlayStopCommand) (c : Runtime a)
      → IsUp c.arduino
      → IsUp (stop_play a command c).1.arduino
  unfolding stop_play
  stop_play_up command c u =
      ground (arith, send_up stop_line c.arduino u, send_connected_up stop_line c.arduino u)

  set_claw_power_up :
      (command : ClawPowerCommand) (c : Runtime a)
      → IsUp c.arduino
      → IsUp (set_claw_power a command c).1.arduino
  unfolding set_claw_power
  set_claw_power_up command c u =
      let line = power_line command.power_percent in
      ground (arith, send_up line c.arduino u, send_connected_up line c.arduino u)

  emergency_stop_up :
      (command : EmergencyStopCommand) (c : Runtime a)
      → IsUp c.arduino
      → IsUp (emergency_stop a command c).1.arduino
  unfolding emergency_stop
  emergency_stop_up command c u =
      ground
        (arith, send_up emergency_line c.arduino u, send_connected_up emergency_line c.arduino u)

  pub Step-IsUp : {c d : Runtime a} → Step a c d → IsUp c.arduino → IsUp d.arduino
  unfolding clear_emergency status fire
  Step-IsUp (started command now) u = start_play_up command now _ u
  Step-IsUp (stopped command) u = stop_play_up command _ u
  Step-IsUp (powered command) u = set_claw_power_up command _ u
  Step-IsUp (halted command) u = emergency_stop_up command _ u
  Step-IsUp cleared u = u
  Step-IsUp asked u = connected_up _ u
  Step-IsUp (fired before after t e) u = auto_stop_up t.generation _ u

  Step-IsGuarded : {c d : Runtime a} → Step a c d → IsUp c.arduino → IsGuarded c → IsGuarded d
  unfolding clear_emergency status
  Step-IsGuarded (started command now) u h = start_play-IsGuarded a command now _ h
  Step-IsGuarded (stopped command) u h = stop_play-IsGuarded a command _ (stop_accepted _ u) h
  Step-IsGuarded (powered command) u h = set_claw_power-IsGuarded a command _ h
  Step-IsGuarded (halted command) u h =
      emergency_stop-IsGuarded a command _ (emergency_answered _ u) h
  Step-IsGuarded cleared u h = ground arith
  Step-IsGuarded asked u h = ground arith
  Step-IsGuarded (fired before after t e) u h =
      fire-IsGuarded a before after t _ e (stop_accepted _ u) h

  -- Over a transport that accepts every `PLAY STOP` and does not raise on `EMERGENCY STOP` (on other
  -- lines it may), in every controller that is reached from a guarded one (one with no play, say), a
  -- play that goes on has exactly one timer of the current generation, so that it will be ended.
  pub Reach-IsGuarded :
      {c d : Runtime a} → Reach a c d → IsUp c.arduino → IsGuarded c → IsUp d.arduino × IsGuarded d
  Reach-IsGuarded here u h = (u, h)
  Reach-IsGuarded (next r s) u h =
      let (u', h') = Reach-IsGuarded r u h in (Step-IsUp s u', Step-IsGuarded s u' h')

module _ (a : Adapter) where
  -- The timer of the current generation ends the play: if the transport accepts `PLAY STOP`, the
  -- machine is ready, with no play, no play times and no error.
  pub auto_stop_ends :
      (c : Runtime a)
      → is_some c.state.play_mode ≡ true
      → accepted (a.send_command stop_line c.arduino).0 ≡ true
      → let s = (auto_stop a c.play_generation c).state in
        (s.status ≡ ready) × (s.play_mode ≡ none) × (s.play_ends_at ≡ none) × (s.last_error ≡ none)
  unfolding auto_stop
  auto_stop_ends c p fine = ground arith

  -- A stop that the transport refuses raises, leaves the play on with status `fault`, and leaves no
  -- timer that would end it: each pending timer is void from then on.
  pub stop_play_unguarded :
      (command : PlayStopCommand) (c : Runtime a) (answer : ArduinoResponse)
      → IsScheduled c
      → is_some c.state.play_mode ≡ true
      → (a.send_command stop_line c.arduino).0 ≡ some answer
      → answer.ok ≡ false
      → let (r, d) = stop_play a command c in
        (r ≡ err (could_not Attempt.stop_play answer.message))
        × (d.state.play_mode ≡ c.state.play_mode)
        × (d.state.status ≡ fault)
        × (pending d.play_generation d.timers ≡ 0)
  unfolding stop_play validate_stop
  stop_play_unguarded command c answer h p answered bad =
      ground (arith, pending-fresh c.play_generation c.timers)
