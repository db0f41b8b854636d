-- ===== src/Controller/Runtime/Timers.antt =====
-- The timers that end a play: which of them still count, and when a play has one.
use progress_claw_machine.Shared.{
  ℕ, suc, ◌+◌, ◌≤◌, ◌<◌, ◌≡◌, refl, true, List, [], ◌∷◌, ◌++◌, ◌==◌, if◌then◌else◌, arith,
}
use progress_claw_machine.Shared.{ℤ}
use progress_claw_machine.Shared.Action.{is_ok}
use progress_claw_machine.Controller.Machine.{
  PlayStartCommand, PlayStopCommand, ClawPowerCommand, EmergencyStopCommand,
}
use progress_claw_machine.Controller.Adapter.{Adapter}
use progress_claw_machine.Controller.Runtime.{
  Timer, Runtime, start_play, stop_play, set_claw_power, emergency_stop, clear_emergency, status,
  auto_stop, mark_started,
}
use progress_claw_machine.Controller.Runtime.Exchange.{start_play-cases}
use progress_claw_machine.Controller.Runtime.Steps.{
  Step, started, stopped, powered, halted, cleared, asked, fired, fire, Reach, here, next,
}

-- The timers started for generation `g`.
abbrev pub pending : ℕ → List Timer → ℕ
pending g [] = 0
pending g (t ∷ ts) = let rest = pending g ts in if t.generation == g then suc rest else rest

abbrev pub StartedBy : ℕ → List Timer → Type 0
StartedBy g [] = Unit {0}
StartedBy g (t ∷ ts) = (t.generation ≤ g) × StartedBy g ts

pub pending-fresh : (g : ℕ) (ts : List Timer) → StartedBy g ts → pending (g + 1) ts ≡ 0
pending-fresh g [] h = refl
pending-fresh g (t ∷ ts) h = ground (arith, pending-fresh g ts)

pub StartedBy-suc : (g : ℕ) (ts : List Timer) → StartedBy g ts → StartedBy (g + 1) ts
StartedBy-suc g [] h = tt
StartedBy-suc g (t ∷ ts) h = (omega arith, StartedBy-suc g ts h.1)

pub pending-remove :
    (g : ℕ) (before : List Timer) (t : Timer) (after : List Timer)
    → pending g (before ++ t ∷ after) ≡ (
        if t.generation == g
        then suc (pending g (before ++ after))
        else pending g (before ++ after))
pending-remove g [] t after = refl
pending-remove g (b ∷ before) t after = ground (arith, pending-remove g before t after)

pub StartedBy-remove :
    (g : ℕ) (before : List Timer) (t : Timer) (after : List Timer)
    → StartedBy g (before ++ t ∷ after)
    → StartedBy g (before ++ after)
StartedBy-remove g [] t after h = h.1
StartedBy-remove g (b ∷ before) t after h = (h.0, StartedBy-remove g before t after h.1)

-- No timer is newer than the current generation, and at most one is of it.
pub record IsScheduled {a : Adapter} (c : Runtime a) : Type 0 where
  pub started_by : StartedBy c.play_generation c.timers
  pub at_most_one : pending c.play_generation c.timers ≤ 1

module _ (a : Adapter) where
  pub start_play-IsScheduled :
      (command : PlayStartCommand) (now : ℤ) (c : Runtime a)
      → IsScheduled c
      → IsScheduled (start_play a command now c).1
  unfolding mark_started
  start_play-IsScheduled command now c h = ground (
    arith,
    start_play-cases a command now c,
    StartedBy-suc c.play_generation c.timers,
    pending-fresh c.play_generation c.timers,
  )

  pub stop_play-IsScheduled :
      (command : PlayStopCommand) (c : Runtime a)
      → IsScheduled c
      → IsScheduled (stop_play a command c).1
  unfolding stop_play
  stop_play-IsScheduled command c h =
      ground
        (arith, StartedBy-suc c.play_generation c.timers, pending-fresh c.play_generation c.timers)

  pub set_claw_power-IsScheduled :
      (command : ClawPowerCommand) (c : Runtime a)
      → IsScheduled c
      → IsScheduled (set_claw_power a command c).1
  unfolding set_claw_power
  set_claw_power-IsScheduled command c h = ground arith

  pub emergency_stop-IsScheduled :
      (command : EmergencyStopCommand) (c : Runtime a)
      → IsScheduled c
      → IsScheduled (emergency_stop a command c).1
  unfolding emergency_stop
  emergency_stop-IsScheduled command c h =
      ground
        (arith, StartedBy-suc c.play_generation c.timers, pending-fresh c.play_generation c.timers)

  pub fire-IsScheduled :
      (before after : List Timer) (t : Timer) (c : Runtime a)
      → c.timers ≡ before ++ t ∷ after
      → IsScheduled c
      → IsScheduled (fire a before t after c)
  unfolding fire auto_stop
  fire-IsScheduled before after t c e h =
      let started : StartedBy c.play_generation (before ++ t ∷ after) = rw (← e) h.started_by in
      let single : pending c.play_generation (before ++ t ∷ after) ≤ 1 = rw (← e) h.at_most_one in
      ground (
        arith,
        StartedBy-remove c.play_generation before t after,
        pending-remove c.play_generation before t after,
      )

  Step-IsScheduled : {c d : Runtime a} → Step a c d → IsScheduled c → IsScheduled d
  unfolding clear_emergency status
  Step-IsScheduled (started command now) h = start_play-IsScheduled command now _ h
  Step-IsScheduled (stopped command) h = stop_play-IsScheduled command _ h
  Step-IsScheduled (powered command) h = set_claw_power-IsScheduled command _ h
  Step-IsScheduled (halted command) h = emergency_stop-IsScheduled command _ h
  Step-IsScheduled cleared h = ground arith
  Step-IsScheduled asked h = ground arith
  Step-IsScheduled (fired before after t e) h = fire-IsScheduled before after t _ e h

  -- Whatever the calls, the transport's answers and exceptions and the timers that wake up, no timer is newer than
  -- the current play generation, and at most one timer is of it, if that holds at the start.
  pub Reach-IsScheduled : {c d : Runtime a} → Reach a c d → IsScheduled c → IsScheduled d
  Reach-IsScheduled here h = h
  Reach-IsScheduled (next r s) h = Step-IsScheduled s (Reach-IsScheduled r h)

  void_fire : (g : ℕ) (c : Runtime a) → g < c.play_generation → auto_stop a g c ≡ c
  unfolding auto_stop
  void_fire g c h = ground arith

  Step-grows : {c d : Runtime a} → Step a c d → c.play_generation ≤ d.play_generation
  unfolding clear_emergency status fire mark_started stop_play set_claw_power emergency_stop
      auto_stop
  Step-grows {c} (started command now) = ground (arith, start_play-cases a command now c)
  Step-grows (stopped command) = ground arith
  Step-grows (powered command) = ground arith
  Step-grows (halted command) = ground arith
  Step-grows cleared = omega arith
  Step-grows asked = omega arith
  Step-grows (fired before after t e) = ground arith

  Reach-grows : {c d : Runtime a} → Reach a c d → c.play_generation ≤ d.play_generation
  Reach-grows here = omega arith
  Reach-grows (next r s) = omega (arith, Reach-grows r, Step-grows s)

  start_play-grows :
      (command : PlayStartCommand) (now : ℤ) (c : Runtime a)
      → is_ok (start_play a command now c).0 ≡ true
      → c.play_generation < (start_play a command now c).1.play_generation
  unfolding mark_started
  start_play-grows command now c p = ground (arith, start_play-cases a command now c)

  -- After a start that passes, each timer of an earlier generation is void: in every controller that is
  -- reached from there, by any calls, answers and exceptions of the transport and timers, its thread
  -- changes nothing and sends nothing.
  pub auto_stop-earlier :
      (command : PlayStartCommand) (now : ℤ) (c later : Runtime a)
      → is_ok (start_play a command now c).0 ≡ true
      → Reach a (start_play a command now c).1 later
      → (g : ℕ) → g ≤ c.play_generation
      → auto_stop a g later ≡ later
  auto_stop-earlier command now c later p r g h =
      let up = start_play-grows command now c p in
      let more = Reach-grows r in void_fire g later (omega arith)
