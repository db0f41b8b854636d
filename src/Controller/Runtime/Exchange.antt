-- ===== src/Controller/Runtime/Exchange.antt =====
-- One line of `start_play` over the transport: what it leaves of the controller, and when it passes.
use progress_claw_machine.Shared.{◌≡◌, refl, true, false, Text, ℤ, ◌⊎◌, inl, inr, arith}
use progress_claw_machine.Shared.Action.{ok, is_ok, Result-cases}
use progress_claw_machine.Controller.Machine.{running, PlayStartCommand}
use progress_claw_machine.Controller.Safety.{Attempt, validate_start}
use progress_claw_machine.Controller.Adapter.{Adapter, accepted, power_line, start_line}
use progress_claw_machine.Controller.Runtime.{Runtime, send_checked, start_play, mark_started}

module _ (a : Adapter) where
  pub record IsExchanged (c d : Runtime a) : Type 0 where
    pub same_generation : d.play_generation ≡ c.play_generation
    pub same_timers : d.timers ≡ c.timers
    pub same_mode : d.state.play_mode ≡ c.state.play_mode
    pub same_start : d.state.play_started_at ≡ c.state.play_started_at
    pub same_end : d.state.play_ends_at ≡ c.state.play_ends_at
    pub same_emergency : d.state.emergency_stopped ≡ c.state.emergency_stopped
    pub ran : d.state.status ≡ running → c.state.status ≡ running

  pub send_checked-IsExchanged :
      (line : Text) (attempt : Attempt) (c : Runtime a)
      → IsExchanged c (send_checked a line attempt c).1
  unfolding send_checked
  send_checked-IsExchanged line attempt c = ground arith

  pub is_ok-send_checked :
      (line : Text) (attempt : Attempt) (c : Runtime a)
      → is_ok (send_checked a line attempt c).0 ≡ accepted (a.send_command line c.arduino).0
  unfolding send_checked
  is_ok-send_checked line attempt c = ground arith

  pub arduino-send_checked :
      (line : Text) (attempt : Attempt) (c : Runtime a)
      → accepted (a.send_command line c.arduino).0 ≡ true
      → (send_checked a line attempt c).1.arduino
        ≡ (a.connected (a.send_command line c.arduino).1).1
  unfolding send_checked
  arduino-send_checked line attempt c h = ground arith

  IsExchanged-trans : {c d e : Runtime a} → IsExchanged c d → IsExchanged d e → IsExchanged c e
  IsExchanged-trans h k = ground arith

  IsExchanged-refl : {c : Runtime a} → IsExchanged c c
  IsExchanged-refl = ground arith

  -- A start that raises leaves the play and the timers; one that passes ends in the assignments.
  pub start_play-cases :
      (command : PlayStartCommand) (now : ℤ) (c : Runtime a)
      → let (r, d) = start_play a command now c in
        ((is_ok r ≡ false) × IsExchanged c d)
        ⊎ ((is_ok r ≡ true)
            × (validate_start command c.state ≡ ok tt)
            × ((e : Runtime a) × IsExchanged c e × (d ≡ mark_started a command now e)))
  unfolding start_play
  start_play-cases command now c =
      let power = power_line c.state.claw_power_percent in
      let start = start_line command.duration_seconds in
      let x = send_checked-IsExchanged power Attempt.set_claw_power c in
      let c' = (send_checked a power Attempt.set_claw_power c).1 in
      let y = send_checked-IsExchanged start Attempt.start_play c' in
      let d' = (send_checked a start Attempt.start_play c').1 in
      elim (Result-cases (validate_start command c.state)) [
        | inr (e, p) ↦ rw p (inl (refl, IsExchanged-refl))
        | inl (_, p) ↦ elim (Result-cases (send_checked a power Attempt.set_claw_power c).0) [
          | inr (e, q) ↦ rw (p, q) (inl (refl, x))
          | inl (_, q) ↦ elim (Result-cases (send_checked a start Attempt.start_play c').0) [
            | inr (e, r) ↦ rw (p, q, r) (inl (refl, IsExchanged-trans x y))
            | inl (_, r) ↦
                rw (p, q, r)
                  (inr (
                    λ i. true,
                    λ i. ok tt,
                    (d', IsExchanged-trans x y, λ i. mark_started a command now d'),
                  ))
          ]
        ]
      ]
