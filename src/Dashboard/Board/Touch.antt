-- ===== src/Dashboard/Board/Touch.antt =====
-- The board and its controller: what every route and every timer keeps between them.
pub mod Routes
pub mod Changes
use progress_claw_machine.Shared.{
  inl, inr, ℕ, ℤ, pos, Text, codes, ◌≡◌, refl, Bool, true, false, Option, none, some, is_some, List,
  ◌++◌, ◌∷◌, if◌then◌else◌, arith,
}
use progress_claw_machine.Shared.Action.{Result, ok, err, is_ok, Result-cases}
use progress_claw_machine.Controller.Machine.{
  PlayMode, PlayStartCommand, PlayStopCommand, ClawPowerCommand, EmergencyStopCommand, Snapshot,
  snapshot,
}
use progress_claw_machine.Controller.Adapter.{Adapter}
use progress_claw_machine.Controller.Safety.{SafetyError}
use progress_claw_machine.Controller.Runtime
use progress_claw_machine.Controller.Runtime.{Runtime}
use progress_claw_machine.Controller.Runtime.Commands.{start_play_failure, set_claw_power_effect}
use progress_claw_machine.Dashboard.Panel
use progress_claw_machine.Dashboard.Panel.{refresh_power}
use progress_claw_machine.Dashboard.Board.{
  StopReason, Note, Board, add_event, dashboard_state, refresh_arduino_connection, count_people,
  apply_grabber_power_outputs, trigger_play, stop_play, Reply, controller_error_response, Method,
  try, error_shown, stop_text,
}

module _ (a : Adapter) where
  abbrev pub plays : Runtime a → Bool
  plays c = is_some c.state.play_mode

  -- A play of the controller shows on the board, and in maintenance there is none on the board.
  pub record IsInTouch (b : Board a) : Type 0 where
    pub shown : plays b.runtime ≡ true → is_some b.play_mode ≡ true
    pub parked : b.maintenance_mode ≡ true → is_some b.play_mode ≡ false

  -- The controller's methods, by what they do to the play.
  pub status_plays :
      (c : Runtime a)
      → (plays (Runtime.status a c).1 ≡ plays c) × ((Runtime.status a c).0.running ≡ plays c)
  unfolding Runtime.status snapshot
  status_plays c = ground arith

  pub stop_play-plays :
      (command : PlayStopCommand) (c : Runtime a)
      → let (r, d) = Runtime.stop_play a command c in plays d ≡ (if is_ok r then false else plays c)
  unfolding Runtime.stop_play
  stop_play-plays command c = ground arith

  pub emergency_stop-plays :
      (command : EmergencyStopCommand) (c : Runtime a)
      → let (r, d) = Runtime.emergency_stop a command c in
        plays d ≡ (if is_ok r then false else plays c)
  unfolding Runtime.emergency_stop
  emergency_stop-plays command c = ground arith

  pub auto_stop-plays :
      (n : ℕ) (c : Runtime a) → plays (Runtime.auto_stop a n c) ≡ true → plays c ≡ true
  unfolding Runtime.auto_stop
  auto_stop-plays n c h = ground arith

  -- The parts of the routes.
  pub add_event-IsInTouch : (n : Note) (b : Board a) → IsInTouch b → IsInTouch (add_event a n b)
  unfolding add_event
  add_event-IsInTouch n b h = ground arith

  pub dashboard_state-IsInTouch : (b : Board a) → IsInTouch b → IsInTouch (dashboard_state a b).1
  unfolding dashboard_state
  dashboard_state-IsInTouch b h = ground (arith, status_plays b.runtime)

  pub controller_error_response-IsInTouch :
      (e : SafetyError) (b : Board a) → IsInTouch b → IsInTouch (controller_error_response a e b).1
  unfolding controller_error_response
  controller_error_response-IsInTouch e b h =
      dashboard_state-IsInTouch (add_event a (error_shown e) b) (add_event-IsInTouch _ b h)

  pub refresh-IsInTouch : (b : Board a) → IsInTouch b → IsInTouch (refresh_arduino_connection a b)
  unfolding refresh_arduino_connection
  refresh-IsInTouch b h = ground (arith, status_plays b.runtime)

  pub count_people-IsInTouch : (n : ℤ) (b : Board a) → IsInTouch b → IsInTouch (count_people a n b)
  unfolding count_people
  count_people-IsInTouch n b h = ground arith

  pub apply_grabber-IsInTouch :
      (b : Board a) → IsInTouch b → IsInTouch (apply_grabber_power_outputs a b).1
  unfolding apply_grabber_power_outputs
  apply_grabber-IsInTouch b h =
      let p = refresh_power b.panel in
      ground (
        arith,
        set_claw_power_effect a
            (record { power_percent = p.grabber_power_percent; source = codes "dashboard" })
            b.runtime,
      )

  -- A stop of the dashboard that passes leaves no play; one that raises leaves the play as it was.
  pub stop_play-IsInTouch :
      (reason : StopReason) (source : Text) (b : Board a)
      → IsInTouch b
      → let (r, t) = stop_play a reason source b in
        IsInTouch t
        × (t.maintenance_mode ≡ b.maintenance_mode)
        × (is_ok r ≡ true → (is_some t.play_mode ≡ false))
  unfolding stop_play
  stop_play-IsInTouch reason source b h =
      let c = (Runtime.status a b.runtime).1 in
      ground (
        arith,
        status_plays b.runtime,
        stop_play-plays (record { source = source; reason = stop_text reason }) c,
      )

  -- `try` keeps what its method, its handler and its rest keep.
  pub try-IsInTouch :
      {A : Type 0} (m : Method a A) (handler : SafetyError → Board a → Reply × Board a)
      (fine : A → Board a → Reply × Board a) (b : Board a)
      → ((e : SafetyError) → (m b).0 ≡ err e → IsInTouch (m b).1)
      → ((e : SafetyError) → (m b).0 ≡ err e → IsInTouch (handler e (m b).1).1)
      → ((x : A) → (m b).0 ≡ ok x → IsInTouch (fine x (m b).1).1)
      → IsInTouch (try a m handler fine b).1
  try-IsInTouch m handler fine b k f g = elim (Result-cases (m b).0) [
    | inl (x, e) ↦ rw e (g x e)
    | inr (x, e) ↦ rw e (let l = k x e in let r = f x e in ground arith)
  ]

  -- A new claw power, with whatever keeps touch after it.
  pub with_power-IsInTouch :
      (rest : Board a → Reply × Board a) (b : Board a)
      → ((t : Board a) → IsInTouch t → IsInTouch (rest t).1)
      → IsInTouch b
      → IsInTouch
          (try a (apply_grabber_power_outputs a) (controller_error_response a) (λ _. rest) b).1
  with_power-IsInTouch rest b k h =
      let t = apply_grabber-IsInTouch b h in
      try-IsInTouch (apply_grabber_power_outputs a) (controller_error_response a) (λ _. rest) b
        (λ e p. t)
        (λ e p. controller_error_response-IsInTouch e (apply_grabber_power_outputs a b).1 t)
        (λ x p. k (apply_grabber_power_outputs a b).1 t)
