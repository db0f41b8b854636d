-- ===== src/Recommendation/Engine/Timing.antt =====
-- Which recommendation is given, and how long a condition has to hold for it.
use progress_claw_machine.Shared.{
  ℤ, ◌-ℤ◌, ◌≤ℤ◌, ◌≡◌, ◌↔◌, true, false, Option, none, some, is_some, arith,
}
use progress_claw_machine.Controller.Machine.{Snapshot}
use progress_claw_machine.Vision.Detections.{DetectionResult}
use progress_claw_machine.Game.Models.{player_present, idle, GameStateEvent}
use progress_claw_machine.Recommendation.Models.{
  RecommendationType, ready_to_start, check_arduino, start_demo_mode, check_camera, system_degraded,
  is_vision_unavailable, is_system_degraded,
}
use progress_claw_machine.Recommendation.Engine.{
  RecommendationConfig, Since, track_durations, elapsed, by_state, lost, select_recommendation,
}

-- The condition has held since some time, and for the timeout.
abbrev pub HeldFor : ℤ → ℤ → Option ℤ → Type 0
HeldFor timeout now none = ⊥
HeldFor timeout now (some t) = timeout ≤ℤ now -ℤ t

lost_lem :
    (cfg : RecommendationConfig) (now : ℤ) (o : Option ℤ)
    → (is_some (lost cfg now o) ≡ true) ↔ HeldFor cfg.arduino_timeout now o
lost_lem cfg now none = (λ h. cc, λ h. absurd h)
lost_lem cfg now (some t) = (λ h. ground arith, λ h. ground arith)

module _ (cfg : RecommendationConfig) (event : GameStateEvent) (detection : DetectionResult)
    (status : Snapshot) (now : ℤ) (before : Since) where
  abbrev kind : RecommendationType
  kind = (select_recommendation cfg event detection status now before).0.kind

  abbrev since : Since
  since = track_durations event.state status now before

  kind_faults :
      let degraded = is_system_degraded event status in
      let blind = is_vision_unavailable event detection in
      let missing = is_some (lost cfg now since.arduino_disconnected_since) in
      ((kind ≡ system_degraded) ↔ (degraded ≡ true))
      × ((kind ≡ check_camera) ↔ ((degraded ≡ false) × (blind ≡ true)))
      × ((kind ≡ check_arduino) ↔ ((degraded ≡ false) × (blind ≡ false) × (missing ≡ true)))
  unfolding select_recommendation by_state
  kind_faults = (
    (λ h. ground arith, λ h. ground arith),
    (λ h. ground arith, λ h. ground arith),
    (λ h. ground arith, λ h. ground arith),
  )

  -- The engine recommends: SYSTEM_DEGRADED exactly on a degraded system; CHECK_CAMERA exactly if that
  -- is not so and there is no detection; CHECK_ARDUINO exactly if neither is so and the Arduino is
  -- missing since a time from which to now is at least the timeout.
  pub select_recommendation_faults :
      let degraded = is_system_degraded event status in
      let blind = is_vision_unavailable event detection in
      ((kind ≡ system_degraded) ↔ (degraded ≡ true))
      × ((kind ≡ check_camera) ↔ ((degraded ≡ false) × (blind ≡ true)))
      × ((kind ≡ check_arduino) ↔ (
          (degraded ≡ false)
          × (blind ≡ false)
          × HeldFor cfg.arduino_timeout now since.arduino_disconnected_since))
  select_recommendation_faults =
      let (first, second, third) = kind_faults in
      let held = lost_lem cfg now since.arduino_disconnected_since in
      (
        first,
        second,
        (λ h. let (x, y, z) = third.0 h in (x, y, held.0 z), λ (x, y, z). third.1 (x, y, held.1 z)),
      )

  -- READY_TO_START is recommended exactly if no fault is, a player is present, and has been for the
  -- ready time; START_DEMO_MODE exactly if no fault is, the machine is idle, and has been for the demo
  -- time.
  pub select_recommendation_ready :
      let degraded = is_system_degraded event status in
      let blind = is_vision_unavailable event detection in
      let missing = is_some (lost cfg now since.arduino_disconnected_since) in
      ((kind ≡ ready_to_start) ↔ (
        (degraded ≡ false)
        × (blind ≡ false)
        × (missing ≡ false)
        × (event.state ≡ player_present)
        × (cfg.player_ready ≤ℤ elapsed since.player_present_since now)))
      × ((kind ≡ start_demo_mode) ↔ (
          (degraded ≡ false)
          × (blind ≡ false)
          × (missing ≡ false)
          × (event.state ≡ idle)
          × (cfg.idle_demo_timeout ≤ℤ elapsed since.idle_since now)))
  unfolding select_recommendation by_state
  select_recommendation_ready =
      ((λ h. ground arith, λ h. ground arith), (λ h. ground arith, λ h. ground arith))
