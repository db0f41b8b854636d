-- ===== src/Game/Engine/Priorities.antt =====
-- Which state the engine chooses.
use progress_claw_machine.Game.Models.{ready_to_play, prize_captured, failed_attempt}
use progress_claw_machine.Shared.{
  ℕ, ◌<◌, ℤ, ◌-ℤ◌, ltb_ℤ, ◌≡◌, ◌≢◌, ◌↔◌, ◌≢◌, ◌⊎◌, true, false, Text, List, length, some,
  if◌then◌else◌, is_some, arith,
}
use progress_claw_machine.Controller.Machine.{Snapshot}
use progress_claw_machine.Vision.Detections.{DetectionResult}
use progress_claw_machine.Game.Models.{
  GameState, idle, player_present, player_count_changed, playing, grabbing, prize_detected, timeout,
  error,
}
use progress_claw_machine.Game.Rules.{count_players, runtime_state, contains_grab_event}
use progress_claw_machine.Game.Engine.{
  GameStateConfig, Memory, is_timeout, is_error, is_playing, found_prizes, select_empty,
  select_idle, select_players, select_state,
}

module _ (cfg : GameStateConfig) (status : Snapshot) (detection : DetectionResult) (now : ℤ)
    (events : List Text) (m : Memory) where
  abbrev chosen : GameState
  chosen = (select_state cfg status detection now events m).0.state

  select_players_state :
      (count : ℕ)
      → let s = (select_players cfg detection count now m).0.state in
        (s ≡ player_count_changed) ⊎ ((s ≡ player_present) ⊎ ((s ≡ idle) ⊎ (s ≡ error)))
  unfolding select_players select_idle select_empty
  select_players_state count = ground arith

  -- The priorities of the signals, over every input: the state is TIMEOUT, GRABBING, PRIZE_DETECTED
  -- or PLAYING exactly when its own signal is there and no signal of a higher priority is, where the
  -- order is controller error, timeout, grab event, prize in the zone, play.
  pub select_state_priorities :
      let bad = is_error (runtime_state status) in
      let late = is_timeout cfg status now in
      let grab = contains_grab_event events in
      let count = length (found_prizes cfg detection) in
      let playing_now = is_playing (runtime_state status) in
      ((chosen ≡ timeout) ↔ ((bad ≡ false) × (late ≡ true)))
      × ((chosen ≡ grabbing) ↔ ((bad ≡ false) × (late ≡ false) × (grab ≡ true)))
      × ((chosen ≡ prize_detected)
          ↔ ((bad ≡ false) × (late ≡ false) × (grab ≡ false) × (0 < count)))
      × ((chosen ≡ playing)
          ↔ ((bad ≡ false) × (late ≡ false) × (grab ≡ false) × (count ≡ 0) × (playing_now ≡ true)))
  unfolding select_state
  select_state_priorities =
      let rest =
        select_players_state (count_players detection.objects cfg.detection_confidence_threshold) in
      (
        (λ h. ground arith, λ h. ground arith),
        (λ h. ground arith, λ h. ground arith),
        (λ h. ground arith, λ h. ground arith),
        (λ h. ground arith, λ h. ground arith),
      )

  -- No signal of a higher priority, and nobody in the picture.
  pub record IsQuiet : Type 0 where
    pub no_error : is_error (runtime_state status) ≡ false
    pub no_timeout : is_timeout cfg status now ≡ false
    pub no_grab : contains_grab_event events ≡ false
    pub no_prize : length (found_prizes cfg detection) ≡ 0
    pub no_play : is_playing (runtime_state status) ≡ false
    pub nobody : count_players detection.objects cfg.detection_confidence_threshold ≡ 0

  -- With no signal and nobody in the picture, a player seen at time t counts as present for less than
  -- the idle timeout; from then on the state is IDLE, or ERROR if there was never a detection, and
  -- the player count is forgotten.
  presence_window :
      (t : ℤ)
      → IsQuiet
      → m.last_person_seen_at ≡ some t
      → let (c, m') = select_state cfg status detection now events m in
        let waiting = ltb_ℤ (now -ℤ t) cfg.idle_timeout in
        (c.state ≡ (
          if waiting then player_present else if is_some detection.timestamp then idle else error))
        × (m'.last_person_seen_at ≡ some t)
        × (m'.last_player_count ≡ (if waiting then m.last_player_count else 0))
  unfolding select_state select_players select_idle select_empty
  presence_window t q e = ground arith

  -- READY_TO_PLAY, PRIZE_CAPTURED and FAILED_ATTEMPT are never chosen.
  pub never_chosen :
      (chosen ≢ ready_to_play) × (chosen ≢ prize_captured) × (chosen ≢ failed_attempt)
  unfolding select_state
  never_chosen =
      let rest =
        select_players_state (count_players detection.objects cfg.detection_confidence_threshold) in
      (λ h. ground arith, λ h. ground arith, λ h. ground arith)
