-- ===== src/Recommendation/Models.antt =====
-- recommendation/models.py, recommendation/rules.py and recommendation/cache.py.
use progress_claw_machine.Shared.{
  ℕ, ℤ, Text, codes, Bool, true, false, not, is_none, List, [], ◌∷◌, take, if◌then◌else◌,
}
use progress_claw_machine.Shared.Deque.{append_left}
use progress_claw_machine.Controller.Machine.{Snapshot}
use progress_claw_machine.Vision.Detections.{DetectionResult}
use progress_claw_machine.Game.Models.{
  GameState, error, Details, detection_unavailable, GameStateEvent,
}
use progress_claw_machine.Game.Rules.{is_true_text, is_fault}

pub data RecommendationType : Type 0 where
  no_action wait_for_player ready_to_start increase_claw_power reduce_claw_power :
      RecommendationType
  start_demo_mode stop_demo_mode check_camera check_arduino system_degraded : RecommendationType

-- The dictionaries of details that the engine builds.
pub data Evidence : Type 0 where
  nothing : Evidence
  degraded : GameState → Snapshot → Evidence
  in_state : GameState → Evidence
  disconnected_for present_for idle_for : ℤ → Evidence
  raised : Text → Evidence

-- The confidence is in units of 0.0001, the timestamp a text.
pub record Recommendation : Type 0 where
  pub recommendation : RecommendationType
  pub confidence : ℕ
  pub reason : Text
  pub timestamp : Text
  pub source : Text
  pub details : Evidence

abbrev is_error_state : GameState → Bool
is_error_state error = true
is_error_state _ = false

abbrev is_reason_unavailable : Details → Bool
is_reason_unavailable detection_unavailable = true
is_reason_unavailable _ = false

unfoldable pub is_vision_unavailable : GameStateEvent → DetectionResult → Bool
is_vision_unavailable event detection =
    if is_reason_unavailable event.details then true else is_none detection.timestamp

unfoldable pub is_system_degraded : GameStateEvent → Snapshot → Bool
is_system_degraded event s =
    if is_error_state event.state
    then true
    else if is_fault s.state.status
    then true
    else is_true_text s.state.last_error

unfoldable pub disconnected_arduino : Snapshot → Bool
disconnected_arduino s = not s.state.arduino_connected

unfoldable pub recommendation_reason : RecommendationType → Text
recommendation_reason no_action = codes "No higher-priority recommendation is available"
recommendation_reason wait_for_player = codes "Waiting for a player"
recommendation_reason ready_to_start = codes "Player detected for configured ready window"
recommendation_reason start_demo_mode = codes "Machine has been idle beyond demo timeout"
recommendation_reason stop_demo_mode = codes "Player is present while demo mode can stop"
recommendation_reason check_camera = codes "Vision or detection data is unavailable"
recommendation_reason check_arduino = codes "Arduino is disconnected"
recommendation_reason system_degraded = codes "Runtime or game state reports degraded status"
recommendation_reason increase_claw_power = codes "Gameplay signal suggests claw power may be low"
recommendation_reason reduce_claw_power = codes "Gameplay signal suggests claw power may be high"

pub record RecommendationCache : Type 0 where
  pub latest : Recommendation
  pub history : List Recommendation
  pub max_history : ℕ

abbrev first_recommendation : Text → Recommendation
first_recommendation stamp = record {
  recommendation = no_action;
  confidence = 10000;
  reason = codes "No recommendation generated yet";
  timestamp = stamp;
  source = codes "initial";
  details = nothing;
}

unfoldable pub new_recommendation_cache : ℕ → Text → RecommendationCache
new_recommendation_cache max_history stamp = record {
  latest = first_recommendation stamp;
  history = take max_history (first_recommendation stamp ∷ []);
  max_history = max_history;
}

-- `RecommendationCache.update`
unfoldable pub remember : Recommendation → RecommendationCache → RecommendationCache
remember r cache = record cache {
  latest = r;
  history = append_left cache.max_history r cache.history;
}
