-- ===== src/Analytics/Service.antt =====
-- analytics/service.py: what one collection offers to the store. The clock, `uuid4`, `json.dumps`, the
-- text of an instant and the text of a float are arguments. No details that the engines give have an
-- entry `session_id`.
pub mod Offers
pub mod Twice
use progress_claw_machine.Shared.{
  ℕ, ◌+◌, ltb, ℤ, Text, codes, text_eq, ◌++◌, Bool, true, false, ◌||◌, Option, none, some, List, [],
  ◌∷◌, if◌then◌else◌,
}
use mathlib.Core.List.{reverse, map}
use progress_claw_machine.Shared.Decimal.{show_ℕ}
use progress_claw_machine.Controller.Machine.{Snapshot}
use progress_claw_machine.Vision.Detections.{DetectedObject, DetectionResult}
use progress_claw_machine.Game.Models
use progress_claw_machine.Game.Models.{GameState, GameStateEvent}
use progress_claw_machine.Game.Rules.{is_true_text}
use progress_claw_machine.Recommendation.Models.{RecommendationType, Recommendation}
use progress_claw_machine.Recommendation.Models as Advice
use progress_claw_machine.Analytics.Details.{
  Relevant, relevant, Payload, of_runtime, of_vision, of_game, of_recommendation,
}
use progress_claw_machine.Analytics.Store.{
  Category, runtime, vision, game_state, recommendation, safety, AnalyticsEvent, AnalyticsStore,
  add,
}

-- `GameState.value`
abbrev pub state_name : GameState → Text
state_name Models.idle = codes "IDLE"
state_name Models.player_present = codes "PLAYER_PRESENT"
state_name Models.player_count_changed = codes "PLAYER_COUNT_CHANGED"
state_name Models.ready_to_play = codes "READY_TO_PLAY"
state_name Models.playing = codes "PLAYING"
state_name Models.grabbing = codes "GRABBING"
state_name Models.prize_detected = codes "PRIZE_DETECTED"
state_name Models.prize_captured = codes "PRIZE_CAPTURED"
state_name Models.failed_attempt = codes "FAILED_ATTEMPT"
state_name Models.timeout = codes "TIMEOUT"
state_name Models.error = codes "ERROR"

abbrev pub source_name : Models.Source → Text
source_name Models.initial = codes "initial"
source_name Models.runtime = codes "runtime"
source_name Models.timer = codes "timer"
source_name Models.runtime_event = codes "runtime_event"
source_name Models.vision = codes "vision"
source_name Models.game_state_engine = codes "game_state_engine"

-- `RecommendationType.value`
abbrev pub advice_name : RecommendationType → Text
advice_name Advice.no_action = codes "NO_ACTION"
advice_name Advice.wait_for_player = codes "WAIT_FOR_PLAYER"
advice_name Advice.ready_to_start = codes "READY_TO_START"
advice_name Advice.increase_claw_power = codes "INCREASE_CLAW_POWER"
advice_name Advice.reduce_claw_power = codes "REDUCE_CLAW_POWER"
advice_name Advice.start_demo_mode = codes "START_DEMO_MODE"
advice_name Advice.stop_demo_mode = codes "STOP_DEMO_MODE"
advice_name Advice.check_camera = codes "CHECK_CAMERA"
advice_name Advice.check_arduino = codes "CHECK_ARDUINO"
advice_name Advice.system_degraded = codes "SYSTEM_DEGRADED"

-- `created` counts the events that were made: each takes the next identifier.
pub record AnalyticsService : Type 0 where
  pub store : AnalyticsStore
  pub last_runtime_fingerprint : Option Text
  pub created : ℕ

abbrev pub is_known_fingerprint : Text → Option Text → Bool
is_known_fingerprint f none = false
is_known_fingerprint f (some g) = text_eq f g

-- `max(…, default=None)` of the confidences
unfoldable pub highest : List DetectedObject → Option ℕ
highest [] = none
highest (o ∷ os) = elim (highest os) [
  | none ↦ some o.confidence
  | some best ↦ some (if ltb o.confidence best then best else o.confidence)
]

abbrev show_id : Option ℕ → Text
show_id none = codes "None"
show_id (some n) = show_ℕ n

-- An event before it has its identifier, with its key.
pub record Offer : Type 0 where
  pub category : Category
  pub event_type : Text
  pub source : Text
  pub timestamp : Text
  pub confidence : Option ℕ
  pub details : Payload
  pub key : Option Text

abbrev pub event_of : Offer → Text → AnalyticsEvent
event_of o id = record {
  category = o.category;
  event_type = o.event_type;
  source = o.source;
  timestamp = o.timestamp;
  confidence = o.confidence;
  session_id = none;
  details = o.details;
  event_id = id;
}

abbrev pub game_offer : GameStateEvent → Offer
game_offer e = record {
  category = game_state;
  event_type = state_name e.state;
  source = source_name e.source;
  timestamp = e.timestamp;
  confidence = some e.confidence;
  details = of_game e.details;
  key = some (codes "game:" ++ e.timestamp ++ codes ":" ++ state_name e.state);
}

abbrev pub recommendation_offer : Recommendation → Offer
recommendation_offer r = record {
  category = recommendation;
  event_type = advice_name r.recommendation;
  source = r.source;
  timestamp = r.timestamp;
  confidence = some r.confidence;
  details = of_recommendation r.reason r.details;
  key = some (codes "recommendation:" ++ r.timestamp ++ codes ":" ++ advice_name r.recommendation);
}

abbrev pub is_unsafe : Relevant → Bool
is_unsafe r = r.emergency_stopped || is_true_text r.last_error

abbrev pub runtime_offer : Relevant → Text → Offer
runtime_offer r now = record {
  category = if is_unsafe r then safety else runtime;
  event_type = if is_unsafe r then codes "runtime_safety_state" else codes "runtime_status";
  source = codes "RuntimeController.status";
  timestamp = now;
  confidence = none;
  details = of_runtime r;
  key = none;
}

-- What the services give to one collection: the histories come newest first.
pub record Sources : Type 0 where
  pub status : Snapshot
  pub detection : DetectionResult
  pub recent_events : List GameStateEvent
  pub history : List Recommendation

module _ (uuid : ℕ → Text) where
  unfoldable pub offer : Offer → AnalyticsService → AnalyticsService
  offer o s = record s {
    store = (add (event_of o (uuid s.created)) o.key s.store).1;
    created = s.created + 1;
  }

  unfoldable pub offer_all : List Offer → AnalyticsService → AnalyticsService
  unfolding offer
  offer_all [] s = s
  offer_all (o ∷ os) s = offer_all os (offer o s)

  -- `_collect_game_states`: the recent events, the oldest first.
  unfoldable pub collect_game_states : List GameStateEvent → AnalyticsService → AnalyticsService
  collect_game_states recent = offer_all (map game_offer (reverse recent))

  -- `_collect_recommendations`
  unfoldable pub collect_recommendations : List Recommendation → AnalyticsService → AnalyticsService
  collect_recommendations history = offer_all (map recommendation_offer (reverse history))

module _ (iso show_float : ℤ → Text) where
  abbrev pub detection_offer : DetectionResult → ℤ → Offer
  detection_offer d at = record {
    category = vision;
    event_type = codes "detection_result";
    source = codes "VisionService";
    timestamp = iso at;
    confidence = highest d.objects;
    details = of_vision d.frame_id d.objects;
    key = some (codes "vision:" ++ show_id d.frame_id ++ codes ":" ++ show_float at);
  }

  -- What `_collect_detection` offers.
  abbrev pub detection_offers : DetectionResult → List Offer
  detection_offers d = elim d.timestamp [ none ↦ [] | some at ↦ detection_offer d at ∷ [] ]

-- The parts of the outside: `json.dumps`, `uuid4`, the text of an instant and that of a float.
pub record Outside : Type 0 where
  pub dumps : Relevant → Text
  pub uuid : ℕ → Text
  pub iso : ℤ → Text
  pub show_float : ℤ → Text

module _ (x : Outside) where
  -- `_collect_runtime`; `now` is the time stamp of the event.
  unfoldable pub collect_runtime : Snapshot → Text → AnalyticsService → AnalyticsService
  collect_runtime status now s =
      let fingerprint = x.dumps (relevant status) in
      if is_known_fingerprint fingerprint s.last_runtime_fingerprint
      then s
      else offer x.uuid (runtime_offer (relevant status) now)
          (record s { last_runtime_fingerprint = some fingerprint })

  -- `_collect_detection`
  unfoldable pub collect_detection : DetectionResult → AnalyticsService → AnalyticsService
  collect_detection d = offer_all x.uuid (detection_offers x.iso x.show_float d)

  -- `collect`
  unfoldable pub collect_all : Sources → Text → AnalyticsService → AnalyticsService
  collect_all q now s = collect_recommendations x.uuid q.history (
      collect_game_states x.uuid q.recent_events
        (collect_detection q.detection (collect_runtime q.status now s)))
