-- ===== src/Recommendation/Engine.antt =====
-- recommendation/engine.py: `evaluate`, over the latest game event, the latest detection, the answer
-- of the status callback (which may raise), the clock and the time stamp.
pub mod Timing
pub mod Unbroken
use progress_claw_machine.Shared.{
  ℕ, ℤ, pos, ◌-ℤ◌, leb_ℤ, Text, codes, ◌++◌, Bool, true, false, ◌&&◌, is_none, Option, none, some,
  if◌then◌else◌,
}
use progress_claw_machine.Shared.Action.{Result, ok, err}
use progress_claw_machine.Controller.Machine.{Snapshot}
use progress_claw_machine.Vision.Detections.{DetectionResult}
use progress_claw_machine.Game.Models.{GameState, idle, player_present, playing, GameStateEvent}
use progress_claw_machine.Game.Engine.{is_true_time}
use progress_claw_machine.Recommendation.Models.{
  RecommendationType, no_action, wait_for_player, ready_to_start, start_demo_mode, check_camera,
  check_arduino, system_degraded, Evidence, degraded, in_state, disconnected_for, present_for,
  idle_for, raised, Recommendation, is_vision_unavailable, is_system_degraded, disconnected_arduino,
  recommendation_reason, RecommendationCache, remember,
}

-- Times are in milliseconds.
pub record RecommendationConfig : Type 0 where
  pub player_ready : ℤ
  pub idle_demo_timeout : ℤ
  pub camera_timeout : ℤ
  pub arduino_timeout : ℤ
  pub recommendation_interval_ms : ℤ

-- `_player_present_since`, `_idle_since` and `_arduino_disconnected_since`
pub record Since : Type 0 where
  pub player_present_since : Option ℤ
  pub idle_since : Option ℤ
  pub arduino_disconnected_since : Option ℤ

-- The start of a condition: the first time of an unbroken row of times at which it held.
abbrev pub track : Bool → ℤ → Option ℤ → Option ℤ
track true now none = some now
track true now (some t) = some t
track false now since = none

abbrev pub is_present : GameState → Bool
is_present player_present = true
is_present _ = false

abbrev pub is_idle : GameState → Bool
is_idle idle = true
is_idle _ = false

-- `_track_durations`
unfoldable pub track_durations : GameState → Snapshot → ℤ → Since → Since
track_durations state status now s = record {
  player_present_since = track (is_present state) now s.player_present_since;
  idle_since = track (is_idle state) now s.idle_since;
  arduino_disconnected_since = track (disconnected_arduino status) now s.arduino_disconnected_since;
}

-- A recommendation before it has its reason and time stamp: the arguments of `_build`.
pub record Advice : Type 0 where
  pub kind : RecommendationType
  pub confidence : ℕ
  pub details : Evidence

abbrev advise : RecommendationType → ℕ → Evidence → Advice
advise kind confidence details = record { kind = kind; confidence = confidence; details = details }

-- `now - (since or now)`
unfoldable pub elapsed : Option ℤ → ℤ → ℤ
elapsed none now = now -ℤ now
elapsed (some t) now = if is_true_time (some t) then now -ℤ t else now -ℤ now

-- The branch of `_select_recommendation` on the game state.
unfoldable pub by_state : RecommendationConfig → GameState → ℤ → Since → Advice
by_state cfg player_present now s =
    let d = elapsed s.player_present_since now in
    if leb_ℤ cfg.player_ready d
    then advise ready_to_start 9200 (present_for d)
    else advise wait_for_player 7000 (present_for d)
by_state cfg idle now s =
    let d = elapsed s.idle_since now in
    if leb_ℤ cfg.idle_demo_timeout d
    then advise start_demo_mode 8000 (idle_for d)
    else advise wait_for_player 7500 (idle_for d)
by_state cfg playing now s = advise no_action 8000 (in_state playing)
by_state cfg state now s = advise no_action 6000 (in_state state)

-- The Arduino is missing for the timeout: how long.
abbrev lost : RecommendationConfig → ℤ → Option ℤ → Option ℤ
lost cfg now none = none
lost cfg now (some t) = if leb_ℤ cfg.arduino_timeout (now -ℤ t) then some (now -ℤ t) else none

unfoldable pub select_recommendation :
    RecommendationConfig → GameStateEvent → DetectionResult → Snapshot → ℤ → Since → Advice × Since
select_recommendation cfg event detection status now before =
    let s = track_durations event.state status now before in
    if is_system_degraded event status
    then (advise system_degraded 9500 (degraded event.state status), s)
    else if is_vision_unavailable event detection
    then (advise check_camera 9000 (in_state event.state), s)
    else elim (lost cfg now s.arduino_disconnected_since) [
      | some d ↦ (advise check_arduino 9000 (disconnected_for d), s)
      | none ↦ (by_state cfg event.state now s, s)
    ]

-- `_build`, with the time stamp of the new recommendation
unfoldable pub build : Advice → Text → Recommendation
build a stamp = record {
  recommendation = a.kind;
  confidence = a.confidence;
  reason = recommendation_reason a.kind;
  timestamp = stamp;
  source = codes "RecommendationEngine";
  details = a.details;
}

pub record RecommendationEngine : Type 0 where
  pub config : RecommendationConfig
  pub cache : RecommendationCache
  pub since : Since

abbrev failed : Text → Text → Recommendation
failed message stamp = record {
  recommendation = system_degraded;
  confidence = 10000;
  reason = codes "Recommendation error: " ++ message;
  timestamp = stamp;
  source = codes "RecommendationEngine";
  details = raised message;
}

unfoldable pub recommend :
    GameStateEvent
    → DetectionResult
    → Result Text Snapshot
    → ℤ
    → Text
    → RecommendationEngine
    → Recommendation × RecommendationEngine
unfolding remember build
recommend event detection (ok status) now stamp e =
    let (a, s) = select_recommendation e.config event detection status now e.since in
    let r = build a stamp in (r, record e { cache = remember r e.cache; since = s })
recommend event detection (err message) now stamp e =
    let r = failed message stamp in (r, record e { cache = remember r e.cache })
