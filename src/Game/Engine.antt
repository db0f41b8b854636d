-- ===== src/Game/Engine.antt =====
-- game/state_engine.py: `evaluate` and the choice of the state. `now` is the clock reading, `stamp`
-- the time stamp of the event; the status comes from a callback that may raise.
pub mod Priorities
pub mod History
use progress_claw_machine.Shared.{
  ℕ, ℤ, pos, ◌-ℤ◌, leb, leb_ℤ, ltb, ltb_ℤ, ◌==◌, Text, Bool, true, false, not, ◌&&◌, Option, none,
  some, List, [], ◌∷◌, length, if◌then◌else◌,
}
use progress_claw_machine.Shared.Action.{Result, ok, err}
use progress_claw_machine.Controller.Machine.{Snapshot}
use progress_claw_machine.Vision.Detections.{DetectedObject, DetectionResult}
use progress_claw_machine.Game.Models.{
  GameState, idle, player_present, player_count_changed, playing, grabbing, prize_detected, timeout,
  error, Source, runtime, timer, runtime_event, vision, game_state_engine, Details, runtime_status,
  events, prizes, players, last_seen, detection_unavailable, frame, failure, GameStateEvent,
}
use progress_claw_machine.Game.Rules.{
  PrizeZone, count_players, prize_objects, runtime_state, contains_grab_event,
}
use progress_claw_machine.Game.Cache.{GameStateCache, transition}

-- Times are in milliseconds, confidences in units of 0.0001.
pub record GameStateConfig : Type 0 where
  pub player_presence_threshold : ℤ
  pub idle_timeout : ℤ
  pub detection_confidence_threshold : ℕ
  pub prize_zone : PrizeZone
  pub state_update_interval_ms : ℤ
  pub play_timeout : ℤ

-- The state that the engine chose, and what it says of it.
pub record Choice : Type 0 where
  pub state : GameState
  pub confidence : ℕ
  pub source : Source
  pub details : Details

-- `_last_person_seen_at` and `_last_player_count`
pub record Memory : Type 0 where
  pub last_person_seen_at : Option ℤ
  pub last_player_count : ℕ

abbrev choose : GameState → ℕ → Source → Details → Choice
choose state confidence source details = record {
  state = state;
  confidence = confidence;
  source = source;
  details = details;
}

abbrev is_zero : ℤ → Bool
is_zero (pos n) = n == 0
is_zero _ = false

-- A time that is there and not 0.
abbrev pub is_true_time : Option ℤ → Bool
is_true_time none = false
is_true_time (some t) = not (is_zero t)

abbrev reached : Option ℤ → ℤ → Bool
reached none now = false
reached (some t) now = leb_ℤ t now

abbrev since_at_least : Option ℤ → ℤ → ℤ → Bool
since_at_least none now d = false
since_at_least (some t) now d = leb_ℤ d (now -ℤ t)

-- `_is_timeout`
unfoldable pub is_timeout : GameStateConfig → Snapshot → ℤ → Bool
is_timeout cfg s now =
    if is_true_time s.state.play_ends_at && s.running && reached s.state.play_ends_at now
    then true
    else if is_true_time s.state.play_started_at && s.running
    then since_at_least s.state.play_started_at now cfg.play_timeout
    else false

-- `max` of the confidences of a list that is not empty
unfoldable pub max_confidence : List DetectedObject → ℕ
max_confidence [] = 0
max_confidence (o ∷ os) =
    let rest = max_confidence os in if ltb o.confidence rest then rest else o.confidence

-- The last part of `_select_state`: nobody was seen lately.
unfoldable pub select_empty : Option ℤ → Option ℕ → Memory → Choice × Memory
select_empty none frame_id m =
    (choose error 7500 vision detection_unavailable, record m { last_player_count = 0 })
select_empty (some _) frame_id m =
    (choose idle 10000 timer (frame frame_id), record m { last_player_count = 0 })

unfoldable pub select_idle : GameStateConfig → DetectionResult → ℤ → Memory → Choice × Memory
select_idle cfg detection now m = elim m.last_person_seen_at [
  | none ↦ select_empty detection.timestamp detection.frame_id m
  | some t ↦
      if ltb_ℤ (now -ℤ t) cfg.idle_timeout
      then (choose player_present 5000 timer (last_seen (now -ℤ t)), m)
      else select_empty detection.timestamp detection.frame_id m
]

-- The part of `_select_state` that counts players.
unfoldable pub select_players : GameStateConfig → DetectionResult → ℕ → ℤ → Memory → Choice × Memory
select_players cfg detection count now m =
    let seen : Memory = record { last_person_seen_at = some now; last_player_count = count } in
    let found = players count detection.frame_id in
    if count == 0
    then select_idle cfg detection now m
    else if ltb 0 m.last_player_count && not (count == m.last_player_count)
    then (choose player_count_changed 10000 vision found, seen)
    else if leb_ℤ cfg.player_presence_threshold (pos count)
    then (choose player_present 10000 vision found, seen)
    else select_idle cfg detection now seen

abbrev pub is_error : Option GameState → Bool
is_error (some error) = true
is_error _ = false

abbrev pub is_playing : Option GameState → Bool
is_playing (some playing) = true
is_playing _ = false

abbrev pub found_prizes : GameStateConfig → DetectionResult → List DetectedObject
found_prizes cfg d = prize_objects d.objects cfg.detection_confidence_threshold cfg.prize_zone

-- `_select_state`
unfoldable pub select_state :
    GameStateConfig → Snapshot → DetectionResult → ℤ → List Text → Memory → Choice × Memory
select_state cfg status detection now runtime_events m =
    let found = found_prizes cfg detection in
    if is_error (runtime_state status)
    then (choose error 10000 runtime (runtime_status status), m)
    else if is_timeout cfg status now
    then (choose timeout 10000 timer (runtime_status status), m)
    else if contains_grab_event runtime_events
    then (choose grabbing 10000 runtime_event (events runtime_events), m)
    else if not (length found == 0)
    then (
      choose prize_detected (max_confidence found) vision
          (prizes detection.frame_id (length found)),
      m,
    )
    else if is_playing (runtime_state status)
    then (choose playing 10000 runtime (runtime_status status), m)
    else select_players cfg detection
        (count_players detection.objects cfg.detection_confidence_threshold) now m

pub record GameStateEngine : Type 0 where
  pub config : GameStateConfig
  pub state_cache : GameStateCache
  pub memory : Memory

-- `evaluate`, with the answer of the status callback and the detection that the cache holds.
unfoldable pub evaluate :
    Result Text Snapshot
    → DetectionResult
    → ℤ
    → Text
    → List Text
    → GameStateEngine
    → GameStateEvent × GameStateEngine
unfolding transition
evaluate (ok status) detection now stamp runtime_events e =
    let (c, m) = select_state e.config status detection now runtime_events e.memory in
    let (event, cache) = transition c.state c.confidence c.source c.details stamp e.state_cache in
    (event, record e { state_cache = cache; memory = m })
evaluate (err message) detection now stamp runtime_events e =
    let (event, cache) =
      transition error 10000 game_state_engine (failure message) stamp e.state_cache in
    (event, record e { state_cache = cache })
