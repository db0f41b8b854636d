-- ===== src/Tests/Services.antt =====
-- The theorems of vision/, game/, recommendation/ and analytics/ at concrete inputs.
use progress_claw_machine.Shared.{
  ℕ, Text, List, pos, codes, ◌≡◌, ◌↔◌, refl, true, false, none, some, [], ◌∷◌,
}
use progress_claw_machine.Shared.Action.{Result, ok, err}
use progress_claw_machine.Controller.Machine.{default_state, Snapshot}
use progress_claw_machine.Vision.Detections.{DetectionResult, no_detection}
use progress_claw_machine.Game.Models.{player_present, timeout, GameStateEvent}
use progress_claw_machine.Game.Rules.{
  runtime_state, contains_grab_event, prize_objects, count_players, confident_objects,
}
use progress_claw_machine.Game.Cache.{first_event}
use progress_claw_machine.Game.Engine.{
  GameStateConfig, Memory, GameStateEngine, select_state, is_error, is_timeout,
}
use progress_claw_machine.Game.Engine.Priorities.{IsQuiet, select_state_priorities}
use progress_claw_machine.Game.Engine.History.{Reading, run, Shows, Shows-run}
use progress_claw_machine.Recommendation.Models.{
  new_recommendation_cache, system_degraded, is_system_degraded,
}
use progress_claw_machine.Recommendation.Engine.{
  RecommendationConfig, Since, RecommendationEngine, select_recommendation,
}
use progress_claw_machine.Recommendation.Engine.Unbroken.{
  Evaluation, nothing_since, recommend_all, since-recommend_all, observed, unbroken, first_time,
}
use progress_claw_machine.Recommendation.Engine.Timing.{select_recommendation_faults}

-- Game

abbrev game_config : GameStateConfig
game_config = record {
  player_presence_threshold = pos 1;
  idle_timeout = pos 15000;
  detection_confidence_threshold = 5000;
  prize_zone = record { x_min = pos 0; y_min = pos 0; x_max = pos 640; y_max = pos 480 };
  state_update_interval_ms = pos 500;
  play_timeout = pos 190000;
}

abbrev memory : Memory
memory = record { last_person_seen_at = some (pos 1000); last_player_count = 2 }

abbrev at_rest : Snapshot
at_rest = record {
  state = default_state;
  running = false;
  ok = none;
  arduino_response = none;
  power_response = none;
}

abbrev empty_picture : DetectionResult
empty_picture = record no_detection { timestamp = some (pos 9000); frame_id = some 3 }

-- A play that ran out.
abbrev run_out : Snapshot
run_out = record at_rest {
  state = record default_state { play_started_at = some (pos 1); play_ends_at = some (pos 8000) };
  running = true;
}

select_state_priorities_example :
    let c = (select_state game_config run_out empty_picture (pos 9000) [] memory).0 in
    (c.state ≡ timeout) ↔ (
      (is_error (runtime_state run_out) ≡ false)
      × (is_timeout game_config run_out (pos 9000) ≡ true))
select_state_priorities_example =
    (select_state_priorities game_config run_out empty_picture (pos 9000) [] memory).0

quiet : IsQuiet game_config at_rest empty_picture (pos 9000) [] memory
unfolding runtime_state is_timeout contains_grab_event prize_objects count_players confident_objects
quiet = record {
  no_error = refl;
  no_timeout = refl;
  no_grab = refl;
  no_prize = refl;
  no_play = refl;
  nobody = refl;
}

abbrev engine : GameStateEngine
engine = record {
  config = game_config;
  state_cache = record { latest = first_event []; recent = first_event [] ∷ []; max_events = 2 };
  memory = memory;
}

abbrev reading : Reading
reading = record {
  status = ok at_rest;
  detection = empty_picture;
  now = pos 9000;
  stamp = codes "9";
  runtime_events = [];
}

abbrev broken_reading : Reading
broken_reading = record reading { status = err (codes "gone"); stamp = codes "10" }

first_shown : Shows engine.state_cache (first_event [] ∷ [])
unfolding Shows
first_shown = (refl, refl)

Shows-run_example :
    let (e, all) = run (reading ∷ broken_reading ∷ []) engine (first_event [] ∷ []) in
    Shows e.state_cache all
Shows-run_example =
    Shows-run (reading ∷ broken_reading ∷ []) engine (first_event [] ∷ []) first_shown

-- Recommendation

abbrev advice_config : RecommendationConfig
advice_config = record {
  player_ready = pos 3000;
  idle_demo_timeout = pos 60000;
  camera_timeout = pos 10000;
  arduino_timeout = pos 10000;
  recommendation_interval_ms = pos 1000;
}

abbrev since_one : Since
since_one = record {
  player_present_since = some (pos 1000);
  idle_since = none;
  arduino_disconnected_since = none;
}

abbrev present_event : GameStateEvent
present_event = record (first_event []) { state = player_present }

select_recommendation_faults_example :
    let (a, s) =
      select_recommendation advice_config present_event empty_picture at_rest
        (pos 9000)
        since_one in
    (a.kind ≡ system_degraded) ↔ (is_system_degraded present_event at_rest ≡ true)
select_recommendation_faults_example =
    (select_recommendation_faults advice_config present_event empty_picture at_rest (pos 9000)
      since_one).0

abbrev seen_at : ℕ → Result Text Snapshot → Evaluation
seen_at n answer = record {
  event = present_event;
  detection = empty_picture;
  answer = answer;
  now = pos n;
  stamp = [];
}

abbrev fresh_engine : RecommendationEngine
fresh_engine = record {
  config = advice_config;
  cache = new_recommendation_cache 20 [];
  since = nothing_since;
}

-- A player is there for two evaluations, between which the status callback raises.
abbrev evaluations : List Evaluation
evaluations =
    seen_at 3000 (ok at_rest) ∷ seen_at 2000 (err (codes "gone")) ∷ seen_at 1000 (ok at_rest) ∷ []

since-recommend_all_example :
    (recommend_all evaluations fresh_engine).since.player_present_since ≡ some (pos 1000)
unfolding observed unbroken first_time
since-recommend_all_example = (since-recommend_all fresh_engine refl evaluations).0
