-- ===== src/Game/Cache.antt =====
-- game/state_cache.py: the latest event and a bounded list of recent ones, newest first.
use progress_claw_machine.Shared.{ℕ, Text, List, [], ◌∷◌, take}
use progress_claw_machine.Shared.Deque.{append_left}
use progress_claw_machine.Game.Models.{
  GameState, idle, Source, initial, Details, no_details, GameStateEvent,
}

pub record GameStateCache : Type 0 where
  pub latest : GameStateEvent
  pub recent : List GameStateEvent
  pub max_events : ℕ

abbrev pub first_event : Text → GameStateEvent
first_event stamp = record {
  state = idle;
  timestamp = stamp;
  confidence = 10000;
  source = initial;
  details = no_details;
}

-- `GameStateCache(max_events)`
unfoldable pub new_game_cache : ℕ → Text → GameStateCache
new_game_cache max_events stamp = record {
  latest = first_event stamp;
  recent = take max_events (first_event stamp ∷ []);
  max_events = max_events;
}

-- `update`
unfoldable pub store : GameStateEvent → GameStateCache → GameStateCache
store event cache = record cache {
  latest = event;
  recent = append_left cache.max_events event cache.recent;
}

unfoldable pub transition :
    GameState → ℕ → Source → Details → Text → GameStateCache → GameStateEvent × GameStateCache
unfolding store
transition state confidence source details stamp cache =
    let event : GameStateEvent = record {
      state = state;
      timestamp = stamp;
      confidence = confidence;
      source = source;
      details = details;
    } in
    (event, store event cache)
