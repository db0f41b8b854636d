-- ===== src/Game/Engine/History.antt =====
-- What a sequence of evaluations leaves in the cache.
use progress_claw_machine.Shared.{ℤ, ◌≡◌, refl, Text, List, [], ◌∷◌, take, arith}
use progress_claw_machine.Shared.Action.{Result, err}
use progress_claw_machine.Shared.Deque.{append_left, append_left-take}
use progress_claw_machine.Controller.Machine.{Snapshot}
use progress_claw_machine.Vision.Detections.{DetectionResult}
use progress_claw_machine.Game.Models.{GameStateEvent, error, failure}
use progress_claw_machine.Game.Cache.{GameStateCache}
use progress_claw_machine.Game.Engine.{GameStateEngine, evaluate}

-- What one call of `evaluate` reads.
pub record Reading : Type 0 where
  pub status : Result Text Snapshot
  pub detection : DetectionResult
  pub now : ℤ
  pub stamp : Text
  pub runtime_events : List Text

abbrev pub evaluate_reading : Reading → GameStateEngine → GameStateEvent × GameStateEngine
evaluate_reading r = evaluate r.status r.detection r.now r.stamp r.runtime_events

-- The engine after the readings, with every event that it ever had, newest first.
pub run :
    List Reading → GameStateEngine → List GameStateEvent → GameStateEngine × List GameStateEvent
run [] e history = (e, history)
run (r ∷ rs) e history = let (event, e') = evaluate_reading r e in run rs e' (event ∷ history)

-- An evaluation returns the event that it makes the latest one, and puts it first.
evaluate_stores :
    (r : Reading) (e : GameStateEngine)
    → let (event, e') = evaluate_reading r e in
      (e'.state_cache.latest ≡ event)
      × (e'.state_cache.recent ≡ append_left e.state_cache.max_events event e.state_cache.recent)
      × (e'.state_cache.max_events ≡ e.state_cache.max_events)
unfolding evaluate
evaluate_stores r e = ground arith

-- The cache against the whole history: the newest event, and the newest ones up to the bound.
unfoldable pub Shows : GameStateCache → List GameStateEvent → Type 0
Shows cache [] = ⊥
Shows cache (event ∷ older) =
    (cache.latest ≡ event) × (cache.recent ≡ take cache.max_events (event ∷ older))

Shows-evaluate :
    (r : Reading) (e : GameStateEngine) (history : List GameStateEvent)
    → Shows e.state_cache history
    → let (event, e') = evaluate_reading r e in Shows e'.state_cache (event ∷ history)
unfolding Shows
Shows-evaluate r e [] h = absurd h
Shows-evaluate r e (old ∷ older) h =
    let (latest, recent, bound) = evaluate_stores r e in
    let event = (evaluate_reading r e).0 in
    ground (arith, append_left-take e.state_cache.max_events event (old ∷ older))

-- Whatever the evaluations read, failing status callbacks included, the cache shows the newest event
-- as the latest and the newest events, up to its bound, of the whole history as the recent ones.
pub Shows-run :
    (rs : List Reading) (e : GameStateEngine) (history : List GameStateEvent)
    → Shows e.state_cache history
    → let (e', all) = run rs e history in Shows e'.state_cache all
unfolding run
Shows-run [] e history h = h
Shows-run (r ∷ rs) e history h =
    let (event, e') = evaluate_reading r e in
    Shows-run rs e' (event ∷ history) (Shows-evaluate r e history h)

-- A status callback that raises makes the state ERROR, with its message in the event, and leaves what
-- the engine remembers of players.
pub evaluate-failure :
    (message : Text) (detection : DetectionResult) (now : ℤ) (stamp : Text) (seen : List Text)
    (e : GameStateEngine)
    → let (event, e') = evaluate (err message) detection now stamp seen e in
      (event.state ≡ error)
      × (event.details ≡ failure message)
      × (e'.memory ≡ e.memory)
      × (e'.state_cache.latest ≡ event)
unfolding evaluate
evaluate-failure message detection now stamp seen e = (refl, refl, refl, refl)
