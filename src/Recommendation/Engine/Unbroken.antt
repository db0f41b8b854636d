-- ===== src/Recommendation/Engine/Unbroken.antt =====
-- recommendation/engine.py: since when each of its three conditions has held.
use progress_claw_machine.Shared.{
  ℤ, Text, ◌≡◌, ◌∙◌, ap, refl, Bool, true, false, Option, none, some, List, [], ◌∷◌, arith,
}
use progress_claw_machine.Shared.Action.{Result, ok, err}
use progress_claw_machine.Controller.Machine.{Snapshot}
use progress_claw_machine.Vision.Detections.{DetectionResult}
use progress_claw_machine.Game.Models.{GameState, GameStateEvent}
use progress_claw_machine.Recommendation.Models.{disconnected_arduino}
use progress_claw_machine.Recommendation.Engine.{
  RecommendationConfig, Since, is_present, is_idle, track, track_durations, select_recommendation,
  RecommendationEngine, recommend,
}

-- What was observed of a condition, newest first: the time, and whether it held.
abbrev pub Observed : Type 0
Observed = List (ℤ × Bool)

-- `track` over a row of evaluations, from an engine that has seen nothing.
pub tracked : Observed → Option ℤ
tracked [] = none
tracked ((now, held) ∷ older) = track held now (tracked older)

-- The newest observations, as long as the condition held.
unfoldable pub unbroken : Observed → Observed
unbroken [] = []
unbroken ((now, true) ∷ older) = (now, true) ∷ unbroken older
unbroken ((now, false) ∷ older) = []

-- The time of the oldest observation.
unfoldable pub first_time : Observed → Option ℤ
first_time [] = none
first_time ((now, held) ∷ []) = some now
first_time ((now, held) ∷ o ∷ older) = first_time (o ∷ older)

track_first :
    (now : ℤ) (os : Observed) → track true now (first_time os) ≡ first_time ((now, true) ∷ os)
unfolding first_time
track_first now [] = refl
track_first now ((t, h) ∷ []) = refl
track_first now ((t, h) ∷ o ∷ os) = track_first now (o ∷ os)

-- The kept start is the time of the first observation of the unbroken row, up to now, at which the
-- condition held.
tracked-unbroken : (os : Observed) → tracked os ≡ first_time (unbroken os)
unfolding tracked unbroken
tracked-unbroken [] = unfold first_time in refl
tracked-unbroken ((now, true) ∷ older) =
    rw (tracked-unbroken older) (track_first now (unbroken older))
tracked-unbroken ((now, false) ∷ older) = unfold first_time in refl

-- What an evaluation of the engine is given.
pub record Evaluation : Type 0 where
  pub event : GameStateEvent
  pub detection : DetectionResult
  pub answer : Result Text Snapshot
  pub now : ℤ
  pub stamp : Text

-- A row of evaluations, newest first.
unfoldable pub recommend_all : List Evaluation → RecommendationEngine → RecommendationEngine
recommend_all [] e = e
recommend_all (x ∷ older) e =
    (recommend x.event x.detection x.answer x.now x.stamp (recommend_all older e)).1

abbrev pub Condition : Type 0
Condition = GameState → Snapshot → Bool

-- A condition at the evaluations whose status callback answered.
unfoldable pub observed : Condition → List Evaluation → Observed
observed held [] = []
observed held (x ∷ older) = elim x.answer [
  | ok status ↦ (x.now, held x.event.state status) ∷ observed held older
  | err _ ↦ observed held older
]

-- Since when a condition has held without a break, up to the last evaluation that observed it.
abbrev pub since_when : Condition → List Evaluation → Option ℤ
since_when held es = first_time (unbroken (observed held es))

since-select_recommendation :
    (cfg : RecommendationConfig) (event : GameStateEvent) (detection : DetectionResult)
    (status : Snapshot) (now : ℤ) (before : Since)
    → (select_recommendation cfg event detection status now before).1
      ≡ track_durations event.state status now before
unfolding select_recommendation
since-select_recommendation cfg event detection status now before = ground arith

abbrev pub present : Condition
present state status = is_present state

abbrev pub idle_now : Condition
idle_now state status = is_idle state

abbrev pub missing : Condition
missing state status = disconnected_arduino status

since-recommend_ok :
    (event : GameStateEvent) (detection : DetectionResult) (status : Snapshot) (now : ℤ)
    (stamp : Text) (e : RecommendationEngine)
    → (recommend event detection (ok status) now stamp e).1.since
      ≡ track_durations event.state status now e.since
unfolding recommend
since-recommend_ok event detection status now stamp e =
    since-select_recommendation e.config event detection status now e.since

since-recommend_err :
    (event : GameStateEvent) (detection : DetectionResult) (message : Text) (now : ℤ) (stamp : Text)
    (e : RecommendationEngine)
    → (recommend event detection (err message) now stamp e).1.since ≡ e.since
unfolding recommend
since-recommend_err event detection message now stamp e = refl

-- The three starts, each tracked over its observations.
tracked_since : List Evaluation → Since
tracked_since es = record {
  player_present_since = tracked (observed present es);
  idle_since = tracked (observed idle_now es);
  arduino_disconnected_since = tracked (observed missing es);
}

tracked_since-step :
    (event : GameStateEvent) (detection : DetectionResult) (answer : Result Text Snapshot) (now : ℤ)
    (stamp : Text) (older : List Evaluation) (e : RecommendationEngine)
    → e.since ≡ tracked_since older
    → (recommend event detection answer now stamp e).1.since
      ≡ tracked_since (
          record { event = event; detection = detection; answer = answer; now = now; stamp = stamp }
          ∷ older)
unfolding tracked_since observed tracked track_durations
tracked_since-step event detection (ok status) now stamp older e h =
    since-recommend_ok event detection status now stamp e
    ∙ ap (track_durations event.state status now) h
tracked_since-step event detection (err message) now stamp older e h =
    since-recommend_err event detection message now stamp e ∙ h

recommend_all-tracked :
    (e : RecommendationEngine)
    → e.since ≡ tracked_since []
    → (es : List Evaluation) → (recommend_all es e).since ≡ tracked_since es
unfolding recommend_all
recommend_all-tracked e h [] = h
recommend_all-tracked e h (x ∷ older) =
    tracked_since-step x.event x.detection x.answer x.now x.stamp older (recommend_all older e)
      (recommend_all-tracked e h older)

-- An engine that has not evaluated yet.
abbrev pub nothing_since : Since
nothing_since = record {
  player_present_since = none;
  idle_since = none;
  arduino_disconnected_since = none;
}

-- After any row of evaluations of a new engine, whatever the events, the detections and the answers
-- of the status callback: it keeps, for the presence of a player, for the idle machine and for the
-- missing Arduino, the time of the first evaluation since which the condition has held at each that
-- observed it, and nothing if it did not hold at the last of them. An evaluation whose callback raised
-- observes nothing.
pub since-recommend_all :
    (e : RecommendationEngine)
    → e.since ≡ nothing_since
    → (es : List Evaluation)
    → let s = (recommend_all es e).since in
      (s.player_present_since ≡ since_when present es)
      × (s.idle_since ≡ since_when idle_now es)
      × (s.arduino_disconnected_since ≡ since_when missing es)
unfolding tracked_since tracked observed
since-recommend_all e fresh es =
    let t = recommend_all-tracked e (fresh ∙ refl) es in
    (
      ap Since.player_present_since t ∙ tracked-unbroken (observed present es),
      ap Since.idle_since t ∙ tracked-unbroken (observed idle_now es),
      ap Since.arduino_disconnected_since t ∙ tracked-unbroken (observed missing es),
    )
