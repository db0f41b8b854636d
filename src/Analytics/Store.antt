-- ===== src/Analytics/Store.antt =====
-- analytics/store.py and analytics/models.py. ISO-8601 parsing is Python's: `parse` gives the instant
-- of a time stamp in milliseconds, or none for the `ValueError`. Confidences are in units of 0.0001.
pub mod Dedupe
pub mod Keys
pub mod Refusals
use progress_claw_machine.Analytics.Details.{Payload}
use progress_claw_machine.Shared.{
  ℕ, ◌+◌, ◌-◌, ◌/◌, ℤ, leb, ltb, ltb_ℤ, ◌==◌, Text, codes, text_eq, Bool, true, false, not, ◌&&◌,
  ◌||◌, Option, none, some, List, [], ◌∷◌, length, take, any, keep, if◌then◌else◌,
}
use progress_claw_machine.Shared.Action.{Result, ok, err}
use progress_claw_machine.Shared.Deque.{append_left}

pub data Category : Type 0 where
  runtime vision game_state recommendation safety : Category

pub record AnalyticsEvent : Type 0 where
  pub category : Category
  pub event_type : Text
  pub source : Text
  pub timestamp : Text
  pub confidence : Option ℕ
  pub session_id : Option Text
  pub details : Payload
  pub event_id : Text

-- The deque of events, that of their keys, and the set of the keys that are not empty.
pub record AnalyticsStore : Type 0 where
  pub events : List AnalyticsEvent
  pub event_dedupe_keys : List (Option Text)
  pub dedupe_keys : List Text
  pub max_events : ℕ

-- `none` is the `ValueError` of a bound below 1.
unfoldable pub new_store : ℕ → Option AnalyticsStore
new_store max_events =
    if ltb max_events 1
    then none
    else some
        (record { events = []; event_dedupe_keys = []; dedupe_keys = []; max_events = max_events })

unfoldable pub holds : List Text → Text → Bool
holds keys k = any (λ j. text_eq j k) keys

unfoldable pub last_key : List (Option Text) → Option Text
last_key [] = none
last_key (k ∷ []) = k
last_key (k ∷ j ∷ ks) = last_key (j ∷ ks)

-- `set.discard`
unfoldable pub discard : Option Text → List Text → List Text
discard none keys = keys
discard (some k) keys = keep (λ j. not (text_eq j k)) keys

-- A key that is there and not empty.
abbrev pub real_key : Option Text → Option Text
real_key none = none
real_key (some []) = none
real_key (some (c ∷ k)) = some (c ∷ k)

abbrev is_known : Option Text → List Text → Bool
is_known none keys = false
is_known (some k) keys = holds keys k

abbrev add_key : Option Text → List Text → List Text
add_key none keys = keys
add_key (some k) keys = k ∷ keys

unfoldable pub add : AnalyticsEvent → Option Text → AnalyticsStore → Bool × AnalyticsStore
unfolding discard last_key
add event key s =
    let kept =
      if length s.events == s.max_events
      then discard (last_key s.event_dedupe_keys) s.dedupe_keys
      else s.dedupe_keys in
    if is_known (real_key key) s.dedupe_keys then (false, s) else (
      true,
      record s {
        events = append_left s.max_events event s.events;
        event_dedupe_keys = append_left s.max_events key s.event_dedupe_keys;
        dedupe_keys = add_key (real_key key) kept;
      },
    )

-- The filters of `query`; an empty text is no filter.
pub record Query : Type 0 where
  pub category : Option Text
  pub event_type : Option Text
  pub source : Option Text
  pub session_id : Option Text
  pub min_confidence : Option ℕ
  pub start : Option Text
  pub finish : Option Text
  pub limit : ℕ

pub data QueryError : Type 0 where
  bad_limit bad_timestamp start_after_end : QueryError

-- `category.value`
abbrev pub category_name : Category → Text
category_name runtime = codes "runtime"
category_name vision = codes "vision"
category_name game_state = codes "game_state"
category_name recommendation = codes "recommendation"
category_name safety = codes "safety"

abbrev matches_text : Option Text → Text → Bool
matches_text none t = true
matches_text (some s) t = text_eq t s

abbrev matches_session : Option Text → Option Text → Bool
matches_session none t = true
matches_session (some s) none = false
matches_session (some s) (some t) = text_eq t s

abbrev matches_confidence : Option ℕ → Option ℕ → Bool
matches_confidence none c = true
matches_confidence (some least) none = false
matches_confidence (some least) (some c) = not (ltb c least)

abbrev not_before : Option ℤ → Option ℤ → Bool
not_before (some a) (some t) = not (ltb_ℤ t a)
not_before _ _ = true

-- The tests of the loop on one event, whose time stamp has been parsed.
unfoldable pub matches : Query → Option ℤ → Option ℤ → Option ℤ → AnalyticsEvent → Bool
matches q start finish time e =
    matches_text (real_key q.category) (category_name e.category)
    && matches_text (real_key q.event_type) e.event_type
    && matches_text (real_key q.source) e.source
    && matches_session (real_key q.session_id) e.session_id
    && matches_confidence q.min_confidence e.confidence
    && not_before start time
    && not_before time finish

module _ (parse : Text → Option ℤ) where
  -- `_parse_timestamp`: nothing for no text, or the error.
  unfoldable pub parse_timestamp : Option Text → Result QueryError (Option ℤ)
  parse_timestamp none = ok none
  parse_timestamp (some []) = ok none
  parse_timestamp (some (c ∷ t)) = elim (parse (c ∷ t)) [
    | none ↦ err bad_timestamp
    | some at ↦ ok (some at)
  ]

  abbrev push :
      AnalyticsEvent
      → Result QueryError (List AnalyticsEvent)
      → Result QueryError (List AnalyticsEvent)
  push e (ok es) = ok (e ∷ es)
  push e (err x) = err x

  -- The loop, with the number of matches that may still be taken.
  unfoldable pub collect :
      Query
      → Option ℤ
      → Option ℤ
      → ℕ
      → List AnalyticsEvent
      → Result QueryError (List AnalyticsEvent)
  collect q start finish room [] = ok []
  collect q start finish room (e ∷ es) = elim (parse_timestamp (some e.timestamp)) [
    | err x ↦ err x
    | ok time ↦ elim (matches q start finish time e) [
      | false ↦ collect q start finish room es
      | true ↦ elim (leb room 1) [
        | true ↦ ok (e ∷ [])
        | false ↦ push e (collect q start finish (room - 1) es)
      ]
    ]
  ]

  unfoldable pub query_between :
      Query → Option ℤ → Option ℤ → AnalyticsStore → Result QueryError (List AnalyticsEvent)
  query_between q start finish s =
      if not (not_before start finish)
      then err start_after_end
      else collect q start finish q.limit s.events

  infixl 10 ◌>>=◌
  abbrev ◌>>=◌ :
      {A B : Type 0} → Result QueryError A → (A → Result QueryError B) → Result QueryError B
  ◌>>=◌ (ok a) f = f a
  ◌>>=◌ (err e) f = err e

  unfoldable pub query : Query → AnalyticsStore → Result QueryError (List AnalyticsEvent)
  unfolding query_between
  query q s = if ltb q.limit 1 || ltb 1000 q.limit then err bad_limit else do
    start ← parse_timestamp q.start
    finish ← parse_timestamp q.finish
    query_between q start finish s
