-- ===== src/Analytics/Api.antt =====
-- analytics/api.py: the routes that collect and then read. `float` is Python's: `read_float` gives a
-- number in units of 0.0001, or none for its `ValueError`. A page from a template and the text of the CSV
-- file are left out; the file has one row for each event, below the names of the columns.
pub mod Again
use progress_claw_machine.Shared.{
  ℕ, ℤ, pos, negsuc, leb, leb_ℤ, ltb_ℤ, Text, codes, Bool, true, false, ◌&&◌, Option, none, some,
  List, [], ◌∷◌, if◌then◌else◌,
}
use progress_claw_machine.Shared.Action.{Result, ok, err}
use progress_claw_machine.Shared.Decimal.{read_int}
use progress_claw_machine.Analytics.Store.{AnalyticsEvent, AnalyticsStore, Query, QueryError, query}
use progress_claw_machine.Analytics.Service.{AnalyticsService, Outside, Sources, collect_all}
use progress_claw_machine.Analytics.Summary.{Summary, summary}

-- `request.args`
pub record Arguments : Type 0 where
  pub category : Option Text
  pub event_type : Option Text
  pub source : Option Text
  pub session_id : Option Text
  pub min_confidence : Option Text
  pub start : Option Text
  pub finish : Option Text
  pub limit : Option Text

-- The `ValueError`s that are answered with status 400.
pub data ApiError : Type 0 where
  bad_confidence bad_integer confidence_out_of_range : ApiError
  refused : QueryError → ApiError

infixl 10 ◌>>=◌
abbrev ◌>>=◌ : {A B : Type 0} → Result ApiError A → (A → Result ApiError B) → Result ApiError B
ok a >>= f = f a
err e >>= f = err e

-- A limit below 1 is refused by `query`, whatever it is.
abbrev as_limit : ℤ → ℕ
as_limit (pos n) = n
as_limit (negsuc _) = 0

limit_of : Option Text → Result ApiError ℤ
limit_of none = ok (pos 100)
limit_of (some t) = elim (read_int t) [ none ↦ err bad_integer | some n ↦ ok n ]

in_range : Option ℤ → Result ApiError (Option ℕ)
in_range none = ok none
in_range (some (pos n)) = if leb n 10000 then ok (some n) else err confidence_out_of_range
in_range (some (negsuc _)) = err confidence_out_of_range

module _ (read_float : Text → Option ℤ) where
  confidence_of : Option Text → Result ApiError (Option ℤ)
  confidence_of none = ok none
  confidence_of (some []) = ok none
  confidence_of (some (c ∷ t)) = elim (read_float (c ∷ t)) [
    | none ↦ err bad_confidence
    | some x ↦ ok (some x)
  ]

  -- `_query_options`
  unfoldable pub query_options : Arguments → Result ApiError Query
  unfolding confidence_of limit_of in_range
  query_options a = do
    confidence ← confidence_of a.min_confidence
    limit ← limit_of a.limit
    least ← in_range confidence
    ok record {
      category = a.category;
      event_type = a.event_type;
      source = a.source;
      session_id = a.session_id;
      min_confidence = least;
      start = a.start;
      finish = a.finish;
      limit = as_limit limit;
    }

module _ (x : Outside) (read_float parse : Text → Option ℤ) where
  refusal : Result QueryError (List AnalyticsEvent) → Result ApiError (List AnalyticsEvent)
  refusal (ok es) = ok es
  refusal (err e) = err (refused e)

  abbrev answer : Arguments → AnalyticsStore → Result ApiError (List AnalyticsEvent)
  unfolding refusal query_options
  answer a s = do q ← query_options read_float a; refusal (query parse q s)

  -- `events`, and `export_csv` with its rows
  unfoldable pub events_route :
      Arguments
      → Sources
      → Text
      → AnalyticsService
      → Result ApiError (List AnalyticsEvent) × AnalyticsService
  unfolding answer
  events_route a q now s = let t = collect_all x q now s in (answer a t.store, t)

module _ (x : Outside) where
  unfoldable pub summary_route : Sources → Text → AnalyticsService → Summary × AnalyticsService
  summary_route q now s = let t = collect_all x q now s in (summary t.store, t)
