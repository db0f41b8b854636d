-- ===== src/Analytics/Summary.antt =====
-- analytics/store.py, `summary`: how often each category and each type stands in the store, sorted by
-- name, and the average confidence, in units of 0.0001. Texts are ordered as Python orders strings, by
-- their code points. The division of floats is one of whole numbers, rounded half to even.
pub mod Counts
use progress_claw_machine.Shared.{
  ℕ, ◌+◌, ◌*◌, ◌/◌, ◌%◌, ltb, ◌==◌, Text, text_eq, Bool, true, false, Option, none, some, List, [],
  ◌∷◌, map, length, if◌then◌else◌,
}
use progress_claw_machine.Analytics.Store.{AnalyticsEvent, AnalyticsStore, category_name}

abbrev pub Counter : Type 0
Counter = List (Text × ℕ)

-- A `Counter`, by the order in which the names first come.
unfoldable pub count_one : Text → Counter → Counter
count_one name [] = (name, 1) ∷ []
count_one name ((other, n) ∷ t) =
    let rest = count_one name t in
    if text_eq name other then (other, n + 1) ∷ t else (other, n) ∷ rest

unfoldable pub count_all : List Text → Counter → Counter
count_all [] t = t
count_all (name ∷ names) t = count_all names (count_one name t)

-- `<` on strings
unfoldable pub before : Text → Text → Bool
before s [] = false
before [] (_ ∷ _) = true
before (c ∷ s) (d ∷ t) =
    let rest = before s t in if ltb c d then true else if ltb d c then false else rest

unfoldable pub insert : Text × ℕ → Counter → Counter
insert e [] = e ∷ []
insert e (d ∷ t) = let rest = insert e t in if before d.0 e.0 then d ∷ rest else e ∷ d ∷ t

-- `sorted(counts.items())`, whose names differ
unfoldable pub sort : Counter → Counter
unfolding insert
sort [] = []
sort (e ∷ t) = insert e (sort t)

unfoldable pub tally_of : List Text → Counter
unfolding sort
tally_of names = sort (count_all names [])

abbrev pub confidences : List AnalyticsEvent → List ℕ
confidences [] = []
confidences (e ∷ es) =
    let rest = confidences es in elim e.confidence [ none ↦ rest | some c ↦ c ∷ rest ]

abbrev pub sum : List ℕ → ℕ
sum [] = 0
sum (n ∷ ns) = n + sum ns

-- `round(total / count, 4)` for a count above 0
unfoldable pub nearest : ℕ → ℕ → ℕ
nearest total count =
    let quotient = total / count in
    let twice = 2 * (total % count) in
    if ltb twice count
    then quotient
    else if ltb count twice
    then quotient + 1
    else quotient + quotient % 2

abbrev average : List ℕ → Option ℕ
average [] = none
average (c ∷ cs) = some (nearest (sum (c ∷ cs)) (length (c ∷ cs)))

pub record Summary : Type 0 where
  pub total_events : ℕ
  pub by_category : Counter
  pub by_event_type : Counter
  pub average_confidence : Option ℕ
  pub capacity : ℕ

abbrev pub category_of : AnalyticsEvent → Text
category_of e = category_name e.category

abbrev pub type_of : AnalyticsEvent → Text
type_of e = e.event_type

unfoldable pub summary : AnalyticsStore → Summary
unfolding tally_of nearest
summary s = record {
  total_events = length s.events;
  by_category = tally_of (map category_of s.events);
  by_event_type = tally_of (map type_of s.events);
  average_confidence = average (confidences s.events);
  capacity = s.max_events;
}
