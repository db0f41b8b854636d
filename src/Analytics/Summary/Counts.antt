-- ===== src/Analytics/Summary/Counts.antt =====
-- analytics/store.py: the counts of the summary.
use progress_claw_machine.Shared.{
  ℕ, suc, ◌+◌, Text, text_eq, text_eq_sound, ◌≡◌, refl, ap, ◌∙◌, inl, inr, Bool, true, false, ◌||◌,
  Bool-cases, Option, none, some, List, [], ◌∷◌, map, length, if◌then◌else◌, arith,
}
use progress_claw_machine.Analytics.Store.{AnalyticsEvent, AnalyticsStore}
use progress_claw_machine.Analytics.Summary.{
  Counter, count_one, count_all, before, insert, sort, tally_of, category_of, type_of, summary,
}

-- How often a name stands in a list, how much of it a tally has, and how much a tally has of all.
abbrev pub occurrences : Text → List Text → ℕ
occurrences name [] = 0
occurrences name (other ∷ names) = (if text_eq name other then 1 else 0) + occurrences name names

abbrev pub amount : Text → Counter → ℕ
amount name [] = 0
amount name ((other, n) ∷ t) = (if text_eq name other then n else 0) + amount name t

abbrev pub whole : Counter → ℕ
whole [] = 0
whole ((_, n) ∷ t) = n + whole t

abbrev has_name : Text → Counter → Bool
has_name name [] = false
has_name name ((other, _) ∷ t) = text_eq name other || has_name name t

-- No name twice.
abbrev IsDistinct : Counter → Type 0
IsDistinct [] = Unit {0}
IsDistinct ((name, _) ∷ t) = (has_name name t ≡ false) × IsDistinct t

-- The names grow strictly, from after a name on.
abbrev pub IsAfter : Option Text → Text → Type 0
IsAfter none t = Unit {0}
IsAfter (some s) t = before s t ≡ true

abbrev pub IsAscending : Option Text → Counter → Type 0
IsAscending low [] = Unit {0}
IsAscending low ((name, _) ∷ t) = IsAfter low name × IsAscending (some name) t

amount-count_one :
    (name other : Text) (t : Counter)
    → amount name (count_one other t) ≡ (if text_eq name other then 1 else 0) + amount name t
unfolding count_one
amount-count_one name other [] = omega arith
amount-count_one name other ((k, n) ∷ t) =
    ground (arith, amount-count_one name other t, text_eq_sound other k)

whole-count_one : (name : Text) (t : Counter) → whole (count_one name t) ≡ 1 + whole t
unfolding count_one
whole-count_one name [] = omega arith
whole-count_one name ((k, n) ∷ t) = ground (arith, whole-count_one name t)

has_name-count_one :
    (name other : Text) (t : Counter)
    → has_name name (count_one other t) ≡ (text_eq name other || has_name name t)
unfolding count_one
has_name-count_one name other [] = refl
has_name-count_one name other ((k, n) ∷ t) =
    ground (arith, has_name-count_one name other t, text_eq_sound other k)

text_eq_sym : (s t : Text) → text_eq s t ≡ text_eq t s
unfolding text_eq
text_eq_sym [] [] = refl
text_eq_sym [] (d ∷ t) = refl
text_eq_sym (c ∷ s) [] = refl
text_eq_sym (c ∷ s) (d ∷ t) = ground (arith, text_eq_sym s t)

count_one-IsDistinct : (name : Text) (t : Counter) → IsDistinct t → IsDistinct (count_one name t)
unfolding count_one
count_one-IsDistinct name [] h = (refl, tt)
count_one-IsDistinct name ((k, n) ∷ t) (new, h) =
    ground (arith, count_one-IsDistinct name t h, has_name-count_one k name t, text_eq_sym name k)

amount-count_all :
    (name : Text) (names : List Text) (t : Counter)
    → amount name (count_all names t) ≡ occurrences name names + amount name t
unfolding count_all
amount-count_all name [] t = omega arith
amount-count_all name (k ∷ names) t =
    omega (arith, amount-count_all name names (count_one k t), amount-count_one name k t)

whole-count_all :
    (names : List Text) (t : Counter) → whole (count_all names t) ≡ length names + whole t
unfolding count_all
whole-count_all [] t = omega arith
whole-count_all (k ∷ names) t =
    omega (arith, whole-count_all names (count_one k t), whole-count_one k t)

count_all-IsDistinct :
    (names : List Text) (t : Counter) → IsDistinct t → IsDistinct (count_all names t)
unfolding count_all
count_all-IsDistinct [] t h = h
count_all-IsDistinct (k ∷ names) t h =
    count_all-IsDistinct names (count_one k t) (count_one-IsDistinct k t h)

-- Sorting moves the entries only.
amount-insert :
    (name : Text) (e : Text × ℕ) (t : Counter)
    → amount name (insert e t) ≡ (if text_eq name e.0 then e.1 else 0) + amount name t
unfolding insert
amount-insert name e [] = omega arith
amount-insert name e (d ∷ t) = ground (arith, amount-insert name e t)

whole-insert : (e : Text × ℕ) (t : Counter) → whole (insert e t) ≡ e.1 + whole t
unfolding insert
whole-insert e [] = omega arith
whole-insert e (d ∷ t) = ground (arith, whole-insert e t)

has_name-insert :
    (name : Text) (e : Text × ℕ) (t : Counter)
    → has_name name (insert e t) ≡ (text_eq name e.0 || has_name name t)
unfolding insert
has_name-insert name e [] = refl
has_name-insert name e (d ∷ t) = ground (arith, has_name-insert name e t)

-- Of two texts that differ, one comes before the other.
before_total : (s t : Text) → text_eq s t ≡ false → before s t ≡ false → before t s ≡ true
unfolding text_eq before
before_total [] [] h k = ground arith
before_total [] (d ∷ t) h k = ground arith
before_total (c ∷ s) [] h k = refl
before_total (c ∷ s) (d ∷ t) h k = ground (arith, before_total s t)

or_left : (a b : Bool) → (a || b) ≡ false → a ≡ false
or_left false b h = refl
or_left true b h = h

or_right : (a b : Bool) → (a || b) ≡ false → b ≡ false
or_right false b h = h
or_right true b h = ground arith

length-map : (f : AnalyticsEvent → Text) (es : List AnalyticsEvent) → length (map f es) ≡ length es
length-map f [] = refl
length-map f (e ∷ es) = ap (λ n. suc n) (length-map f es)

insert-IsAscending :
    (low : Option Text) (e : Text × ℕ) (t : Counter)
    → IsAfter low e.0
    → IsAscending low t
    → has_name e.0 t ≡ false
    → IsAscending low (insert e t)
unfolding insert
insert-IsAscending low e [] after h new = (after, tt)
insert-IsAscending low e (d ∷ t) after (first, h) new =
    let differ : text_eq d.0 e.0 ≡ false = text_eq_sym d.0 e.0 ∙ or_left _ _ new in
    elim (Bool-cases (before d.0 e.0)) [
      | inl earlier ↦
          rw earlier
            (first, insert-IsAscending (some d.0) e t earlier h (or_right (text_eq e.0 d.0) _ new))
      | inr later ↦ rw later (after, (before_total d.0 e.0 differ later, h))
    ]

amount-sort : (name : Text) (t : Counter) → amount name (sort t) ≡ amount name t
unfolding sort
amount-sort name [] = refl
amount-sort name (e ∷ t) = omega (arith, amount-insert name e (sort t), amount-sort name t)

whole-sort : (t : Counter) → whole (sort t) ≡ whole t
unfolding sort
whole-sort [] = refl
whole-sort (e ∷ t) = omega (arith, whole-insert e (sort t), whole-sort t)

has_name-sort : (name : Text) (t : Counter) → has_name name (sort t) ≡ has_name name t
unfolding sort
has_name-sort name [] = refl
has_name-sort name (e ∷ t) =
    has_name-insert name e (sort t) ∙ ap (λ b. text_eq name e.0 || b) (has_name-sort name t)

sort-IsAscending : (t : Counter) → IsDistinct t → IsAscending none (sort t)
unfolding sort
sort-IsAscending [] h = tt
sort-IsAscending (e ∷ t) (new, h) =
    insert-IsAscending none e (sort t) tt (sort-IsAscending t h) (has_name-sort e.0 t ∙ new)

-- A tally that counts some names: every name as often as it occurs, all of them together, in the
-- order of the names and each name once.
pub record IsTallyOf (names : List Text) (t : Counter) : Type 0 where
  pub amounts : (name : Text) → amount name t ≡ occurrences name names
  pub everything : whole t ≡ length names
  pub ascending : IsAscending none t

tally_of-IsTallyOf : (names : List Text) → IsTallyOf names (tally_of names)
unfolding tally_of
tally_of-IsTallyOf names = record {
  amounts =
      λ name. amount-sort name (count_all names []) ∙ omega (arith, amount-count_all name names []);
  everything = whole-sort (count_all names []) ∙ omega (arith, whole-count_all names []);
  ascending = sort-IsAscending (count_all names []) (count_all-IsDistinct names [] tt);
}

-- The summary of a store counts each category, and each type, as often as stored events have it, in
-- the order of the names and each name once, and either way counts as many events as it says that
-- there are.
pub summary-IsTallyOf :
    (s : AnalyticsStore)
    → let r = summary s in
      IsTallyOf (map category_of s.events) r.by_category
      × IsTallyOf (map type_of s.events) r.by_event_type
      × (whole r.by_category ≡ r.total_events)
      × (whole r.by_event_type ≡ r.total_events)
unfolding summary
summary-IsTallyOf s =
    let c = tally_of-IsTallyOf (map category_of s.events) in
    let t = tally_of-IsTallyOf (map type_of s.events) in
    (
      c,
      t,
      c.everything ∙ length-map category_of s.events,
      t.everything ∙ length-map type_of s.events,
    )
