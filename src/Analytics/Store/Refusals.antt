-- ===== src/Analytics/Store/Refusals.antt =====
-- The set of keys against the events that are still stored.
use progress_claw_machine.Analytics.Store.Keys.{
  is_key, has_key, IsDistinct, but_last, take_all, take-but_last, has_key-but_last,
  but_last-IsDistinct, has_key-nil, holds-last_key,
}
use mathlib.Core.Path.{subst}
use progress_claw_machine.Shared.{ltb, if◌then◌else◌, ◌==◌, length-take}
use progress_claw_machine.Shared.{
  ℕ, zero, suc, ◌-◌, ◌≤◌, ◌≡◌, ◌∙◌, sym, ap, refl, Text, text_eq, text_eq_sound, true, false, not,
  ◌||◌, Bool-cases, inl, inr, Option, none, some, List, [], ◌∷◌, length, take, arith,
}
use progress_claw_machine.Shared.Deque.{append_left, length-append_left}
use progress_claw_machine.Analytics.Store.{
  AnalyticsEvent, AnalyticsStore, new_store, holds, last_key, discard, add,
}

-- The set has the keys of the stored events, no two of which have the same, and nothing else.
pub record IsKeyed (s : AnalyticsStore) : Type 0 where
  pub bounded : 1 ≤ s.max_events
  pub sized : length s.events ≤ s.max_events
  pub paired : length s.event_dedupe_keys ≡ length s.events
  pub distinct : IsDistinct s.event_dedupe_keys
  pub exact : (t : Text) → holds s.dedupe_keys t ≡ has_key t s.event_dedupe_keys

-- The keys, and the set, once there is room for one more event.
abbrev olds : AnalyticsStore → List (Option Text)
olds s =
    if length s.events == s.max_events then but_last s.event_dedupe_keys else s.event_dedupe_keys

abbrev kept : AnalyticsStore → List Text
kept s =
    if length s.events == s.max_events
    then discard (last_key s.event_dedupe_keys) s.dedupe_keys
    else s.dedupe_keys

olds-IsDistinct : (s : AnalyticsStore) → IsKeyed s → IsDistinct (olds s)
olds-IsDistinct s h =
    let d = h.distinct in let e = but_last-IsDistinct s.event_dedupe_keys h.distinct in ground arith

kept-olds : (s : AnalyticsStore) → IsKeyed s → (t : Text) → holds (kept s) t ≡ has_key t (olds s)
kept-olds s h t =
    let e = h.exact t in
    let empty = h.exact [] ∙ has_key-nil s.event_dedupe_keys in
    let l = holds-last_key (last_key s.event_dedupe_keys) s.dedupe_keys t empty in
    let b = has_key-but_last t s.event_dedupe_keys h.distinct in ground arith

unknown-olds :
    (s : AnalyticsStore)
    → IsKeyed s
    → (t : Text) → holds s.dedupe_keys t ≡ false
    → has_key t (olds s) ≡ false
unknown-olds s h t new =
    let e = h.exact t in let b = has_key-but_last t s.event_dedupe_keys h.distinct in ground arith

append_left-cons :
    (n : ℕ) (k : Option Text) (ks : List (Option Text))
    → 1 ≤ n
    → append_left n k ks ≡ k ∷ take (n - 1) ks
unfolding append_left
append_left-cons zero k ks h = absurd (omega arith)
append_left-cons (suc n) k ks h = let e : n ≡ suc n - 1 = omega arith in ap (λ m. k ∷ take m ks) e

append_left-olds :
    (k : Option Text) (s : AnalyticsStore)
    → IsKeyed s
    → append_left s.max_events k s.event_dedupe_keys ≡ k ∷ olds s
append_left-olds k s h =
    let c = append_left-cons s.max_events k s.event_dedupe_keys h.bounded in
    let full = take-but_last (s.max_events - 1) s.event_dedupe_keys in
    let more = take_all (s.max_events - 1) s.event_dedupe_keys in
    let paired = h.paired in
    let sized = h.sized in let bounded = h.bounded in c ∙ ap (λ js. k ∷ js) (ground arith)

length-add_left :
    {A B : Type 0} (n : ℕ) (x : A) (y : B) (xs : List A) (ys : List B)
    → length xs ≡ length ys
    → length (append_left n x xs) ≡ length (append_left n y ys)
unfolding append_left
length-add_left n x y xs ys h = omega (arith, length-take n (x ∷ xs), length-take n (y ∷ ys))

-- The parts of the store that an accepted event leaves.
added-IsKeyed :
    (event : AnalyticsEvent) (key : Option Text) (s : AnalyticsStore)
    → IsKeyed s
    → (keys : List Text) → ((t : Text) → is_key t key ≡ true → has_key t (olds s) ≡ false)
    → ((t : Text) → holds keys t ≡ (is_key t key || has_key t (olds s)))
    → IsKeyed (record s {
      events = append_left s.max_events event s.events;
      event_dedupe_keys = append_left s.max_events key s.event_dedupe_keys;
      dedupe_keys = keys;
    })
unfolding has_key IsDistinct
added-IsKeyed event key s h keys new all =
    let e = append_left-olds key s h in
    record {
      bounded = h.bounded;
      sized = length-append_left s.max_events event s.events;
      paired = length-add_left s.max_events key event s.event_dedupe_keys s.events h.paired;
      distinct = subst IsDistinct (sym e) (new, olds-IsDistinct s h);
      exact = λ t. all t ∙ ap (has_key t) (sym e);
    }

-- Adding an event, with any key, keeps the set exact.
pub add-IsKeyed :
    (event : AnalyticsEvent) (key : Option Text) (s : AnalyticsStore)
    → IsKeyed s
    → IsKeyed (add event key s).1
unfolding add holds
add-IsKeyed event none s h = added-IsKeyed event none s h (kept s) (λ t k. cc) (kept-olds s h)
add-IsKeyed event (some []) s h =
    added-IsKeyed event (some []) s h (kept s) (λ t k. cc) (kept-olds s h)
add-IsKeyed event (some (c ∷ k)) s h = elim (Bool-cases (holds s.dedupe_keys (c ∷ k))) [
  | inl known ↦ rw known h
  | inr new ↦ rw new (
      added-IsKeyed event (some (c ∷ k)) s h ((c ∷ k) ∷ kept s)
        (λ t e.
          subst (λ u. has_key u (olds s) ≡ false) (text_eq_sound (c ∷ k) t e)
            (unknown-olds s h (c ∷ k) new))
        (λ t. ap (λ b. text_eq (c ∷ k) t || b) (kept-olds s h t)))
]

-- The calls of `add`, the first one first.
unfoldable pub add_all : List (AnalyticsEvent × Option Text) → AnalyticsStore → AnalyticsStore
add_all [] s = s
add_all ((event, key) ∷ offers) s = add_all offers (add event key s).1

add_all-IsKeyed :
    (offers : List (AnalyticsEvent × Option Text)) (s : AnalyticsStore)
    → IsKeyed s
    → IsKeyed (add_all offers s)
unfolding add_all
add_all-IsKeyed [] s h = h
add_all-IsKeyed ((event, key) ∷ offers) s h =
    add_all-IsKeyed offers (add event key s).1 (add-IsKeyed event key s h)

fresh-IsKeyed :
    (n : ℕ)
    → 1 ≤ n
    → IsKeyed (record { events = []; event_dedupe_keys = []; dedupe_keys = []; max_events = n })
unfolding IsDistinct has_key holds
fresh-IsKeyed n h = record {
  bounded = h;
  sized = omega arith;
  paired = refl;
  distinct = tt;
  exact = λ t. refl;
}

abbrev IsKeyedIf : Option AnalyticsStore → Type 0
IsKeyedIf none = Unit {0}
IsKeyedIf (some s) = IsKeyed s

new_store-IsKeyedIf : (n : ℕ) → IsKeyedIf (new_store n)
unfolding new_store
new_store-IsKeyedIf n = elim (Bool-cases (ltb n 1)) [
  | inl low ↦ rw low tt
  | inr fine ↦ rw fine (fresh-IsKeyed n (ground arith))
]

pub new_store-IsKeyed : (n : ℕ) (s : AnalyticsStore) → new_store n ≡ some s → IsKeyed s
new_store-IsKeyed n s e = subst IsKeyedIf e (new_store-IsKeyedIf n)

-- After any calls of `add` on a new store, an event with a key that is not empty is refused exactly if
-- an event with that key is still stored: no two stored events have the same key, there is one key
-- for each stored event, and there are no more events than the bound.
pub refused_iff :
    (n : ℕ) (new : AnalyticsStore) (offers : List (AnalyticsEvent × Option Text))
    (event : AnalyticsEvent) (c : ℕ) (k : Text)
    → new_store n ≡ some new
    → let s = add_all offers new in
      ((add event (some (c ∷ k)) s).0 ≡ not (has_key (c ∷ k) s.event_dedupe_keys))
      × IsDistinct s.event_dedupe_keys
      × (length s.event_dedupe_keys ≡ length s.events)
      × (length s.events ≤ s.max_events)
unfolding add
refused_iff n new offers event c k e =
    let s = add_all offers new in
    let h = add_all-IsKeyed offers new (new_store-IsKeyed n new e) in
    (ground (arith, h.exact (c ∷ k)), h.distinct, h.paired, h.sized)
