-- ===== src/Analytics/Service/Offers.antt =====
-- analytics/service.py: the set of keys while events are offered and there is room.
use mathlib.Core.Path.{subst}
use progress_claw_machine.Shared.{
  ℕ, suc, ◌+◌, ◌≤◌, ◌≡◌, ◌∙◌, sym, refl, Text, text_eq_refl, Bool, true, false, Option, none, some,
  List, [], ◌∷◌, ◌++◌, length, length-take, All, arith,
}
use progress_claw_machine.Shared.Deque.{append_left}
use progress_claw_machine.Game.Rules.{is_true_text}
use progress_claw_machine.Analytics.Store.{AnalyticsEvent, AnalyticsStore, holds, add}
use progress_claw_machine.Analytics.Store.Keys.{has_key}
use progress_claw_machine.Analytics.Store.Refusals.{IsKeyed}
use progress_claw_machine.Analytics.Service.{AnalyticsService, Offer, event_of, offer, offer_all}

-- The key is in the set.
abbrev pub is_held : Option Text → AnalyticsStore → Bool
is_held none s = false
is_held (some k) s = holds s.dedupe_keys k

-- An event with the key is stored.
abbrev pub is_stored : Option Text → AnalyticsStore → Bool
is_stored none s = false
is_stored (some k) s = has_key k s.event_dedupe_keys

abbrev pub HasKey : Offer → Type 0
HasKey o = is_true_text o.key ≡ true

-- There is room for so many more events.
abbrev pub HasRoom : ℕ → AnalyticsStore → Type 0
HasRoom n s = length s.events + n ≤ s.max_events

pub add-HasRoom :
    (e : AnalyticsEvent) (k : Option Text) (n : ℕ) (s : AnalyticsStore)
    → HasRoom (suc n) s
    → HasRoom n (add e k s).1
unfolding add append_left
add-HasRoom e k n s h = ground (arith, length-take s.max_events (e ∷ s.events))

add_keeps :
    (e : AnalyticsEvent) (k : Option Text) (s : AnalyticsStore) (t : Text)
    → HasRoom 1 s
    → holds s.dedupe_keys t ≡ true
    → holds (add e k s).1.dedupe_keys t ≡ true
unfolding add holds
add_keeps e k s t h g = ground arith

add_holds :
    (e : AnalyticsEvent) (k : Option Text) (s : AnalyticsStore)
    → is_true_text k ≡ true
    → is_held k (add e k s).1 ≡ true
unfolding add holds
add_holds e none s h = cc
add_holds e (some []) s h = cc
add_holds e (some (c ∷ k)) s h = ground (arith, text_eq_refl (c ∷ k))

add_known :
    (e : AnalyticsEvent) (k : Option Text) (s : AnalyticsStore)
    → is_true_text k ≡ true
    → is_held k s ≡ true
    → (add e k s).1 ≡ s
unfolding add
add_known e none s h g = cc
add_known e (some []) s h g = cc
add_known e (some (c ∷ k)) s h g = ground arith

is_held_keeps :
    (e : AnalyticsEvent) (j k : Option Text) (s : AnalyticsStore)
    → HasRoom 1 s
    → is_held k s ≡ true
    → is_held k (add e j s).1 ≡ true
is_held_keeps e j none s h g = g
is_held_keeps e j (some k) s h g = add_keeps e j s k h g

pub is_stored-is_held :
    (k : Option Text) (s : AnalyticsStore) → IsKeyed s → is_held k s ≡ is_stored k s
is_stored-is_held none s h = refl
is_stored-is_held (some k) s h = h.exact k

module _ (uuid : ℕ → Text) where
  offers_keep :
      (k : Option Text) (os : List Offer) (s : AnalyticsService)
      → HasRoom (length os) s.store
      → is_held k s.store ≡ true
      → is_held k (offer_all uuid os s).store ≡ true
  unfolding offer_all offer
  offers_keep k [] s h g = g
  offers_keep k (o ∷ os) s h g =
      offers_keep k os (offer uuid o s)
        (add-HasRoom (event_of o (uuid s.created)) o.key (length os) s.store h)
        (is_held_keeps (event_of o (uuid s.created)) o.key k s.store (omega arith) g)

  pub offers_hold :
      (os : List Offer) (s : AnalyticsService)
      → HasRoom (length os) s.store
      → All HasKey os
      → All (λ o. is_held o.key (offer_all uuid os s).store ≡ true) os
  unfolding offer_all offer
  offers_hold [] s h g = tt
  offers_hold (o ∷ os) s h (g, gs) =
      let e = event_of o (uuid s.created) in
      let room = add-HasRoom e o.key (length os) s.store h in
      let t = offer uuid o s in
      (offers_keep o.key os t room (add_holds e o.key s.store g), offers_hold os t room gs)

  pub offers_known :
      (os : List Offer) (s : AnalyticsService)
      → All HasKey os
      → All (λ o. is_held o.key s.store ≡ true) os
      → (offer_all uuid os s).store ≡ s.store
  unfolding offer_all offer
  offers_known [] s g h = refl
  offers_known (o ∷ os) s (g, gs) (h, hs) =
      let same = add_known (event_of o (uuid s.created)) o.key s.store g h in
      offers_known os (offer uuid o s) gs
        (subst (λ t. All (λ p. is_held p.key t ≡ true) os) (sym same) hs)
      ∙ same

  pub offers-append :
      (os ps : List Offer) (s : AnalyticsService)
      → offer_all uuid ps (offer_all uuid os s) ≡ offer_all uuid (os ++ ps) s
  unfolding offer_all
  offers-append [] ps s = refl
  offers-append (o ∷ os) ps s = offers-append os ps (offer uuid o s)

  pub offers_fingerprint :
      (os : List Offer) (s : AnalyticsService)
      → (offer_all uuid os s).last_runtime_fingerprint ≡ s.last_runtime_fingerprint
  unfolding offer_all offer
  offers_fingerprint [] s = refl
  offers_fingerprint (o ∷ os) s = offers_fingerprint os (offer uuid o s)
