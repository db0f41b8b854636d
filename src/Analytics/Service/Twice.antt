-- ===== src/Analytics/Service/Twice.antt =====
-- analytics/service.py: a collection that is made again.
use progress_claw_machine.Analytics.Service.Offers.{
  is_held, is_stored, HasKey, HasRoom, add-HasRoom, is_stored-is_held, offers_hold, offers_known,
  offers-append, offers_fingerprint,
}
use mathlib.Core.Path.{subst}
use progress_claw_machine.Shared.{
  ℕ, suc, ◌+◌, ◌≤◌, ◌≡◌, ◌∙◌, sym, ap, refl, Text, text_eq_refl, text_eq_sound, true, some, List,
  [], ◌∷◌, ◌++◌, map, length, All, Option-cases, Bool-cases, inl, inr, arith,
}
use mathlib.Core.List.{reverse}
use progress_claw_machine.Vision.Detections.{DetectionResult}
use progress_claw_machine.Game.Models.{GameStateEvent}
use progress_claw_machine.Controller.Machine.{Snapshot}
use progress_claw_machine.Recommendation.Models.{Recommendation}
use progress_claw_machine.Analytics.Details.{relevant}
use progress_claw_machine.Analytics.Store.{AnalyticsStore}
use progress_claw_machine.Analytics.Store.Refusals.{IsKeyed, add-IsKeyed}
use progress_claw_machine.Analytics.Service.{
  AnalyticsService, Offer, event_of, game_offer, recommendation_offer, Sources, offer, offer_all,
  Outside, collect_runtime, detection_offers, collect_detection, collect_game_states,
  collect_recommendations, collect_all, is_known_fingerprint, runtime_offer,
}

All-HasKey-append : (os ps : List Offer) → All HasKey os → All HasKey ps → All HasKey (os ++ ps)
All-HasKey-append [] ps h k = k
All-HasKey-append (o ∷ os) ps (h, hs) k = (h, All-HasKey-append os ps hs k)

game-HasKey : (es : List GameStateEvent) → All HasKey (map game_offer es)
game-HasKey [] = tt
game-HasKey (e ∷ es) = (refl, game-HasKey es)

recommendation-HasKey : (rs : List Recommendation) → All HasKey (map recommendation_offer rs)
recommendation-HasKey [] = tt
recommendation-HasKey (r ∷ rs) = (refl, recommendation-HasKey rs)

module _ (x : Outside) where
  -- What a collection offers beside the controller's status, in the order of the offers.
  abbrev pub keyed_offers : Sources → List Offer
  keyed_offers q =
      detection_offers x.iso x.show_float q.detection
      ++ map game_offer (reverse q.recent_events)
      ++ map recommendation_offer (reverse q.history)

  detection-HasKey : (d : DetectionResult) → All HasKey (detection_offers x.iso x.show_float d)
  detection-HasKey d = elim (Option-cases d.timestamp) [
    | inl off ↦ rw off tt
    | inr (at, on) ↦ rw on (refl, tt)
  ]

  keyed-HasKey : (q : Sources) → All HasKey (keyed_offers q)
  keyed-HasKey q =
      All-HasKey-append _ _
        (All-HasKey-append _ _ (detection-HasKey q.detection)
          (game-HasKey (reverse q.recent_events)))
        (recommendation-HasKey (reverse q.history))

  collect_all-offers :
      (q : Sources) (now : Text) (s : AnalyticsService)
      → collect_all x q now s ≡ offer_all x.uuid (keyed_offers q) (collect_runtime x q.status now s)
  unfolding collect_all collect_detection collect_game_states collect_recommendations
  collect_all-offers q now s =
      let r = collect_runtime x q.status now s in
      let a = detection_offers x.iso x.show_float q.detection in
      let b = map game_offer (reverse q.recent_events) in
      let c = map recommendation_offer (reverse q.history) in
      ap (offer_all x.uuid c) (offers-append x.uuid a b r) ∙ offers-append x.uuid (a ++ b) c r

  runtime-HasRoom :
      (status : Snapshot) (now : Text) (n : ℕ) (s : AnalyticsService)
      → HasRoom (suc n) s.store
      → HasRoom n (collect_runtime x status now s).store
  unfolding collect_runtime offer
  runtime-HasRoom status now n s h =
      let r = runtime_offer (relevant status) now in
      ground (arith, add-HasRoom (event_of r (x.uuid s.created)) r.key n s.store h)

  runtime-IsKeyed :
      (status : Snapshot) (now : Text) (s : AnalyticsService)
      → IsKeyed s.store
      → IsKeyed (collect_runtime x status now s).store
  unfolding collect_runtime offer
  runtime-IsKeyed status now s h =
      let r = runtime_offer (relevant status) now in
      let k = add-IsKeyed (event_of r (x.uuid s.created)) r.key s.store h in
      elim (Bool-cases
        (is_known_fingerprint (x.dumps (relevant status)) s.last_runtime_fingerprint)) [
          | inl known ↦ rw known h
          | inr new ↦ rw new k
        ]

  runtime_known :
      (status : Snapshot) (now : Text) (s : AnalyticsService)
      → s.last_runtime_fingerprint ≡ some (x.dumps (relevant status))
      → collect_runtime x status now s ≡ s
  unfolding collect_runtime
  runtime_known status now s h = rw (h, text_eq_refl) refl

  runtime_fingerprint :
      (status : Snapshot) (now : Text) (s : AnalyticsService)
      → (collect_runtime x status now s).last_runtime_fingerprint ≡ some (x.dumps (relevant status))
  unfolding collect_runtime offer
  runtime_fingerprint status now s =
      let f = x.dumps (relevant status) in
      elim (Option-cases s.last_runtime_fingerprint) [
        | inl new ↦ ground arith
        | inr (g, seen) ↦ ground (arith, text_eq_sound f g)
      ]

  offers-IsKeyed :
      (os : List Offer) (s : AnalyticsService)
      → IsKeyed s.store
      → IsKeyed (offer_all x.uuid os s).store
  unfolding offer_all offer
  offers-IsKeyed [] s h = h
  offers-IsKeyed (o ∷ os) s h =
      offers-IsKeyed os (offer x.uuid o s)
        (add-IsKeyed (event_of o (x.uuid s.created)) o.key s.store h)

  All-is_stored :
      (os : List Offer) (s : AnalyticsStore)
      → IsKeyed s
      → All (λ o. is_held o.key s ≡ true) os
      → All (λ o. is_stored o.key s ≡ true) os
  All-is_stored [] s k h = tt
  All-is_stored (o ∷ os) s k (h, hs) =
      (sym (is_stored-is_held o.key s k) ∙ h, All-is_stored os s k hs)

  -- If the store has room for all that can be offered, then after a collection every detection, game
  -- event and recommendation that the services hold is stored under its key, and a second collection
  -- from the same sources, at whatever time, leaves the store unchanged.
  pub collect_twice :
      (q : Sources) (now later : Text) (s : AnalyticsService)
      → IsKeyed s.store
      → length s.store.events + suc (length (keyed_offers q)) ≤ s.store.max_events
      → let t = collect_all x q now s in
        All (λ o. is_stored o.key t.store ≡ true) (keyed_offers q)
        × ((collect_all x q later t).store ≡ t.store)
  collect_twice q now later s k h =
      let os = keyed_offers q in
      let r = collect_runtime x q.status now s in
      let u = offer_all x.uuid os r in
      let same = collect_all-offers q now s in
      let keys = keyed-HasKey q in
      let held = offers_hold x.uuid os r (runtime-HasRoom q.status now (length os) s h) keys in
      let kept =
        runtime_known q.status later u
          (offers_fingerprint x.uuid os r ∙ runtime_fingerprint q.status now s) in
      let again : (collect_all x q later u).store ≡ u.store =
        ap (λ (v : AnalyticsService). v.store)
          (collect_all-offers q later u ∙ ap (offer_all x.uuid os) kept)
        ∙ offers_known x.uuid os u keys held in
      let stored =
        All-is_stored os u.store (offers-IsKeyed os r (runtime-IsKeyed q.status now s k)) held in
      subst
        (λ (t : AnalyticsService).
          All (λ o. is_stored o.key t.store ≡ true) os
          × ((collect_all x q later t).store ≡ t.store))
        (sym same) (stored, again)
