-- ===== src/Analytics/Store/Dedupe.antt =====
-- What `add` keeps of the store, and when it refuses an event.
use progress_claw_machine.Shared.{
  ℕ, ◌≤◌, ◌≡◌, Text, text_eq_refl, false, Option, some, ◌∷◌, length, arith,
}
use progress_claw_machine.Shared.Deque.{length-append_left}
use progress_claw_machine.Analytics.Store.{AnalyticsEvent, AnalyticsStore, holds, add}

-- The events are within the bound.
pub IsSized : AnalyticsStore → Type 0
IsSized s = length s.events ≤ s.max_events

-- Adding an event, with any key, keeps the number of events within the bound.
pub add-IsSized :
    (event : AnalyticsEvent) (key : Option Text) (s : AnalyticsStore)
    → IsSized s
    → IsSized (add event key s).1
unfolding add IsSized
add-IsSized event key s h = ground (arith, length-append_left s.max_events event s.events)

-- Once an event with a key that is not empty has been offered, stored or refused, another event with
-- that key is refused, and leaves the store unchanged.
pub add_twice :
    (first second : AnalyticsEvent) (c : ℕ) (k : Text) (s : AnalyticsStore)
    → let t = (add first (some (c ∷ k)) s).1 in add second (some (c ∷ k)) t ≡ (false, t)
unfolding add holds
add_twice first second c k s = ground (arith, text_eq_refl (c ∷ k))
