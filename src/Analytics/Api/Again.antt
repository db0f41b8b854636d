-- ===== src/Analytics/Api/Again.antt =====
-- analytics/api.py: a request that is made again.
use progress_claw_machine.Shared.{suc, ◌+◌, ◌≤◌, ◌≡◌, ap, ℤ, Text, Option, length}
use progress_claw_machine.Analytics.Store.Refusals.{IsKeyed}
use progress_claw_machine.Analytics.Service.{AnalyticsService, Outside, Sources}
use progress_claw_machine.Analytics.Service.Twice.{keyed_offers, collect_twice}
use progress_claw_machine.Analytics.Summary.{summary}
use progress_claw_machine.Analytics.Api.{Arguments, answer, events_route, summary_route}

module _ (x : Outside) (read_float parse : Text → Option ℤ) where
  -- If the store has room for all that can be offered, a request for events that is made again, at
  -- whatever time, from the same sources, is answered alike, an error included, and leaves the store
  -- as the first one left it; and the summary after it is that of the store.
  events_route_again :
      (a : Arguments) (q : Sources) (now later : Text) (s : AnalyticsService)
      → IsKeyed s.store
      → length s.store.events + suc (length (keyed_offers x q)) ≤ s.store.max_events
      → let (r, t) = events_route x read_float parse a q now s in
        ((events_route x read_float parse a q later t).0 ≡ r)
        × ((events_route x read_float parse a q later t).1.store ≡ t.store)
        × ((summary_route x q later t).0 ≡ summary t.store)
  unfolding events_route summary_route
  events_route_again a q now later s k h =
      let (_, same) = collect_twice x q now later s k h in
      (ap (answer x read_float parse a) same, same, ap summary same)
