-- ===== src/Tests/Analytics.antt =====
-- The theorem of analytics/store.py at a concrete history.
use progress_claw_machine.Shared.{
  text_eq, ◌≡◌, ◌≤◌, refl, Text, codes, true, false, not, Option, none, some, List, [], ◌∷◌, length,
  All, false, pos, arith,
}
use progress_claw_machine.Shared.Deque.{append_left}
use progress_claw_machine.Analytics.Details.{of_vision}
use progress_claw_machine.Analytics.Store.{
  holds, AnalyticsEvent, AnalyticsStore, vision, new_store, add,
}
use progress_claw_machine.Analytics.Store.Keys.{has_key, IsDistinct}
use progress_claw_machine.Analytics.Store.Refusals.{
  add_all, refused_iff, IsKeyed, new_store-IsKeyed,
}
use progress_claw_machine.Controller.Machine.{default_state}
use progress_claw_machine.Analytics.Service.{AnalyticsService, Outside, Sources, collect_all}
use progress_claw_machine.Analytics.Service.Offers.{is_stored}
use progress_claw_machine.Analytics.Service.Twice.{keyed_offers, collect_twice}
use progress_claw_machine.Analytics.Summary.{summary, tally_of, count_all, count_one, sort, insert}
use progress_claw_machine.Analytics.Summary.Counts.{IsTallyOf, whole, summary-IsTallyOf}

abbrev seen : AnalyticsEvent
seen = record {
  category = vision;
  event_type = codes "detection_result";
  source = codes "VisionService";
  timestamp = codes "2026";
  confidence = none;
  session_id = none;
  details = of_vision none [];
  event_id = codes "1";
}

-- Two events in a store for one: the first has been dropped.
abbrev offers : List (AnalyticsEvent × Option Text)
offers = (seen, some (codes "a")) ∷ (seen, some (codes "b")) ∷ []

abbrev empty : AnalyticsStore
empty = record { events = []; event_dedupe_keys = []; dedupe_keys = []; max_events = 1 }

refused_iff_example :
    let s = add_all offers empty in
    ((add seen (some (codes "b")) s).0 ≡ not (has_key (codes "b") s.event_dedupe_keys))
    × IsDistinct s.event_dedupe_keys
    × (length s.event_dedupe_keys ≡ length s.events)
    × (length s.events ≤ 1)
unfolding new_store add_all add holds text_eq
refused_iff_example = refused_iff 1 empty offers seen b'b' [] refl

newest_refused : (add seen (some (codes "b")) (add_all offers empty)).0 ≡ false
unfolding add holds add_all text_eq
newest_refused = refl

oldest_stored : (add seen (some (codes "a")) (add_all offers empty)).0 ≡ true
unfolding add holds add_all text_eq append_left
oldest_stored = refl

-- The service with room for two events, over a controller that has just started and a detection.
abbrev roomy : AnalyticsService
roomy = record {
  store = record { events = []; event_dedupe_keys = []; dedupe_keys = []; max_events = 2 };
  last_runtime_fingerprint = none;
  created = 0;
}

roomy-IsKeyed : IsKeyed roomy.store
unfolding new_store
roomy-IsKeyed = new_store-IsKeyed 2 roomy.store refl

abbrev outside : Outside
outside = record {
  dumps = λ r. codes "{}";
  uuid = λ n. codes "id";
  iso = λ at. codes "2026";
  show_float = λ at. codes "1.0";
}

abbrev sources : Sources
sources = record {
  status = record {
    state = default_state;
    running = false;
    ok = none;
    arduino_response = none;
    power_response = none;
  };
  detection = record { timestamp = some (pos 1000); frame_id = some 7; objects = [] };
  recent_events = [];
  history = [];
}

collect_twice_example :
    let t = collect_all outside sources (codes "now") roomy in
    All (λ o. is_stored o.key t.store ≡ true) (keyed_offers outside sources)
    × ((collect_all outside sources (codes "later") t).store ≡ t.store)
collect_twice_example =
    collect_twice outside sources (codes "now") (codes "later") roomy roomy-IsKeyed (omega arith)

-- One category in the store, twice.
abbrev doubled : AnalyticsStore
doubled = record {
  events = seen ∷ seen ∷ [];
  event_dedupe_keys = none ∷ none ∷ [];
  dedupe_keys = [];
  max_events = 2;
}

counted_twice : (summary doubled).by_category ≡ (codes "vision", 2) ∷ []
unfolding summary tally_of count_all count_one sort insert text_eq
counted_twice = refl

summary-IsTallyOf_example :
    let r = summary doubled in
    IsTallyOf (codes "vision" ∷ codes "vision" ∷ []) r.by_category
    × IsTallyOf (codes "detection_result" ∷ codes "detection_result" ∷ []) r.by_event_type
    × (whole r.by_category ≡ r.total_events)
    × (whole r.by_event_type ≡ r.total_events)
summary-IsTallyOf_example = summary-IsTallyOf doubled
