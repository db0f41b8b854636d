-- ===== src/Vision/Threads.antt =====
-- `start` and `stop` of vision/camera_manager.py and of vision/detection_service.py: the thread behind
-- each service and the flag that ends it. Threads go by numbers; `running` has those that are alive. The
-- loop of a thread ends only when it meets the flag set, and the join of `stop` may time out before.
pub mod Single
use progress_claw_machine.Shared.{
  ℕ, ◌+◌, ◌==◌, ◌≡◌, Bool, true, false, not, any, keep, Option, none, some, List, [], ◌∷◌,
  if◌then◌else◌,
}

pub record Threaded : Type 0 where
  pub stop_event : Bool
  pub thread : Option ℕ
  pub running : List ℕ
  pub created : ℕ

abbrev pub new_threaded : Threaded
new_threaded = record { stop_event = false; thread = none; running = []; created = 0 }

abbrev pub is_running : ℕ → Threaded → Bool
is_running i t = any (λ j. i == j) t.running

-- `self._thread and self._thread.is_alive()`
unfoldable pub is_alive : Threaded → Bool
is_alive t = elim t.thread [ none ↦ false | some i ↦ is_running i t ]

unfoldable pub start : Threaded → Threaded
unfolding is_alive
start t = if is_alive t then t else record {
  stop_event = false;
  thread = some t.created;
  running = t.created ∷ t.running;
  created = t.created + 1;
}

-- `stop`, up to its join
unfoldable pub stop_thread : Threaded → Threaded
stop_thread t = record t { stop_event = true }

-- A thread meets the flag and ends.
unfoldable pub end_thread : ℕ → Threaded → Threaded
end_thread i t = record t { running = keep (λ j. not (i == j)) t.running }

-- What may happen to a service, in any order.
pub data Reach : Threaded → Type 0 where
  new_service : Reach new_threaded
  started : {t : Threaded} → Reach t → Reach (start t)
  stopping : {t : Threaded} → Reach t → Reach (stop_thread t)
  ended : {t : Threaded} (i : ℕ) → Reach t → t.stop_event ≡ true → Reach (end_thread i t)
