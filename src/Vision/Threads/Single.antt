-- ===== src/Vision/Threads/Single.antt =====
-- vision/detection_service.py and vision/camera_manager.py: the threads that are alive.
use progress_claw_machine.Shared.{
  ℕ, ◌+◌, ◌==◌, ◌≡◌, ◌⊎◌, refl, ap, ◌∙◌, inl, inr, true, false, not, Bool-cases, keep, some,
  is_some, [], ◌∷◌, arith,
}
use progress_claw_machine.Vision.Threads.{
  Threaded, is_alive, start, stop_thread, end_thread, Reach, new_service, started, stopping, ended,
}

-- The threads that are alive are none, or the service's own alone; while the stop flag is clear, a
-- service that has a thread, which the first start gives it, has it alive.
pub record IsSingle (t : Threaded) : Type 0 where
  pub alone : (t.running ≡ []) ⊎ ((i : ℕ) × (t.thread ≡ some i) × (t.running ≡ i ∷ []))
  pub going : t.stop_event ≡ false → is_alive t ≡ is_some t.thread

is_alive_own : (t : Threaded) (i : ℕ) → t.thread ≡ some i → t.running ≡ i ∷ [] → is_alive t ≡ true
unfolding is_alive
is_alive_own t i own only = rw (own, only) (ground arith)

is_alive_none : (t : Threaded) → t.running ≡ [] → is_alive t ≡ false
unfolding is_alive
is_alive_none t e = rw e (ground arith)

none_left : (t : Threaded) → is_alive t ≡ false → IsSingle t → t.running ≡ []
none_left t gone h = elim h.alone [
  | inl empty ↦ empty
  | inr (i, own, only) ↦ ground (arith, is_alive_own t i own only)
]

start-IsSingle : (t : Threaded) → IsSingle t → IsSingle (start t)
unfolding start
start-IsSingle t h = elim (Bool-cases (is_alive t)) [
  | inl lives ↦ rw lives h
  | inr gone ↦
      let only = ap (λ js. t.created ∷ js) (none_left t gone h) in
      let fresh : Threaded = record {
        stop_event = false;
        thread = some t.created;
        running = t.created ∷ t.running;
        created = t.created + 1;
      } in
      rw gone (record {
        alone = inr (t.created, refl, only);
        going = λ _. is_alive_own fresh t.created refl only;
      })
]

end_thread-IsSingle :
    (i : ℕ) (t : Threaded) → t.stop_event ≡ true → IsSingle t → IsSingle (end_thread i t)
unfolding end_thread
end_thread-IsSingle i t e h = elim h.alone [
  | inl empty ↦ record {
    alone = inl (ap (keep (λ j. not (i == j))) empty);
    going = λ f. ground (arith, e);
  }
  | inr (j, own, only) ↦ elim (Bool-cases (i == j)) [
    | inl same ↦ record {
      alone = inl (ap (keep (λ j. not (i == j))) only ∙ rw (same, keep) refl);
      going = λ f. ground (arith, e);
    }
    | inr other ↦ record {
      alone = inr (j, own, ap (keep (λ j. not (i == j))) only ∙ rw (other, keep) refl);
      going = λ f. ground (arith, e);
    }
  ]
]

stop_thread-IsSingle : (t : Threaded) → IsSingle t → IsSingle (stop_thread t)
unfolding is_alive stop_thread
stop_thread-IsSingle t h = record { alone = h.alone; going = λ f. ground (arith, f) }

Reach-IsSingle : {t : Threaded} → Reach t → IsSingle t
Reach-IsSingle new_service = record { alone = inl refl; going = λ f. unfold is_alive in refl }
Reach-IsSingle (started {t} r) = start-IsSingle t (Reach-IsSingle r)
Reach-IsSingle (stopping {t} r) = stop_thread-IsSingle t (Reach-IsSingle r)
Reach-IsSingle (ended {t} i r e) = end_thread-IsSingle i t e (Reach-IsSingle r)

-- However a service is started and stopped, and whenever its threads end: at most one thread is
-- alive, the service's own; while the stop flag is clear, the thread of a service that has one is alive;
-- and a start right after a stop leaves the flag set, so that the service still ends, exactly if the
-- thread has not ended yet.
pub IsSingle-start :
    {t : Threaded} → Reach t → IsSingle t × ((start (stop_thread t)).stop_event ≡ is_alive t)
unfolding start stop_thread is_alive
IsSingle-start {t} r = (Reach-IsSingle r, ground arith)
