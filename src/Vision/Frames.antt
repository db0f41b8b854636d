-- ===== src/Vision/Frames.antt =====
-- vision/frame_queue.py: the latest frame, numbered, for waiting consumers.
use progress_claw_machine.Shared.{
  ℕ, ◌+◌, ◌≡◌, refl, ℤ, Bool, false, not, is_some, ◌==◌, Option, none, some, List, [], ◌∷◌,
  if◌then◌else◌, arith,
}

pub record Frame : Type 0 where
  pub bytes : List ℕ
  pub timestamp : ℤ
  pub sequence : ℕ

pub record FrameQueue : Type 0 where
  pub latest : Option Frame
  pub sequence : ℕ

abbrev pub new_queue : FrameQueue
new_queue = record { latest = none; sequence = 0 }

-- `timestamp` is the given one, or the clock's.
unfoldable pub put : List ℕ → ℤ → FrameQueue → Frame × FrameQueue
put bytes timestamp q =
    let frame : Frame = record {
      bytes = bytes;
      timestamp = timestamp;
      sequence = q.sequence + 1;
    } in
    (frame, record { latest = some frame; sequence = q.sequence + 1 })

unfoldable pub clear_frames : FrameQueue → FrameQueue
clear_frames q = record q { latest = none }

abbrev pub seen_already : Option ℕ → Frame → Bool
seen_already none f = false
seen_already (some n) f = f.sequence == n

-- The predicate that `wait_for_next` waits for.
unfoldable pub is_next : Option ℕ → FrameQueue → Bool
is_next last q = elim q.latest [ none ↦ false | some f ↦ not (seen_already last f) ]

-- What `wait_for_next` returns at the end of its wait, by the predicate or by the timeout.
unfoldable pub wait_result : Option ℕ → FrameQueue → Option Frame
wait_result last q = elim q.latest [
  | none ↦ none
  | some f ↦ if seen_already last f then none else some f
]

-- A consumer gets a frame exactly when there is one that it has not seen, so a wait that ends by its
-- predicate gives a frame and one that ends by the timeout gives none.
pub wait_result-is_next :
    (last : Option ℕ) (q : FrameQueue) → is_some (wait_result last q) ≡ is_next last q
unfolding wait_result is_next
wait_result-is_next last q = ground arith

-- The producer's calls.
pub data Call : Type 0 where
  put_frame : List ℕ → ℤ → Call
  clear_frame : Call

unfoldable pub run : List Call → FrameQueue → FrameQueue
unfolding put clear_frames
run [] q = q
run (put_frame bytes t ∷ calls) q = run calls (put bytes t q).1
run (clear_frame ∷ calls) q = run calls (clear_frames q)

-- The stored frame is numbered by the counter.
unfoldable pub IsNumbered : FrameQueue → Type 0
IsNumbered q = elim q.latest [ none ↦ Unit {0} | some f ↦ f.sequence ≡ q.sequence ]

-- After any calls of the producer, from a queue whose stored frame has the counter's number, it still
-- has it.
pub IsNumbered-run : (calls : List Call) (q : FrameQueue) → IsNumbered q → IsNumbered (run calls q)
unfolding run
IsNumbered-run [] q h = h
IsNumbered-run (put_frame bytes t ∷ calls) q h =
    IsNumbered-run calls (put bytes t q).1 (unfold put IsNumbered in refl)
IsNumbered-run (clear_frame ∷ calls) q h =
    IsNumbered-run calls (clear_frames q) (unfold clear_frames IsNumbered in tt)
