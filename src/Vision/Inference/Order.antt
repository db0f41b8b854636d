-- ===== src/Vision/Inference/Order.antt =====
-- The detector never sees a frame twice.
use progress_claw_machine.Shared.{if◌then◌else◌}
use progress_claw_machine.Shared.{
  ℕ, ◌+◌, ◌≤◌, ◌≡◌, inl, inr, ℤ, Bool, true, false, Option, none, some, Option-cases, List, [], ◌∷◌,
  arith,
}
use progress_claw_machine.Vision.Frames
use progress_claw_machine.Vision.Frames.{
  Frame, FrameQueue, Call, put_frame, clear_frame, put, clear_frames, wait_result, IsNumbered,
  IsNumbered-run,
}
use progress_claw_machine.Vision.Inference.{
  Worker, Round, latest_or, infer_frame, infer, note, infer_all,
}

-- The counter only grows.
pub run_grows : (calls : List Call) (q : FrameQueue) → q.sequence ≤ (Frames.run calls q).sequence
unfolding Frames.run put clear_frames
run_grows [] q = omega arith
run_grows (put_frame bytes t ∷ calls) q = omega (arith, run_grows calls (put bytes t q).1)
run_grows (clear_frame ∷ calls) q = omega (arith, run_grows calls (clear_frames q))

-- The first number that is newer than the last frame that was taken.
abbrev pub next_of : Option ℕ → ℕ
next_of none = 0
next_of (some n) = n + 1

-- The stored frame has the counter's number, and the last frame that was taken is not newer.
pub record IsOrdered (w : Worker) : Type 0 where
  pub numbered : IsNumbered w.queue
  pub behind : next_of w.last_sequence ≤ w.queue.sequence + 1

-- The numbers grow strictly, from `n` on.
abbrev pub Rising : ℕ → List ℕ → Type 0
Rising n [] = Unit {0}
Rising n (i ∷ is) = (n ≤ i) × Rising (i + 1) is

pub Rising-later : (n m : ℕ) (is : List ℕ) → n ≤ m → Rising m is → Rising n is
Rising-later n m [] h r = tt
Rising-later n m (i ∷ is) h (le, r) = (omega arith, r)

latest_bounds :
    (q : FrameQueue) (f : Frame)
    → IsNumbered q
    → f.sequence ≤ q.sequence
    → (f.sequence ≤ (latest_or q f).sequence) × ((latest_or q f).sequence ≤ q.sequence)
unfolding IsNumbered
latest_bounds q f h hi = ground arith

-- A frame that was taken is not older than `n`, and is the last one.
abbrev IsFresh : ℕ → Option ℕ → Worker → Type 0
IsFresh n none w = n ≤ next_of w.last_sequence
IsFresh n (some i) w = (n ≤ i) × (next_of w.last_sequence ≡ i + 1)

infer_frame_bounds :
    (interval : ℤ) (r : Round) (f : Frame) (w : Worker)
    → IsNumbered w.queue
    → f.sequence ≤ w.queue.sequence
    → let (id, t) = infer_frame interval r f w in IsOrdered t × IsFresh f.sequence id t
unfolding infer_frame
infer_frame_bounds interval r f w h hi =
    let q1 = Frames.run r.after_wait w.queue in
    let f1 = latest_or q1 f in
    let q2 = Frames.run r.while_pausing q1 in
    let up1 = run_grows r.after_wait w.queue in
    let up2 = run_grows r.while_pausing q1 in
    let n1 = IsNumbered-run r.after_wait w.queue h in
    let n2 = IsNumbered-run r.while_pausing q1 n1 in
    let (lo1, hi1) = latest_bounds q1 f n1 (omega arith) in
    let (lo2, hi2) = latest_bounds q2 f1 n2 (omega arith) in ground arith

pub wait_newer :
    (last : Option ℕ) (q : FrameQueue) (f : Frame)
    → IsNumbered q
    → next_of last ≤ q.sequence + 1
    → wait_result last q ≡ some f
    → (f.sequence ≤ q.sequence) × (next_of last ≤ f.sequence)
unfolding wait_result IsNumbered
wait_newer last q f h le e = ground arith

infer_bounds :
    (interval : ℤ) (r : Round) (w : Worker)
    → IsOrdered w
    → let (id, t) = infer interval r w in IsOrdered t × IsFresh (next_of w.last_sequence) id t
unfolding infer
infer_bounds interval r w h =
    let q = Frames.run r.before_wait_ends w.queue in
    let up = run_grows r.before_wait_ends w.queue in
    let n = IsNumbered-run r.before_wait_ends w.queue h.numbered in
    let behind = h.behind in
    elim (Option-cases (wait_result w.last_sequence q)) [
      | inl timed_out ↦
          rw (timed_out, infer) (record { numbered = n; behind = omega arith }, omega arith)
      | inr (f, came) ↦
          let (hi, newer) = wait_newer w.last_sequence q f n (omega arith) came in
          let k = infer_frame_bounds interval r f (record w { queue = q }) n hi in
          rw (came, infer) (ground arith)
    ]

Rising-note :
    (n : ℕ) (id : Option ℕ) (t : Worker) (is : List ℕ)
    → IsFresh n id t
    → Rising (next_of t.last_sequence) is
    → Rising n (note id is)
Rising-note n none t is fresh later = Rising-later n (next_of t.last_sequence) is fresh later
Rising-note n (some i) t is (le, same) later =
    (le, Rising-later (i + 1) (next_of t.last_sequence) is (omega arith) later)

Rising-ended :
    (stopped : Bool) (n : ℕ) (is : List ℕ) → Rising n is → Rising n (if stopped then [] else is)
Rising-ended true n is h = tt
Rising-ended false n is h = h

-- However the producer's calls fall between the steps of the rounds, and whatever the detector does,
-- the frames on which it is called have strictly growing numbers: no frame twice, and none older
-- than one before.
pub Rising-infer_all :
    (interval : ℤ) (rs : List Round) (w : Worker)
    → IsOrdered w
    → Rising (next_of w.last_sequence) (infer_all interval rs w)
unfolding infer_all
Rising-infer_all interval [] w h = tt
Rising-infer_all interval (r ∷ rs) w h =
    let (id, t) = infer interval r w in
    let (ordered, fresh) = infer_bounds interval r w h in
    let later = Rising-infer_all interval rs t ordered in
    Rising-note (next_of w.last_sequence) id t _ fresh
      (Rising-ended r.stopped (next_of t.last_sequence) (infer_all interval rs t) later)
