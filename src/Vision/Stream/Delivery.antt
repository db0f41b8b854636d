-- ===== src/Vision/Stream/Delivery.antt =====
-- vision/stream_service.py: the frames that a client of the stream is sent.
use progress_claw_machine.Shared.{
  ℕ, ◌+◌, ◌≤◌, ◌≡◌, refl, ap, inl, inr, ℤ, Option, none, some, Option-cases, List, [], ◌∷◌, ◌++◌,
  map, arith,
}
use progress_claw_machine.Vision.Frames.{
  Frame, FrameQueue, Call, put_frame, clear_frame, put, clear_frames, run, wait_result, IsNumbered,
  IsNumbered-run,
}
use progress_claw_machine.Vision.Inference.Order.{next_of, Rising, run_grows, wait_newer}
use progress_claw_machine.Vision.Stream.{mjpeg_frames}

-- No frame that was sent is newer than the counter.
abbrev pub IsBehind : Option ℕ → FrameQueue → Type 0
IsBehind last q = IsNumbered q × (next_of last ≤ q.sequence + 1)

-- The numbers of the frames that are sent grow strictly.
Rising-mjpeg_frames :
    (rounds : List (List Call)) (last : Option ℕ) (q : FrameQueue)
    → IsBehind last q
    → Rising (next_of last) (map (λ (f : Frame). f.sequence) (mjpeg_frames rounds last q))
unfolding mjpeg_frames
Rising-mjpeg_frames [] last q h = tt
Rising-mjpeg_frames (calls ∷ rounds) last q (n, le) =
    let t = run calls q in
    let n' = IsNumbered-run calls q n in
    let up = run_grows calls q in
    elim (Option-cases (wait_result last t)) [
      | inl timed_out ↦
          rw (timed_out, mjpeg_frames) (Rising-mjpeg_frames rounds last t (n', omega arith))
      | inr (f, came) ↦
          let (hi, newer) = wait_newer last t f n' (omega arith) came in
          rw (came, mjpeg_frames)
            (newer, Rising-mjpeg_frames rounds (some f.sequence) t (n', omega arith))
    ]

-- The newest frame of a round that ends with a new frame.
pub record Arrival : Type 0 where
  pub before : List Call
  pub bytes : List ℕ
  pub timestamp : ℤ

abbrev pub calls_of : Arrival → List Call
calls_of a = a.before ++ put_frame a.bytes a.timestamp ∷ []

run-append : (cs ds : List Call) (q : FrameQueue) → run (cs ++ ds) q ≡ run ds (run cs q)
unfolding run
run-append [] ds q = refl
run-append (put_frame bytes t ∷ cs) ds q = run-append cs ds (put bytes t q).1
run-append (clear_frame ∷ cs) ds q = run-append cs ds (clear_frames q)

-- A new frame ends the wait of a client that has been sent no newer one.
wait_result-put :
    (last : Option ℕ) (bytes : List ℕ) (timestamp : ℤ) (q : FrameQueue)
    → next_of last ≤ q.sequence + 1
    → wait_result last (run (put_frame bytes timestamp ∷ []) q) ≡ some (put bytes timestamp q).0
unfolding wait_result put run
wait_result-put none bytes timestamp q le = refl
wait_result-put (some n) bytes timestamp q le = ground arith

arrived_lem :
    (a : Arrival) (last : Option ℕ) (q : FrameQueue)
    → IsBehind last q
    → let t = run a.before q in
      (wait_result last (run (calls_of a) q) ≡ some (put a.bytes a.timestamp t).0)
      × IsBehind (some (t.sequence + 1)) (run (calls_of a) q)
arrived_lem a last q (n, le) =
    let t = run a.before q in
    let up = run_grows a.before q in
    rw (run-append a.before (put_frame a.bytes a.timestamp ∷ []) q) (
      wait_result-put last a.bytes a.timestamp t (omega arith),
      unfold put run IsNumbered in (refl, omega arith),
    )

mjpeg_frames-arrivals :
    (arrivals : List Arrival) (last : Option ℕ) (q : FrameQueue)
    → IsBehind last q
    → map (λ (f : Frame). f.bytes) (mjpeg_frames (map calls_of arrivals) last q)
      ≡ map (λ (a : Arrival). a.bytes) arrivals
unfolding mjpeg_frames put run
mjpeg_frames-arrivals [] last q h = refl
mjpeg_frames-arrivals (a ∷ arrivals) last q h =
    let t = run a.before q in
    let (came, behind) = arrived_lem a last q h in
    rw (came, mjpeg_frames)
      (ap (λ rest. a.bytes ∷ rest)
        (mjpeg_frames-arrivals arrivals (some (t.sequence + 1)) _ behind))

-- In each round that ends with a new frame, a client is sent that frame, and no other frame: over such
-- rounds, from a queue whose stored frame has the counter's number and a client that has been sent no
-- newer frame, the images are the last ones of the rounds, in order, and over any rounds at all the
-- numbers of the frames that are sent grow strictly, so none is sent twice.
pub mjpeg_frames_delivered :
    (arrivals : List Arrival) (rounds : List (List Call)) (last : Option ℕ) (q : FrameQueue)
    → IsBehind last q
    → (map (λ (f : Frame). f.bytes) (mjpeg_frames (map calls_of arrivals) last q)
        ≡ map (λ (a : Arrival). a.bytes) arrivals)
      × Rising (next_of last) (map (λ (f : Frame). f.sequence) (mjpeg_frames rounds last q))
mjpeg_frames_delivered arrivals rounds last q h =
    (mjpeg_frames-arrivals arrivals last q h, Rising-mjpeg_frames rounds last q h)
