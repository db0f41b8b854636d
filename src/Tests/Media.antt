-- ===== src/Tests/Media.antt =====
-- The theorems about camera bytes, the capture thread and the detection service at concrete inputs.
use progress_claw_machine.Shared.{
  ℕ, ◌-ℤ◌, ◌≡◌, ◌≤◌, refl, pos, codes, false, none, some, List, [], ◌∷◌, length, arith,
}
use progress_claw_machine.Dashboard.Camera.{feed_all, extract, cut, feed, find}
use progress_claw_machine.Dashboard.Camera.Chunks.{bytes_of, feed_all-extract, extract_ends}
use progress_claw_machine.Vision.Frames.{new_queue, put_frame, IsNumbered, wait_result, run}
use progress_claw_machine.Vision.Detections.{new_cache}
use progress_claw_machine.Vision.Inference.{Worker, Round, infer_all, infer, infer_frame}
use progress_claw_machine.Vision.Inference.Order.{IsOrdered, Rising, Rising-infer_all}
use progress_claw_machine.Vision.Capture.{
  new_manager, Reading, frame_read, read_failed, opens, run_round, open_capture, read_loop,
  disconnected,
}
use progress_claw_machine.Vision.Capture.Health.{frames_read, run_round_health}

-- One frame in three chunks, whose markers are cut in two, among other bytes.
abbrev chunks : List (List ℕ)
chunks = (1 ∷ 255 ∷ []) ∷ (216 ∷ 7 ∷ 255 ∷ []) ∷ (217 ∷ 9 ∷ []) ∷ []

feed_all-extract_example :
    (feed_all chunks [] ≡ extract 8 (1 ∷ 255 ∷ 216 ∷ 7 ∷ 255 ∷ 217 ∷ 9 ∷ []))
    × (cut (feed_all chunks []).1 ≡ none)
unfolding bytes_of
feed_all-extract_example = feed_all-extract chunks (omega arith)

-- What comes out of them.
one_frame : feed_all chunks [] ≡ ((255 ∷ 216 ∷ 7 ∷ 255 ∷ 217 ∷ []) ∷ [], 9 ∷ [])
unfolding feed_all feed extract cut find
one_frame = refl

extract_ends_example :
    let s : List ℕ = 255 ∷ 216 ∷ 7 ∷ 255 ∷ 217 ∷ 9 ∷ [] in
    (cut (extract 7 s).1 ≡ none) × (length (extract 7 s).1 ≤ length s)
extract_ends_example = extract_ends 7 (255 ∷ 216 ∷ 7 ∷ 255 ∷ 217 ∷ 9 ∷ []) (omega arith)

abbrev worker : Worker
worker = record {
  queue = new_queue;
  last_sequence = none;
  last_inference_at = pos 0;
  cache = new_cache;
}

worker-IsOrdered : IsOrdered worker
unfolding IsNumbered
worker-IsOrdered = record { numbered = tt; behind = omega arith }

-- A round in which frames come before and during the pause.
abbrev busy_round : Round
busy_round = record {
  before_wait_ends = put_frame [] (pos 1) ∷ [];
  after_wait = [];
  while_pausing = put_frame [] (pos 2) ∷ put_frame [] (pos 3) ∷ [];
  started_at = pos 10;
  stopped = false;
  objects = none;
  now = pos 20;
  ended_at = pos 30;
}

two_rounds : infer_all (pos 100) (busy_round ∷ busy_round ∷ []) worker ≡ 3 ∷ 6 ∷ []
unfolding infer_all infer wait_result run infer_frame ◌-ℤ◌
two_rounds = refl

Rising-infer_all_example : Rising 0 (infer_all (pos 100) (busy_round ∷ busy_round ∷ []) worker)
Rising-infer_all_example =
    Rising-infer_all (pos 100) (busy_round ∷ busy_round ∷ []) worker worker-IsOrdered

abbrev readings : List Reading
readings = frame_read (1 ∷ []) (pos 5) 1000 ∷ read_failed ∷ []

run_round_health_example :
    let t = (run_round opens readings (new_manager new_queue)).1 in
    ((t.status ≡ disconnected)
      × (t.fps ≡ 0)
      × (t.last_error ≡ some (codes "Camera read failed"))
      × (t.has_capture ≡ false)
      × (t.releases ≡ 1))
    × (t.frame_queue.sequence ≡ 1)
unfolding run_round open_capture read_loop frames_read
run_round_health_example = run_round_health opens readings (new_manager new_queue)
