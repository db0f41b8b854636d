-- ===== src/Vision/Inference.antt =====
-- vision/detection_service.py: the inference thread. One round of its loop, over what the producer does
-- meanwhile, the readings of the monotonic clock, and what the detector gives, or none if it raises.
pub mod Order
use progress_claw_machine.Shared.{
  ℕ, ℤ, ◌-ℤ◌, ltb_ℤ, Bool, true, false, ◌&&◌, Option, none, some, List, [], ◌∷◌, if◌then◌else◌,
}
use progress_claw_machine.Vision.Frames
use progress_claw_machine.Vision.Frames.{Frame, FrameQueue, Call, wait_result}
use progress_claw_machine.Vision.Detections
use progress_claw_machine.Vision.Detections.{DetectedObject, DetectionCache}

-- The queue, the variables of `_run`, and the cache.
pub record Worker : Type 0 where
  pub queue : FrameQueue
  pub last_sequence : Option ℕ
  pub last_inference_at : ℤ
  pub cache : DetectionCache

-- `stopped` tells whether the flag was set by the end of the pause.
pub record Round : Type 0 where
  pub before_wait_ends : List Call
  pub after_wait : List Call
  pub while_pausing : List Call
  pub started_at : ℤ
  pub stopped : Bool
  pub objects : Option (List DetectedObject)
  pub now : ℤ
  pub ended_at : ℤ

-- `self.frame_queue.latest() or frame`
abbrev pub latest_or : FrameQueue → Frame → Frame
latest_or q f = elim q.latest [ none ↦ f | some g ↦ g ]

abbrev pub too_soon : ℤ → Round → Worker → Bool
too_soon interval r w = ltb_ℤ (r.started_at -ℤ w.last_inference_at) interval

-- The detector and the cache. An error is logged, and the loop goes on.
abbrev pub detect : Round → Frame → Worker → Option ℕ × Worker
detect r f w =
    let t : Worker = record w { last_sequence = some f.sequence; last_inference_at = r.ended_at } in
    (
      some f.sequence,
      elim r.objects [
        | none ↦ t
        | some objects ↦ record t { cache = (Detections.update r.now f.sequence objects w.cache).1 }
      ],
    )

-- The part of a round after a frame has come: `w` has the queue as it was then.
unfoldable pub infer_frame : ℤ → Round → Frame → Worker → Option ℕ × Worker
infer_frame interval r frame w =
    let q1 = Frames.run r.after_wait w.queue in
    let f1 = latest_or q1 frame in
    let q2 = Frames.run r.while_pausing q1 in
    if too_soon interval r w
    then (if r.stopped
        then (none, record w { queue = q2; last_sequence = some f1.sequence })
        else detect r (latest_or q2 f1) (record w { queue = q2 }))
    else detect r f1 (record w { queue = q1 })

-- A round: the frame on which the detector was called, if any, and what the round leaves.
unfoldable pub infer : ℤ → Round → Worker → Option ℕ × Worker
infer interval r w =
    let q = Frames.run r.before_wait_ends w.queue in
    elim (wait_result w.last_sequence q) [
      | none ↦ (none, record w { queue = q })
      | some frame ↦ infer_frame interval r frame (record w { queue = q })
    ]

abbrev pub note : Option ℕ → List ℕ → List ℕ
note none ids = ids
note (some i) ids = i ∷ ids

-- The frames of a row of rounds, the first one first; the loop ends after a round in which the flag
-- was set.
unfoldable pub infer_all : ℤ → List Round → Worker → List ℕ
infer_all interval [] w = []
infer_all interval (r ∷ rs) w =
    let (id, t) = infer interval r w in
    let rest = infer_all interval rs t in note id (if r.stopped then [] else rest)
