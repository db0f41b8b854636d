-- ===== src/Vision/Stream.antt =====
-- vision/stream_service.py and vision/snapshot_service.py: what a client of the camera is sent. A round
-- of the stream's loop is the calls of the producer until its wait ends, by a frame or by the timeout.
pub mod Delivery
use progress_claw_machine.Shared.{ℕ, ℤ, Text, codes, Bool, Option, none, some, List, [], ◌∷◌, ◌++◌}
use progress_claw_machine.Vision.Frames
use progress_claw_machine.Vision.Frames.{Frame, FrameQueue, Call, wait_result}

abbrev line_end : List ℕ
line_end = 13 ∷ 10 ∷ []

-- What is yielded for a frame.
unfoldable pub part : Frame → List ℕ
part frame =
    codes "--frame"
    ++ line_end
    ++ codes "Content-Type: image/jpeg"
    ++ line_end
    ++ codes "Cache-Control: no-cache"
    ++ line_end
    ++ line_end
    ++ frame.bytes
    ++ line_end

-- The frames of `mjpeg_frames`, each of which it yields as its part, over the rounds of its loop.
unfoldable pub mjpeg_frames : List (List Call) → Option ℕ → FrameQueue → List Frame
mjpeg_frames [] last_sequence q = []
mjpeg_frames (calls ∷ rounds) last_sequence q =
    let t = Frames.run calls q in
    elim (wait_result last_sequence t) [
      | none ↦ mjpeg_frames rounds last_sequence t
      | some frame ↦ frame ∷ mjpeg_frames rounds (some frame.sequence) t
    ]

pub data SnapshotBody : Type 0 where
  unavailable : SnapshotBody
  image : List ℕ → SnapshotBody

-- `snapshot`
unfoldable pub snapshot_response : FrameQueue → ℕ × SnapshotBody
snapshot_response q = elim q.latest [
  | none ↦ (503, unavailable)
  | some frame ↦ (200, image frame.bytes)
]
