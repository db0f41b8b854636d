-- ===== src/Vision/Capture.antt =====
-- vision/camera_manager.py: the capture loop. What OpenCV does is a script: what opening gave, and what
-- each reading gave. An encoded frame comes with its times; the frame rate is in units of 0.01.
pub mod Health
use progress_claw_machine.Shared.{
  ℕ, ◌+◌, ◌*◌, ◌/◌, ℤ, pos, leb, Text, codes, Bool, true, false, Option, none, some, List, [], ◌∷◌,
  if◌then◌else◌,
}
use progress_claw_machine.Vision.Frames
use progress_claw_machine.Vision.Frames.{FrameQueue}

pub data CameraStatus : Type 0 where
  connected disconnected : CameraStatus

pub record CameraManager : Type 0 where
  pub frame_queue : FrameQueue
  pub status : CameraStatus
  pub fps : ℕ
  pub last_frame_at : Option ℤ
  pub last_error : Option Text
  pub has_capture : Bool
  pub releases : ℕ
  pub stop_event : Bool

abbrev pub new_manager : FrameQueue → CameraManager
new_manager q = record {
  frame_queue = q;
  status = disconnected;
  fps = 0;
  last_frame_at = none;
  last_error = none;
  has_capture = false;
  releases = 0;
  stop_event = false;
}

-- `_mark_disconnected`
unfoldable pub mark_disconnected : Text → CameraManager → CameraManager
mark_disconnected error m = record m { status = disconnected; fps = 0; last_error = some error }

-- `_release_capture`: the call of `release`, if there is a capture. Its error is only logged, so
-- that a call that raises leaves the same; `releases` counts the calls.
unfoldable pub release_capture : CameraManager → CameraManager
release_capture m =
    if m.has_capture
    then record m { has_capture = false; releases = m.releases + 1 }
    else record m { has_capture = false }

-- What opening a camera comes to.
pub data Opening : Type 0 where
  opens fails_to_open : Opening
  factory_raises : Text → Opening

-- What a turn of the reading loop meets: a stop, a failed read, an error of a call, or a frame with the
-- clock reading, and the milliseconds since the counting window began.
pub data Reading : Type 0 where
  stop_seen read_failed : Reading
  raises : Text → Reading
  frame_read : List ℕ → ℤ → ℕ → Reading

-- `frame_count / elapsed`, for a count and milliseconds
abbrev pub rate : ℕ → ℕ → ℕ
rate count elapsed = count * 100000 / elapsed

-- A frame in the loop, with the count before it: the manager and the count that are left.
unfoldable pub take_frame : List ℕ → ℤ → ℕ → ℕ → CameraManager → CameraManager × ℕ
take_frame bytes at elapsed count m =
    let q = (Frames.put bytes at m.frame_queue).1 in
    let t : CameraManager = record m { frame_queue = q; last_frame_at = some at } in
    if leb 1000 elapsed then (record t { fps = rate (count + 1) elapsed }, 0) else (t, count + 1)

-- `_read_loop`: it ends by the flag, by a failed read, by an error, or not yet.
pub data LoopEnd : Type 0 where
  stopped lost going_on : LoopEnd
  broke : Text → LoopEnd

unfoldable pub read_loop : List Reading → ℕ → CameraManager → LoopEnd × CameraManager
read_loop [] count m = (going_on, m)
read_loop (stop_seen ∷ rs) count m = (stopped, record m { stop_event = true })
read_loop (read_failed ∷ rs) count m = (lost, mark_disconnected (codes "Camera read failed") m)
read_loop (raises e ∷ rs) count m = (broke e, m)
read_loop (frame_read bytes at elapsed ∷ rs) count m =
    let (t, n) = take_frame bytes at elapsed count m in read_loop rs n t

-- `_open_capture`: an error, or the open manager.
unfoldable pub open_capture : Opening → CameraManager → Option Text × CameraManager
open_capture opens m =
    (none, record m { has_capture = true; status = connected; last_error = none })
open_capture fails_to_open m =
    (some (codes "Camera failed to open"), record m { has_capture = true })
open_capture (factory_raises e) m = (some e, m)

-- The `except` and the `finally` of `_run`, after the reading loop.
abbrev pub after_loop : LoopEnd × CameraManager → LoopEnd × CameraManager
after_loop (broke e, m) = (broke e, release_capture (mark_disconnected e m))
after_loop (going_on, m) = (going_on, m)
after_loop (stopped, m) = (stopped, release_capture m)
after_loop (lost, m) = (lost, release_capture m)

-- One round of `_run`, up to its pause.
unfoldable pub run_round : Opening → List Reading → CameraManager → LoopEnd × CameraManager
run_round opening readings m =
    let (error, t) = open_capture opening m in
    elim error [
      | some e ↦ (broke e, release_capture (mark_disconnected e t))
      | none ↦ after_loop (read_loop readings 0 t)
    ]

-- `_run`: rounds until the flag is set; the script says what each meets.
unfoldable pub run_camera : List (Opening × List Reading) → CameraManager → CameraManager
run_camera [] m = m
run_camera ((opening, readings) ∷ rounds) m = elim m.stop_event [
  | true ↦ m
  | false ↦ run_camera rounds (run_round opening readings m).1
]

-- `stop`, when the thread has ended
unfoldable pub stop : CameraManager → CameraManager
stop m = release_capture (record m { stop_event = true })
