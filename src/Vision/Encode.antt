-- ===== src/Vision/Encode.antt =====
-- vision/camera_manager.py: the configuration's view of a frame, its encoding, and the health record.
-- OpenCV is a parameter: a picture can be turned, mirrored and encoded, which may fail.
use progress_claw_machine.Shared.{
  ℕ, ◌-◌, ◌%◌, ◌==◌, ℤ, pos, negsuc, ◌-ℤ◌, Text, codes, Bool, Option, none, some, List, ◌++◌,
  if◌then◌else◌,
}
use progress_claw_machine.Shared.Decimal.{show_ℤ}
use progress_claw_machine.Shared.Action.{Result, ok, err}
use progress_claw_machine.Vision.Capture.{CameraManager, CameraStatus}

pub data Turn : Type 0 where
  clockwise half counterclockwise : Turn

-- What a capture gives: bytes that are encoded already, or a picture.
pub data Raw (Picture : Type 0) : Type 0 where
  encoded : List ℕ → Raw Picture
  picture : Picture → Raw Picture

-- `rotation % 360`, which Python makes non-negative
unfoldable pub degrees : ℤ → ℕ
degrees (pos n) = n % 360
degrees (negsuc n) = 359 - n % 360

module _ (Picture : Type 0) (rotate : Turn → Picture → Picture) where
  -- `_rotate_frame`
  unfoldable pub rotate_frame : ℤ → Picture → Picture
  unfolding degrees
  rotate_frame rotation p =
      if degrees rotation == 90
      then rotate clockwise p
      else if degrees rotation == 180
      then rotate half p
      else if degrees rotation == 270
      then rotate counterclockwise p
      else p

  module _ (flip : Picture → Picture) (imencode : Picture → Option (List ℕ)) where
    -- `_encode_frame`; the `RuntimeError` has a text.
    unfoldable pub encode_frame : Bool → ℤ → Bool → Raw Picture → Result Text (List ℕ)
    unfolding rotate_frame
    encode_frame has_opencv rotation mirror (encoded bytes) = ok bytes
    encode_frame has_opencv rotation mirror (picture p) =
        let turned = rotate_frame rotation p in
        if has_opencv
        then elim (imencode (if mirror then flip turned else turned)) [
          | none ↦ err (codes "Failed to encode camera frame")
          | some bytes ↦ ok bytes
        ]
        else err (codes "opencv-python is required to encode frames")

pub record CameraHealth : Type 0 where
  pub camera : CameraStatus
  pub fps : ℕ
  pub resolution : Text
  pub uptime : ℤ
  pub last_frame_at : Option ℤ
  pub last_error : Option Text

-- `resolution`
unfoldable pub resolution_of : ℤ → ℤ → Text
resolution_of width height = show_ℤ width ++ codes "x" ++ show_ℤ height

-- `health`, in milliseconds
unfoldable pub camera_health : ℤ → ℤ → ℤ → ℤ → CameraManager → CameraHealth
unfolding resolution_of
camera_health width height started_at now m = record {
  camera = m.status;
  fps = m.fps;
  resolution = resolution_of width height;
  uptime = now -ℤ started_at;
  last_frame_at = m.last_frame_at;
  last_error = m.last_error;
}
