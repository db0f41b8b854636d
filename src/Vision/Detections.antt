-- ===== src/Vision/Detections.antt =====
-- vision/detection_models.py and vision/detection_cache.py. Confidences are in units of 0.0001,
-- coordinates are whole, and times are in milliseconds.
use progress_claw_machine.Shared.{ℕ, ℤ, Text, Option, none, some, List, []}

pub record DetectedObject : Type 0 where
  pub class_name : Text
  pub confidence : ℕ
  pub bounding_box : List ℤ
  pub timestamp : ℤ
  pub tracking_id : Option Text

pub record DetectionResult : Type 0 where
  pub timestamp : Option ℤ
  pub frame_id : Option ℕ
  pub objects : List DetectedObject

-- `DetectionResult()`
abbrev pub no_detection : DetectionResult
no_detection = record { timestamp = none; frame_id = none; objects = [] }

-- `DetectionCache`: the latest result and nothing else.
pub record DetectionCache : Type 0 where
  pub latest : DetectionResult

abbrev pub new_cache : DetectionCache
new_cache = record { latest = no_detection }

unfoldable pub update :
    ℤ → ℕ → List DetectedObject → DetectionCache → DetectionResult × DetectionCache
update timestamp frame_id objects cache =
    let result : DetectionResult = record {
      timestamp = some timestamp;
      frame_id = some frame_id;
      objects = objects;
    } in
    (result, record { latest = result })

unfoldable pub clear : DetectionCache → DetectionCache
clear cache = record { latest = no_detection }
