-- ===== src/Vision/Detector.antt =====
-- vision/detector.py: the YOLO model, loaded when it is first needed. Ultralytics, OpenCV and the clock
-- are a parameter, `Outside`. What is logged, with the rate of the inference, is left out.
pub mod Load
use progress_claw_machine.Shared.{
  ℕ, ℤ, ◌==◌, pos, negsuc, Text, codes, Bool, true, false, Option, none, some, List, [], ◌∷◌, ◌++◌,
  if◌then◌else◌,
}
use progress_claw_machine.Shared.Action.{Result, ok, err, Action, ◌>>=◌, ◌>>◌, pure}
use progress_claw_machine.Vision.Detections.{DetectedObject}
use progress_claw_machine.Vision.Results.{Numbers, YoloResult, objects_from_results}

-- `load` builds the model, by the factory or by Ultralytics, and an error is its text. `decode` reads
-- the bytes as an image.
pub record Outside : Type 1 where
  pub World : Type 0
  pub Model : Type 0
  pub Image : Type 0
  pub numbers : Numbers
  pub names : Model → List (ℤ × Text)
  pub load : Text → World → Result Text Model × World
  pub has_opencv : Bool
  pub decode : List ℕ → Option Image
  pub predict : Model → Image → World → Result Text (List (YoloResult numbers.Number)) × World
  pub time : World → ℤ × World

-- The text is there: `if self._load_error`
abbrev pub nonempty_error : Option Text → Option Text
nonempty_error none = none
nonempty_error (some []) = none
nonempty_error (some (c ∷ text)) = some (c ∷ text)

module _ (o : Outside) where
  -- `YoloDetector`, with what it calls.
  pub record Detector : Type 0 where
    pub model_path : Text
    pub model : Option o.Model
    pub load_error : Option Text
    pub world : o.World

  abbrev pub new_detector : Text → o.World → Detector
  new_detector model_path world = record {
    model_path = model_path;
    model = none;
    load_error = none;
    world = world;
  }

  -- What `detect` raises.
  pub data Failed : Type 0 where
    runtime_error prediction_error : Text → Failed
    value_error : Failed

  abbrev Method : Type 0 → Type 0
  Method A = Action Failed Detector A

  loaded : Result Text o.Model → Method o.Model
  loaded (ok model) d = (ok model, record d { model = some model })
  loaded (err text) d =
      let message = codes "YOLO model load failed: " ++ text in
      (err (runtime_error message), record d { load_error = some message })

  -- `_load_model`
  unfoldable pub load_model : Method o.Model
  unfolding loaded
  load_model d = elim d.model [
    | some model ↦ (ok model, d)
    | none ↦ elim (nonempty_error d.load_error) [
      | some text ↦ (err (runtime_error text), d)
      | none ↦ let (r, w) = o.load d.model_path d.world in loaded r (record d { world = w })
    ]
  ]

  -- `_decode_frame`, for bytes
  unfoldable pub decode_frame : List ℕ → Result Failed o.Image
  decode_frame bytes =
      if o.has_opencv
      then elim (o.decode bytes) [
        | none ↦ err (runtime_error (codes "Detection frame could not be decoded"))
        | some image ↦ ok image
      ]
      else err (runtime_error (codes "opencv-python and numpy are required for detection"))

  predicted :
      Result Text (List (YoloResult o.numbers.Number)) → Method (List (YoloResult o.numbers.Number))
  predicted (ok results) d = (ok results, d)
  predicted (err text) d = (err (prediction_error text), d)

  abbrev pub predict : o.Model → o.Image → Method (List (YoloResult o.numbers.Number))
  unfolding predicted
  predict model image d =
      let (r, w) = o.predict model image d.world in predicted r (record d { world = w })

  -- `timestamp or time.time()`
  abbrev is_zero : ℤ → Bool
  is_zero (pos n) = n == 0
  is_zero (negsuc _) = false

  abbrev now : Method ℤ
  now d = let (t, w) = o.time d.world in (ok t, record d { world = w })

  unfoldable pub timestamp_or : Option ℤ → Method ℤ
  timestamp_or none d = now d
  timestamp_or (some t) d = if is_zero t then now d else (ok t, d)

  abbrev pub read : o.Model → List (YoloResult o.numbers.Number) → ℤ → Method (List DetectedObject)
  read model results at d = (
    elim (objects_from_results o.numbers (o.names model) at results) [
      | none ↦ err value_error
      | some objects ↦ ok objects
    ],
    d,
  )

  unfoldable pub detect : List ℕ → Option ℤ → Method (List DetectedObject)
  unfolding timestamp_or
  detect bytes timestamp = do
    model ← load_model
    image ← λ d. (decode_frame bytes, d)
    results ← predict model image
    at ← timestamp_or timestamp
    read model results at
