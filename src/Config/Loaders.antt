-- ===== src/Config/Loaders.antt =====
-- load_camera_config of vision/camera_manager.py, load_detector_config of vision/detector.py,
-- load_recommendation_config of recommendation/engine.py and load_game_state_config of
-- game/state_engine.py. Python's floats are an argument. An error is a conversion that raises.
pub mod Advice
use progress_claw_machine.Shared.{
  ℕ, ℤ, pos, Text, codes, text_eq, map, lower, split_once, Bool, true, false, not, ◌==◌, Option,
  none, some, List, [], ◌∷◌, if◌then◌else◌,
}
use progress_claw_machine.Shared.Decimal.{read_int, show_ℤ}
use progress_claw_machine.Config.Yaml

-- Python's floats: `float` of a text and of an integer, `int` of a float (which raises for those that
-- are not finite), the text of a float, and the test for 0.
pub record Floats : Type 1 where
  pub Real : Type 0
  pub float : Text → Option Real
  pub of_int : ℤ → Real
  pub trunc : Real → Option ℤ
  pub show : Real → Text
  pub is_zero : Real → Bool

abbrev of_bool : Bool → ℤ
of_bool true = pos 1
of_bool false = pos 0

abbrev show_bool : Bool → Text
show_bool true = codes "True"
show_bool false = codes "False"

module _ (f : Floats) where
  abbrev pub YamlScalar : Type 0
  YamlScalar = Yaml.Scalar f.Real f.float

  abbrev pub YamlDict : Type 0
  YamlDict = Yaml.Dict f.Real f.float

  -- `d.get(key)`: the latest assignment.
  unfoldable pub get : YamlDict → Text → Option YamlScalar
  get [] key = none
  get ((k, v) ∷ d) key = if text_eq k key then some v else get d key

  -- `int(v)`
  abbrev pub to_int : YamlScalar → Option ℤ
  to_int (Yaml.boolean b) = some (of_bool b)
  to_int (Yaml.integer n) = some n
  to_int (Yaml.real x) = f.trunc x
  to_int (Yaml.text s) = read_int s

  -- `float(v)`
  abbrev pub to_float : YamlScalar → Option f.Real
  to_float (Yaml.boolean b) = some (f.of_int (of_bool b))
  to_float (Yaml.integer n) = some (f.of_int n)
  to_float (Yaml.real x) = some x
  to_float (Yaml.text s) = f.float s

  -- `str(v)`
  abbrev pub to_text : YamlScalar → Text
  to_text (Yaml.boolean b) = show_bool b
  to_text (Yaml.integer n) = show_ℤ n
  to_text (Yaml.real x) = f.show x
  to_text (Yaml.text s) = s

  abbrev is_zero_int : ℤ → Bool
  is_zero_int (pos n) = n == 0
  is_zero_int _ = false

  abbrev is_nil : Text → Bool
  is_nil [] = true
  is_nil (_ ∷ _) = false

  -- `bool(v)`
  abbrev pub to_bool : YamlScalar → Bool
  to_bool (Yaml.boolean b) = b
  to_bool (Yaml.integer n) = not (is_zero_int n)
  to_bool (Yaml.real x) = not (f.is_zero x)
  to_bool (Yaml.text s) = not (is_nil s)

  abbrev with_default {ℓ} :
      {A : Type ℓ} → A → (YamlScalar → Option A) → Option YamlScalar → Option A
  with_default d convert none = some d
  with_default d convert (some v) = convert v

infixl 10 ◌>>=◌
abbrev ◌>>=◌ {ℓ κ} : {A : Type ℓ} {B : Type κ} → Option A → (A → Option B) → Option B
none >>= g = none
some a >>= g = g a

module _ (f : Floats) where
  pub record CameraConfig : Type 0 where
    pub device_id : YamlScalar f
    pub width : ℤ
    pub height : ℤ
    pub fps : ℤ
    pub rotation : ℤ
    pub mirror : Bool
    pub reconnect_delay : f.Real

  -- `int(size or default)`
  abbrev size_or : ℤ → Option (YamlScalar f) → Option ℤ
  size_or d none = some d
  size_or d (some v) = if to_bool f v then to_int f v else some d

  -- The two sizes: those of a text `resolution` that has an `x`, or the entries of their own.
  abbrev sizes_of_text : Text → YamlDict f → Option (Option (YamlScalar f) × Option (YamlScalar f))
  sizes_of_text s d = elim (split_once b'x' s) [
    | none ↦ some (get f d (codes "width"), get f d (codes "height"))
    | some _ ↦ elim (split_once b'x' (map lower s)) [
      | none ↦ none
      | some (left, right) ↦ elim (read_int left) [
        | none ↦ none
        | some w ↦ elim (read_int right) [
          | none ↦ none
          | some h ↦ some (some (Yaml.integer w), some (Yaml.integer h))
        ]
      ]
    ]
  ]

  abbrev sizes :
      Option (YamlScalar f) → YamlDict f → Option (Option (YamlScalar f) × Option (YamlScalar f))
  sizes (some (Yaml.text s)) d = sizes_of_text s d
  sizes _ d = some (get f d (codes "width"), get f d (codes "height"))

  abbrev or_scalar : YamlScalar f → Option (YamlScalar f) → YamlScalar f
  or_scalar d none = d
  or_scalar d (some v) = v

  abbrev bool_or : Bool → Option (YamlScalar f) → Bool
  bool_or d none = d
  bool_or d (some v) = to_bool f v

  -- `int(d.get(key, default))`, and `float`
  abbrev int_at : YamlDict f → Text → ℤ → Option ℤ
  int_at d key n = with_default f n (to_int f) (get f d key)

  abbrev float_at : YamlDict f → Text → f.Real → Option f.Real
  float_at d key x = with_default f x (to_float f) (get f d key)

  -- `load_camera_config`, where `two` is 2.0
  unfoldable pub load_camera_config : f.Real → Option (List Text) → Option CameraConfig
  unfolding get
  load_camera_config two file =
      let d = Yaml.read_simple_yaml f.Real f.float (Yaml.coerce_scalar f.Real f.float) file in
      do
        (w, h) ← sizes (get f d (codes "resolution")) d
        width ← size_or (pos 1280) w
        height ← size_or (pos 720) h
        fps ← int_at d (codes "fps") (pos 30)
        rotation ← int_at d (codes "rotation") (pos 0)
        delay ← float_at d (codes "reconnect_delay_seconds") two
        some (record {
          device_id = or_scalar (Yaml.integer (pos 0)) (get f d (codes "device_id"));
          width = width;
          height = height;
          fps = fps;
          rotation = rotation;
          mirror = bool_or false (get f d (codes "mirror"));
          reconnect_delay = delay;
        })

  pub record DetectorConfig : Type 0 where
    pub model_path : Text
    pub confidence_threshold : f.Real
    pub image_size : ℤ
    pub device : Text
    pub inference_interval : f.Real

  -- `d.get(key, d.get(other))`
  abbrev get_either : YamlDict f → Text → Text → Option (YamlScalar f)
  get_either d key other = elim (get f d key) [ none ↦ get f d other | some v ↦ some v ]

  abbrev text_or : Text → Option (YamlScalar f) → Text
  text_or t none = t
  text_or t (some v) = to_text f v

  -- `load_detector_config`, where `quarter` is 0.25 and `tenth` is 0.1
  unfoldable pub load_detector_config : f.Real → f.Real → Option (List Text) → Option DetectorConfig
  unfolding get
  load_detector_config quarter tenth file =
      let d = Yaml.read_simple_yaml f.Real f.float (Yaml.coerce_scalar f.Real f.float) file in
      do
        threshold ←
            with_default f quarter (to_float f)
              (get_either d (codes "yolo_confidence_threshold") (codes "confidence_threshold"))
        size ←
            with_default f (pos 640) (to_int f)
              (get_either d (codes "yolo_image_size") (codes "image_size"))
        interval ← with_default f tenth (to_float f) (
            get_either d (codes "yolo_inference_interval_seconds")
              (codes "inference_interval_seconds"))
        some (record {
          model_path =
              text_or (codes "yolov8n.pt")
                (get_either d (codes "yolo_model_path") (codes "model_path"));
          confidence_threshold = threshold;
          image_size = size;
          device = text_or (codes "cpu") (get_either d (codes "yolo_device") (codes "device"));
          inference_interval = interval;
        })

  pub record AdviceConfig : Type 0 where
    pub player_ready : f.Real
    pub idle_demo_timeout : f.Real
    pub camera_timeout : f.Real
    pub arduino_timeout : f.Real
    pub recommendation_interval_ms : ℤ

  -- The configuration that `load_recommendation_config` builds from the dictionary.
  unfoldable pub advice_of : YamlDict f → Option AdviceConfig
  unfolding get
  advice_of d = do
    ready ← float_at d (codes "player_ready_seconds") (f.of_int (pos 3))
    demo ← float_at d (codes "idle_demo_timeout") (f.of_int (pos 30))
    camera ← float_at d (codes "camera_timeout") (f.of_int (pos 5))
    arduino ← float_at d (codes "arduino_timeout") (f.of_int (pos 5))
    interval ← int_at d (codes "recommendation_interval_ms") (pos 500)
    some (record {
      player_ready = ready;
      idle_demo_timeout = demo;
      camera_timeout = camera;
      arduino_timeout = arduino;
      recommendation_interval_ms = interval;
    })

  unfoldable pub load_recommendation_config : Option (List Text) → Option AdviceConfig
  load_recommendation_config file =
      advice_of (Yaml.read_simple_yaml f.Real f.float (Yaml.coerce_plain f.Real f.float) file)

  abbrev pub Entries : Type 0
  Entries = List (Text × Yaml.Entry f.Real f.float)

  unfoldable pub get_entry : Entries → Text → Option (Yaml.Entry f.Real f.float)
  get_entry [] key = none
  get_entry ((k, e) ∷ es) key = if text_eq k key then some e else get_entry es key

  -- A conversion of an entry that has to be a scalar; a dictionary raises.
  abbrev convert_entry {ℓ} :
      {A : Type ℓ} → A → (YamlScalar f → Option A) → Option (Yaml.Entry f.Real f.float) → Option A
  convert_entry d convert none = some d
  convert_entry d convert (some (Yaml.scalar v)) = convert v
  convert_entry d convert (some (Yaml.section s)) = none

  -- `data.get("prize_zone", {})`, on which `get` is called.
  abbrev zone_of : Option (Yaml.Entry f.Real f.float) → Option (YamlDict f)
  zone_of none = some []
  zone_of (some (Yaml.section s)) = some s
  zone_of (some (Yaml.scalar v)) = none

  pub record ZoneConfig : Type 0 where
    pub x_min : f.Real
    pub y_min : f.Real
    pub x_max : f.Real
    pub y_max : f.Real

  pub record GameConfig : Type 0 where
    pub player_presence_threshold : ℤ
    pub idle_timeout : f.Real
    pub detection_confidence_threshold : f.Real
    pub prize_zone : ZoneConfig
    pub state_update_interval_ms : ℤ
    pub play_timeout : f.Real

  -- `load_game_state_config`, where `half` is 0.5
  unfoldable pub load_game_state_config : f.Real → Option (List Text) → Option GameConfig
  unfolding get get_entry
  load_game_state_config half file =
      let es = Yaml.read_game_yaml f.Real f.float file in
      do
        zone ← zone_of (get_entry es (codes "prize_zone"))
        threshold ←
            convert_entry (pos 1) (to_int f) (get_entry es (codes "player_presence_threshold"))
        idle ←
            convert_entry (f.of_int (pos 5)) (to_float f)
              (get_entry es (codes "idle_timeout_seconds"))
        confidence ←
            convert_entry half (to_float f) (get_entry es (codes "detection_confidence_threshold"))
        x_min ← float_at zone (codes "x_min") (f.of_int (pos 0))
        y_min ← float_at zone (codes "y_min") (f.of_int (pos 0))
        x_max ← float_at zone (codes "x_max") (f.of_int (pos 10000))
        y_max ← float_at zone (codes "y_max") (f.of_int (pos 10000))
        interval ←
            convert_entry (pos 250) (to_int f) (get_entry es (codes "state_update_interval_ms"))
        timeout ←
            convert_entry (f.of_int (pos 60)) (to_float f) (get_entry es (codes "timeout_seconds"))
        some (record {
          player_presence_threshold = threshold;
          idle_timeout = idle;
          detection_confidence_threshold = confidence;
          prize_zone = record { x_min = x_min; y_min = y_min; x_max = x_max; y_max = y_max };
          state_update_interval_ms = interval;
          play_timeout = timeout;
        })
