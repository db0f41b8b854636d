-- ===== src/Config/Loaders/Advice.antt =====
-- recommendation/engine.py: a configuration that is written out, one setting to a line, and loaded.
use progress_claw_machine.Shared.{
  ℤ, Text, codes, ◌≡◌, ◌∙◌, ap, refl, some, List, [], ◌∷◌, ◌++◌, split_once, before_first, text_eq,
}
use progress_claw_machine.Config.Yaml
use progress_claw_machine.Config.Yaml.Printed.{IsKey, printed, read_line-printed}
use progress_claw_machine.Config.Loaders.{Floats, YamlDict, advice_of, load_recommendation_config}

-- The five settings, in whole seconds and milliseconds.
pub record Settings : Type 0 where
  pub player_ready : ℤ
  pub idle_demo_timeout : ℤ
  pub camera_timeout : ℤ
  pub arduino_timeout : ℤ
  pub interval : ℤ

abbrev pub line : Text → ℤ → Text → Text
line key n comment = printed key n ++ b'#' ∷ comment

-- The lines that set them, each before a comment.
abbrev pub lines_of : Settings → Text → List Text
lines_of c comment =
    line (codes "player_ready_seconds") c.player_ready comment
    ∷ line (codes "idle_demo_timeout") c.idle_demo_timeout comment
    ∷ line (codes "camera_timeout") c.camera_timeout comment
    ∷ line (codes "arduino_timeout") c.arduino_timeout comment
    ∷ line (codes "recommendation_interval_ms") c.interval comment
    ∷ []

ready-IsKey : IsKey (codes "player_ready_seconds")
unfolding split_once before_first
ready-IsKey = record {
  first = b'p';
  others = codes "layer_ready_seconds";
  nonempty = refl;
  unspaced = refl;
  untrailed = refl;
  no_colon = refl;
  no_hash = refl;
}

demo-IsKey : IsKey (codes "idle_demo_timeout")
unfolding split_once before_first
demo-IsKey = record {
  first = b'i';
  others = codes "dle_demo_timeout";
  nonempty = refl;
  unspaced = refl;
  untrailed = refl;
  no_colon = refl;
  no_hash = refl;
}

camera-IsKey : IsKey (codes "camera_timeout")
unfolding split_once before_first
camera-IsKey = record {
  first = b'c';
  others = codes "amera_timeout";
  nonempty = refl;
  unspaced = refl;
  untrailed = refl;
  no_colon = refl;
  no_hash = refl;
}

arduino-IsKey : IsKey (codes "arduino_timeout")
unfolding split_once before_first
arduino-IsKey = record {
  first = b'a';
  others = codes "rduino_timeout";
  nonempty = refl;
  unspaced = refl;
  untrailed = refl;
  no_colon = refl;
  no_hash = refl;
}

interval-IsKey : IsKey (codes "recommendation_interval_ms")
unfolding split_once before_first
interval-IsKey = record {
  first = b'r';
  others = codes "ecommendation_interval_ms";
  nonempty = refl;
  unspaced = refl;
  untrailed = refl;
  no_colon = refl;
  no_hash = refl;
}

module _ (f : Floats) where
  abbrev dict_of : Settings → YamlDict f
  dict_of c =
      (codes "recommendation_interval_ms", Yaml.integer c.interval)
      ∷ (codes "arduino_timeout", Yaml.integer c.arduino_timeout)
      ∷ (codes "camera_timeout", Yaml.integer c.camera_timeout)
      ∷ (codes "idle_demo_timeout", Yaml.integer c.idle_demo_timeout)
      ∷ (codes "player_ready_seconds", Yaml.integer c.player_ready)
      ∷ []

  read_lines_of :
      (c : Settings) (comment : Text)
      → Yaml.read_simple_yaml f.Real f.float
          (Yaml.coerce_plain f.Real f.float)
          (some (lines_of c comment))
        ≡ dict_of c
  unfolding Yaml.read_simple_yaml
  read_lines_of c comment =
      let add = λ (key : Text) (n : ℤ) (d : YamlDict f) (k : IsKey key).
        read_line-printed f.Real f.float key n comment d k in
      rw
        (
          add (codes "player_ready_seconds") c.player_ready [] ready-IsKey,
          add (codes "idle_demo_timeout") c.idle_demo_timeout _ demo-IsKey,
          add (codes "camera_timeout") c.camera_timeout _ camera-IsKey,
          add (codes "arduino_timeout") c.arduino_timeout _ arduino-IsKey,
          add (codes "recommendation_interval_ms") c.interval _ interval-IsKey,
        )
        refl

  advice_of_dict :
      (c : Settings)
      → advice_of f (dict_of c)
        ≡ some (record {
          player_ready = f.of_int c.player_ready;
          idle_demo_timeout = f.of_int c.idle_demo_timeout;
          camera_timeout = f.of_int c.camera_timeout;
          arduino_timeout = f.of_int c.arduino_timeout;
          recommendation_interval_ms = c.interval;
        })
  unfolding advice_of text_eq
  advice_of_dict c = refl

  -- A configuration file that sets the five integers, one to a line and each before a comment, loads as
  -- the configuration with exactly those numbers.
  pub load_recommendation_config-lines_of :
      (c : Settings) (comment : Text)
      → load_recommendation_config f (some (lines_of c comment))
        ≡ some (record {
          player_ready = f.of_int c.player_ready;
          idle_demo_timeout = f.of_int c.idle_demo_timeout;
          camera_timeout = f.of_int c.camera_timeout;
          arduino_timeout = f.of_int c.arduino_timeout;
          recommendation_interval_ms = c.interval;
        })
  unfolding load_recommendation_config
  load_recommendation_config-lines_of c comment =
      ap (advice_of f) (read_lines_of c comment) ∙ advice_of_dict c
