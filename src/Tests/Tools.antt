-- ===== src/Tests/Tools.antt =====
-- The theorems about configuration readers and the retention audit at concrete inputs.
use progress_claw_machine.Shared.{
  ℕ, negsuc, false, ℤ, ◌≡◌, pos, codes, Text, true, Option, none, some, List, [], ◌∷◌,
}
use progress_claw_machine.Config.Loaders.{Floats, load_recommendation_config}
use progress_claw_machine.Config.Loaders.Advice.{
  Settings, lines_of, load_recommendation_config-lines_of,
}
use progress_claw_machine.Config.Env.{Environment}
use progress_claw_machine.Config.Supabase.{Float, no_float}
use progress_claw_machine.Maintenance.Retention.{Entry, RetentionCategory, category}

-- Numbers without a fraction.
abbrev whole : Floats
whole = record {
  Real = ℤ;
  float = λ t. none;
  of_int = λ n. n;
  trunc = λ n. some n;
  show = λ n. codes "0";
  is_zero = λ n. false;
}

abbrev settings : Settings
settings = record {
  player_ready = pos 5;
  idle_demo_timeout = pos 60;
  camera_timeout = pos 10;
  arduino_timeout = negsuc 0;
  interval = pos 250;
}

load_recommendation_config-lines_of_example :
    load_recommendation_config whole (some (lines_of settings (codes " set by hand")))
    ≡ some (record {
      player_ready = pos 5;
      idle_demo_timeout = pos 60;
      camera_timeout = pos 10;
      arduino_timeout = negsuc 0;
      recommendation_interval_ms = pos 250;
    })
load_recommendation_config-lines_of_example =
    load_recommendation_config-lines_of whole settings (codes " set by hand")

-- An environment in which every variable is set.
abbrev full : Environment
full asked = some (codes " live ")

abbrev no_number : Text → Float
no_number s = no_float

abbrev file : Text → ℕ → ℤ → Entry
file name size mtime = record {
  name = name;
  status = some (record { is_regular = true; size = size; mtime = mtime });
}

abbrev listing : Text → Option (List Entry)
listing path = some (
    file (codes "old.log") 10 (pos 0)
    ∷ file (codes "new.log") 5 (pos 2000000000)
    ∷ file (codes ".gitkeep") 1 (pos 0)
    ∷ [])

abbrev logs : RetentionCategory
logs = category (codes "runtime_logs") (codes "logs") 14
