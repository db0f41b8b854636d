-- ===== src/Config/Supabase.antt =====
-- cloud/config.py: the settings of the cloud service. What python-dotenv does to the environment is an
-- argument, if it is installed, and so is Python's reading of a float, in milliseconds.
pub mod Sound
use progress_claw_machine.Shared.{
  ℤ, pos, leb_ℤ, max_ℤ, Text, codes, strip, Option, none, some, List, [], ◌∷◌, if◌then◌else◌,
}
use progress_claw_machine.Cloud.Models.{SupabaseConfig}
use progress_claw_machine.Config.Env.{Environment, get_env, load_env_fallback}

-- What `float` makes of a text.
pub data Float : Type 0 where
  no_float not_finite : Float
  finite : ℤ → Float

abbrev default_name : Text
default_name = codes "Progress Claw Machine"

abbrev default_table : Text
default_table = codes "machine_status"

-- `text or default`
abbrev pub or_default : Text → Text → Text
or_default [] default = default
or_default (c ∷ text) default = c ∷ text

abbrev pub retry_of : Float → ℤ
retry_of no_float = pos 30000
retry_of not_finite = pos 30000
retry_of (finite seconds) = max_ℤ (pos 0) seconds

abbrev pub positive_or : ℤ → Float → ℤ
positive_or default no_float = default
positive_or default not_finite = default
positive_or default (finite seconds) = if leb_ℤ seconds (pos 0) then default else seconds

module _ (float : Text → Float) where
  -- `_retry_seconds_from_env`
  unfoldable pub retry_seconds_from_env : Environment → ℤ
  retry_seconds_from_env env =
      retry_of (float (strip (get_env env (codes "SUPABASE_RETRY_SECONDS") (codes "30"))))

  -- `_positive_seconds_from_env`; the default comes as a text and as a number.
  unfoldable pub positive_seconds_from_env : Text → Text → ℤ → Environment → ℤ
  positive_seconds_from_env name shown default env =
      positive_or default (float (strip (get_env env name shown)))

  unfoldable pub config_of : Environment → SupabaseConfig
  config_of env = record {
    url = strip (get_env env (codes "SUPABASE_URL") []);
    key = strip (get_env env (codes "SUPABASE_KEY") []);
    machine_name =
        or_default (strip (get_env env (codes "CLAW_MACHINE_NAME") default_name)) default_name;
    table_name =
        or_default (strip (get_env env (codes "SUPABASE_MACHINE_STATUS_TABLE") default_table))
          default_table;
    retry = retry_seconds_from_env env;
    sync_interval =
        positive_seconds_from_env (codes "SUPABASE_SYNC_INTERVAL_SECONDS") (codes "60.0")
          (pos 60000) env;
  }

  -- `SupabaseConfig.from_env`: `dotenv` is `load_dotenv`, or none, and `file` the lines of `.env`.
  unfoldable pub supabase_from_env :
      Option (Environment → Environment) → Option (List Text) → Environment → SupabaseConfig
  supabase_from_env none file env = config_of (load_env_fallback file env)
  supabase_from_env (some dotenv) file env = config_of (dotenv env)
