-- ===== src/Config/Supabase/Sound.antt =====
-- The settings can be used whatever the environment says.
use progress_claw_machine.Shared.{
  ℕ, pos, ◌≤ℤ◌, Text, codes, strip, ◌≡◌, ◌≢◌, ap, refl, Option, none, some, List, [], ◌∷◌, arith,
}
use progress_claw_machine.Cloud.Models.{SupabaseConfig}
use progress_claw_machine.Config.Env.{Environment, get_env, load_env_fallback}
use progress_claw_machine.Config.Env.Fallback.{load_env_fallback_keeps}
use progress_claw_machine.Config.Supabase.{
  Float, no_float, not_finite, finite, retry_of, positive_or, or_default, config_of,
  supabase_from_env, retry_seconds_from_env, positive_seconds_from_env,
}

-- The service never waits a negative time, always pauses between two synchronisations, and has names.
pub record IsUsable (c : SupabaseConfig) : Type 0 where
  pub waits : pos 0 ≤ℤ c.retry
  pub pauses : pos 1 ≤ℤ c.sync_interval
  pub named : c.machine_name ≢ []
  pub stored : c.table_name ≢ []

get_env_set :
    (env : Environment) (name default v : Text) → env name ≡ some v → get_env env name default ≡ v
get_env_set env name default v h = rw (h, get_env) refl

retry_of_lem : (x : Float) → pos 0 ≤ℤ retry_of x
retry_of_lem no_float = ground arith
retry_of_lem not_finite = ground arith
retry_of_lem (finite n) = ground arith

positive_or_lem : (x : Float) → pos 1 ≤ℤ positive_or (pos 60000) x
positive_or_lem no_float = ground arith
positive_or_lem not_finite = ground arith
positive_or_lem (finite n) = ground arith

or_default_lem : (t : Text) (c : ℕ) (d : Text) → or_default t (c ∷ d) ≢ []
or_default_lem [] c d = λ e. cc
or_default_lem (b ∷ t) c d = λ e. cc

module _ (float : Text → Float) where
  config_of-IsUsable : (env : Environment) → IsUsable (config_of float env)
  unfolding config_of retry_seconds_from_env positive_seconds_from_env
  config_of-IsUsable env = record {
    waits =
        retry_of_lem (float (strip (get_env env (codes "SUPABASE_RETRY_SECONDS") (codes "30"))));
    pauses =
        positive_or_lem
          (float (strip (get_env env (codes "SUPABASE_SYNC_INTERVAL_SECONDS") (codes "60.0"))));
    named = or_default_lem _ b'P' (codes "rogress Claw Machine");
    stored = or_default_lem _ b'm' (codes "achine_status");
  }

  config_of_keeps :
      (file : Option (List Text)) (env : Environment)
      → ((u : Text)
          → env (codes "SUPABASE_URL") ≡ some u
          → (config_of float (load_env_fallback file env)).url ≡ strip u)
        × ((k : Text)
            → env (codes "SUPABASE_KEY") ≡ some k
            → (config_of float (load_env_fallback file env)).key ≡ strip k)
  unfolding config_of
  config_of_keeps file env =
      let kept = λ (name v : Text) (h : env name ≡ some v). ap strip (
        get_env_set (load_env_fallback file env) name [] v
          (load_env_fallback_keeps file name v env h)) in
      (kept (codes "SUPABASE_URL"), kept (codes "SUPABASE_KEY"))

  -- Whatever the environment and the file say, and whether python-dotenv is installed or not, the retry
  -- time is not negative, the interval is positive, and neither name is empty. Without python-dotenv,
  -- a URL and a key that the environment has are used, whatever the file says.
  supabase_from_env_sound :
      (dotenv : Option (Environment → Environment)) (file : Option (List Text)) (env : Environment)
      → IsUsable (supabase_from_env float dotenv file env)
        × ((u : Text)
            → env (codes "SUPABASE_URL") ≡ some u
            → (supabase_from_env float none file env).url ≡ strip u)
        × ((k : Text)
            → env (codes "SUPABASE_KEY") ≡ some k
            → (supabase_from_env float none file env).key ≡ strip k)
  unfolding supabase_from_env
  supabase_from_env_sound none file env =
      let (url, key) = config_of_keeps file env in
      (config_of-IsUsable (load_env_fallback file env), url, key)
  supabase_from_env_sound (some dotenv) file env =
      let (url, key) = config_of_keeps file env in (config_of-IsUsable (dotenv env), url, key)
