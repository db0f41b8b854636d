-- ===== src/Config/Env/Fallback.antt =====
-- A `.env` file never overrides the environment.
use progress_claw_machine.Shared.{
  Text, split_once, strip, ◌≡◌, refl, Option, none, some, List, [], ◌∷◌, arith,
}
use progress_claw_machine.Config.Env.{
  Environment, unquoted, set_default, assigned, load_line, load_env_fallback,
}

set_default_keeps :
    (name value asked v : Text) (env : Environment)
    → env asked ≡ some v
    → set_default name value env asked ≡ some v
unfolding set_default
set_default_keeps name value asked v env h = rw (h, set_default) refl

assigned_keeps :
    (p : Option (Text × Text)) (asked v : Text) (env : Environment)
    → env asked ≡ some v
    → assigned p env asked ≡ some v
assigned_keeps none asked v env h = h
assigned_keeps (some (name, value)) asked v env h =
    ground (arith, set_default_keeps (strip name) (unquoted (strip value)) asked v env)

load_line_keeps :
    (line asked v : Text) (env : Environment)
    → env asked ≡ some v
    → load_line line env asked ≡ some v
unfolding load_line
load_line_keeps line asked v env h =
    ground (arith, assigned_keeps (split_once b'=' (strip line)) asked v env)

-- Whatever the file says, a variable that the environment has keeps its value.
pub load_env_fallback_keeps :
    (file : Option (List Text)) (asked v : Text) (env : Environment)
    → env asked ≡ some v
    → load_env_fallback file env asked ≡ some v
unfolding load_env_fallback
load_env_fallback_keeps none asked v env h = h
load_env_fallback_keeps (some []) asked v env h = h
load_env_fallback_keeps (some (line ∷ lines)) asked v env h =
    load_env_fallback_keeps (some lines) asked v (load_line line env)
      (load_line_keeps line asked v env h)
