-- ===== src/Dashboard/App.antt =====
-- dashboard/backend/app.py and the health of dashboard/backend/routes_system.py: the settings that the
-- application reads, its error handlers and the answer to a health check. Flask calls the handler of
-- the class that is closest to an error's.
pub mod Started
use progress_claw_machine.Shared.{
  ℕ, ℤ, pos, negsuc, leb, ltb, max_ℤ, ◌-ℤ◌, Text, codes, Bool, true, false, Option, none, some,
  is_some, List, [], ◌∷◌, if◌then◌else◌,
}
use progress_claw_machine.Shared.Decimal.{show_ℤ, read_int}
use progress_claw_machine.Config.Env.{Environment, get_env}
use progress_claw_machine.Controller.Machine.{Snapshot, Status}
use progress_claw_machine.Analytics.Store.{AnalyticsStore, new_store}

-- `_positive_int_env`
unfoldable pub positive_int_env : Environment → Text → ℤ → ℤ
positive_int_env env name default = elim (read_int (get_env env name (show_ℤ default))) [
  | none ↦ default
  | some n ↦ max_ℤ (pos 1) n
]

-- `ADMIN_SESSION_SECONDS` of the configuration, and the store of the analytics, none if it raises.
abbrev pub admin_session_seconds : Environment → ℤ
unfolding positive_int_env
admin_session_seconds env =
    positive_int_env env (codes "PROGRESS_CLAW_ADMIN_SESSION_SECONDS") (pos 300)

abbrev as_bound : ℤ → ℕ
as_bound (pos n) = n
as_bound (negsuc _) = 0

unfoldable pub analytics_store : Environment → Option AnalyticsStore
unfolding positive_int_env
analytics_store env =
    new_store (as_bound (positive_int_env env (codes "CLAW_ANALYTICS_MAX_EVENTS") (pos 1000)))

-- What a view raises, with its text or its description and code.
pub data Raised : Type 0 where
  value_error : Text → Raised
  http_error : Text → ℕ → Raised
  unexpected : Text → Raised

-- The error and the status code of the answer.
unfoldable pub handle : Raised → Text × ℕ
handle (value_error text) = (text, 400)
handle (http_error description code) = (description, code)
handle (unexpected text) = (codes "Unexpected server error", 500)

pub data Link : Type 0 where
  mock connected disconnected : Link

pub record HealthReport : Type 0 where
  pub controller : Status
  pub arduino : Link
  pub camera_ready : Bool
  pub uptime : ℤ

-- `health_payload`, in milliseconds
unfoldable pub health_payload : Snapshot → Option (List ℕ) → ℤ → ℤ → HealthReport
health_payload status frame started_at now = record {
  controller = status.state.status;
  arduino =
      if status.state.mock_arduino
      then mock
      else if status.state.arduino_connected
      then connected
      else disconnected;
  camera_ready = is_some frame;
  uptime = now -ℤ started_at;
}
