-- ===== src/Cloud/Models.antt =====
-- cloud/models.py, cloud/health.py and the fields of cloud/config.py. Durations and clock readings are
-- in milliseconds; `Cell` is a value of a table's column.
use progress_claw_machine.Shared.{
  ℕ, ◌+◌, ℤ, Text, codes, Bool, true, false, ◌&&◌, Option, none, some, List, [], ◌∷◌,
}

pub record MachineStatus : Type 0 where
  pub machine_name : Text
  pub status : Text
  pub x_position : ℤ
  pub y_position : ℤ
  pub claw_power : ℤ
  pub online : Bool
  pub updated_at : Text

-- `SyncResult`, without the message and the data
pub record SyncResult : Type 0 where
  pub succeeded : Bool
  pub retrying : Bool

pub record SchemaResult : Type 0 where
  pub valid : Bool
  pub missing_columns : List Text
  pub error_category : Option Text

abbrev pub expected_columns : List Text
expected_columns =
    codes "id"
    ∷ codes "machine_name"
    ∷ codes "status"
    ∷ codes "x_position"
    ∷ codes "y_position"
    ∷ codes "claw_power"
    ∷ codes "online"
    ∷ codes "updated_at"
    ∷ []

pub record SupabaseConfig : Type 0 where
  pub url : Text
  pub key : Text
  pub machine_name : Text
  pub table_name : Text
  pub retry : ℤ
  pub sync_interval : ℤ

abbrev is_set : Text → Bool
is_set [] = false
is_set (_ ∷ _) = true

abbrev pub is_configured : SupabaseConfig → Bool
is_configured c = is_set c.url && is_set c.key

pub record Health (Cell : Type 0) : Type 0 where
  pub enabled : Bool
  pub configured : Bool
  pub connected : Bool
  pub machine_name : Text
  pub sync_interval : ℤ
  pub last_connection_attempt : Option Text
  pub last_successful_connection : Option Text
  pub last_sync_attempt : Option Text
  pub last_successful_sync : Option Text
  pub last_heartbeat : Option Text
  pub last_supabase_read : Option Text
  pub last_error : Option Text
  pub consecutive_failure_count : ℕ
  pub retry_count : ℕ
  pub current_machine_status : Option MachineStatus
  pub supabase_machine_status : Option (List (Text × Option Cell))

module _ (Cell : Type 0) where
  -- The state that `CloudSyncService.__init__` gives the tracker.
  unfoldable pub first_health : SupabaseConfig → Health Cell
  first_health c = record {
    enabled = true;
    configured = is_configured c;
    connected = false;
    machine_name = c.machine_name;
    sync_interval = c.sync_interval;
    last_connection_attempt = none;
    last_successful_connection = none;
    last_sync_attempt = none;
    last_successful_sync = none;
    last_heartbeat = none;
    last_supabase_read = none;
    last_error = none;
    consecutive_failure_count = 0;
    retry_count = 0;
    current_machine_status = none;
    supabase_machine_status = none;
  }

  -- `CloudHealthTracker.success`, before its other changes
  unfoldable pub success : Health Cell → Health Cell
  success h = record h { connected = true; last_error = none; consecutive_failure_count = 0 }

  -- `CloudHealthTracker.failure`
  unfoldable pub failure : Text → Health Cell → Health Cell
  failure category h = record h {
    connected = false;
    last_error = some category;
    consecutive_failure_count = h.consecutive_failure_count + 1;
    retry_count = h.retry_count + 1;
  }
