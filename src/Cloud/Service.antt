-- ===== src/Cloud/Service.antt =====
-- cloud/sync_service.py and cloud/supabase_client.py. Supabase's SDK and the clocks are a parameter,
-- `Backend`. No method raises: an exception of the SDK ends in a result.
pub mod Connected
use progress_claw_machine.Shared.{
  ℕ, ◌+◌, ℤ, pos, ◌+ℤ◌, max_ℤ, ltb_ℤ, Text, codes, Bool, true, false, not, Option, none, some, List,
  [], ◌∷◌, map, if◌then◌else◌,
}
use progress_claw_machine.Shared.Action.{Result, ok, err}
use progress_claw_machine.Cloud.Errors.{Failure, sanitize_error, missing_columns_from_error}
use progress_claw_machine.Cloud.Models.{
  MachineStatus, SyncResult, SchemaResult, expected_columns, SupabaseConfig, is_configured, Health,
  first_health, success, failure,
}

-- What the service calls of the outside. `update` and `insert` tell whether rows came back.
pub record Backend : Type 1 where
  pub World : Type 0
  pub Cell : Type 0
  pub clock : World → ℤ × World
  pub stamp : World → Text × World
  pub create_client : SupabaseConfig → World → Result Failure (Unit {0}) × World
  pub update : Text → MachineStatus → World → Result Failure Bool × World
  pub insert : Text → MachineStatus → World → Result Failure Bool × World
  pub select_columns : Text → List Text → World → Result Failure (Unit {0}) × World
  pub select_machine : Text → Text → World → Result Failure (Option (Text → Option Cell)) × World

module _ (b : Backend) where
  pub record Service : Type 0 where
    pub config : SupabaseConfig
    pub has_sdk : Bool
    pub client : Bool  -- whether the client has been created
    pub last_error_category : Option Text
    pub retry_after : ℤ
    pub last_status : Option MachineStatus
    pub health : Health b.Cell
    pub world : b.World

  -- `CloudSyncService(config)`
  unfoldable pub new_service : SupabaseConfig → Bool → b.World → Service
  unfolding first_health
  new_service config has_sdk world = record {
    config = config;
    has_sdk = has_sdk;
    client = false;
    last_error_category = none;
    retry_after = pos 0;
    last_status = none;
    health = first_health b.Cell config;
    world = world;
  }

  abbrev pub Method : Type 0 → Type 0
  Method A = Service → A × Service

  infixl 10 ◌>>=◌ ◌>>◌
  abbrev ◌>>=◌ : {A B : Type 0} → Method A → (A → Method B) → Method B
  ◌>>=◌ m f s = let (x, t) = m s in f x t

  abbrev ◌>>◌ : {A B : Type 0} → Method A → Method B → Method B
  m >> n = m >>= λ _. n

  abbrev give : {A : Type 0} → A → Method A
  give x s = (x, s)

  abbrev call : {A : Type 0} → (b.World → A × b.World) → Method A
  call f s = let (x, w) = f s.world in (x, record s { world = w })

  abbrev change : (Service → Service) → Method (Unit {0})
  change f s = (tt, f s)

  abbrev on_health : (Health b.Cell → Health b.Cell) → Method (Unit {0})
  on_health f = change (λ s. record s { health = f s.health })

  abbrev by_config : {A : Type 0} → (SupabaseConfig → Method A) → Method A
  by_config f s = f s.config s

  create_result : Result Failure (Unit {0}) → Method Bool
  create_result (ok _) s = (true, record s { client = true; last_error_category = none })
  create_result (err e) s =
      (false, record s { client = false; last_error_category = some (sanitize_error e) })

  -- `SupabaseClient.connect`, while it is not connected
  unfoldable pub client_connect : Method Bool
  unfolding create_result
  client_connect s =
      if not (is_configured s.config)
      then (false, record s { last_error_category = some (codes "not_configured") })
      else if not s.has_sdk
      then (false, record s { last_error_category = some (codes "sdk_unavailable") })
      else (do r ← call (b.create_client s.config); create_result r) s

  abbrev pub disconnect : Service → Service
  disconnect s = record s { client = false }

  -- `category or default`
  abbrev category_or : Text → Option Text → Text
  category_or default none = default
  category_or default (some []) = default
  category_or default (some (c ∷ category)) = c ∷ category

  -- `_schedule_retry`
  unfoldable pub schedule_retry : Text → Method (Unit {0})
  unfolding failure
  schedule_retry category = do
    now ← call b.clock
    change λ s. record s { retry_after = now +ℤ max_ℤ (pos 0) s.config.retry }
    on_health (failure b.Cell category)

  connected_now : Method Bool
  unfolding success
  connected_now = do
    change (λ s. record s { retry_after = pos 0 })
    at ← call b.stamp
    on_health λ h. record (success b.Cell h) { last_successful_connection = some at }
    give true

  refused_now : Method Bool
  unfolding schedule_retry
  refused_now s =
      (do schedule_retry (category_or (codes "cloud_error") s.last_error_category); give false) s

  try_connect : Method Bool
  unfolding client_connect connected_now refused_now
  try_connect = do
    at ← call b.stamp
    on_health λ h. record h { last_connection_attempt = some at }
    made ← client_connect
    (if made then connected_now else refused_now)

  unfoldable pub connect : Method Bool
  unfolding try_connect
  connect s =
      if s.client
      then (true, s)
      else (do now ← call b.clock; (if ltb_ℤ now s.retry_after then give false else try_connect)) s

  abbrev unavailable : SyncResult
  unavailable = record { succeeded = false; retrying = true }

  abbrev done : SyncResult
  done = record { succeeded = true; retrying = false }

  -- The `except` of the methods: disconnect, and retry later.
  recover : {A : Type 0} → Failure → A → Method A
  unfolding schedule_retry
  recover e x = do change disconnect; schedule_retry (sanitize_error e); give x

  -- The insert if the update met no row.
  insert_result : MachineStatus → Result Failure Bool → Method (Result Failure (Unit {0}))
  insert_result status (err e) = give (err e)
  insert_result status (ok true) = give (ok tt)
  insert_result status (ok false) = by_config λ config. do
    r ← call (b.insert config.table_name status)
    give (elim r [ ok _ ↦ ok tt | err e ↦ err e ])

  finish_sync : Result Failure (Unit {0}) → Method SyncResult
  unfolding recover success
  finish_sync (err e) = recover e unavailable
  finish_sync (ok _) = do
    change (λ s. record s { retry_after = pos 0 })
    at ← call b.stamp
    on_health λ h. record (success b.Cell h) { last_successful_sync = some at }
    give done

  -- The `try` of `update_machine_status`.
  unfoldable pub push_status : MachineStatus → Method SyncResult
  unfolding insert_result finish_sync
  push_status status = by_config λ config. do
    r ← call (b.update config.table_name status)
    i ← insert_result status r
    finish_sync i

  unfoldable pub update_machine_status : MachineStatus → Method SyncResult
  update_machine_status status = do
    change (λ s. record s { last_status = some status })
    at ← call b.stamp
    on_health λ h. record h { last_sync_attempt = some at; current_machine_status = some status }
    up ← connect
    (if up then push_status status else give unavailable)

  schema_result : Result Failure (Unit {0}) → Method SchemaResult
  unfolding recover success
  schema_result (err e) = recover e record {
    valid = false;
    missing_columns = missing_columns_from_error e expected_columns;
    error_category = some (sanitize_error e);
  }
  schema_result (ok _) = do
    at ← call b.stamp
    on_health λ h. record (success b.Cell h) { last_successful_connection = some at }
    give (record { valid = true; missing_columns = []; error_category = none })

  no_connection : Method SchemaResult
  no_connection s = (
    record {
      valid = false;
      missing_columns = [];
      error_category = some (category_or (codes "cloud_unavailable") s.health.last_error);
    },
    s,
  )

  unfoldable pub validate_schema : Method SchemaResult
  unfolding schema_result no_connection
  validate_schema = do
    up ← connect
    (if up
        then (by_config λ config. do
          r ← call (b.select_columns config.table_name expected_columns)
          schema_result r)
        else no_connection)

  -- The expected columns of a row.
  abbrev columns_of : (Text → Option b.Cell) → List (Text × Option b.Cell)
  columns_of row = map (λ c. (c, row c)) expected_columns

  unfoldable pub fetch_result : Result Failure (Option (Text → Option b.Cell)) → Method SyncResult
  unfolding recover success
  fetch_result (err e) = recover e unavailable
  fetch_result (ok none) = do
    at ← call b.stamp
    on_health λ h. record h {
      connected = true;
      last_supabase_read = some at;
      last_error = some (codes "record_not_found");
      supabase_machine_status = none;
    }
    give (record { succeeded = false; retrying = false })
  fetch_result (ok (some row)) = do
    at ← call b.stamp
    on_health λ h. record (success b.Cell h) {
      last_supabase_read = some at;
      supabase_machine_status = some (columns_of row);
    }
    give done

  unfoldable pub fetch_machine_status : Method SyncResult
  fetch_machine_status = do
    up ← connect
    (if up
        then (by_config λ config. do
          r ← call (b.select_machine config.table_name config.machine_name)
          fetch_result r)
        else give unavailable)

  -- `_current_status`: a new status takes its time stamp from the clock.
  current_status : Bool → Method MachineStatus
  current_status online s = elim s.last_status [
    | some status ↦ (status, s)
    | none ↦
        let (at, w) = b.stamp s.world in
        (
          record {
            machine_name = s.config.machine_name;
            status = codes "unknown";
            x_position = pos 0;
            y_position = pos 0;
            claw_power = pos 0;
            online = online;
            updated_at = at;
          },
          record s { world = w },
        )
  ]

  unfoldable pub sync_online_state : Bool → Method SyncResult
  unfolding current_status
  sync_online_state online = do
    status ← current_status online
    at ← call b.stamp
    update_machine_status (record status { online = online; updated_at = at })

  unfoldable pub heartbeat : Method SyncResult
  heartbeat = do
    result ← sync_online_state true
    (if result.succeeded
        then (do
          at ← call b.stamp
          on_health λ h. record h { last_heartbeat = some at }
          give result)
        else give result)

  unfoldable pub sync_game_status : Text → ℤ → ℤ → ℤ → Method SyncResult
  sync_game_status status x y power = by_config λ config. do
    at ← call b.stamp
    update_machine_status record {
      machine_name = config.machine_name;
      status = status;
      x_position = x;
      y_position = y;
      claw_power = power;
      online = true;
      updated_at = at;
    }
