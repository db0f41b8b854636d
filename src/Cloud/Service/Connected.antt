-- ===== src/Cloud/Service/Connected.antt =====
-- What the health record says of the connection, and what a failing cloud leaves alone.
use progress_claw_machine.Cloud.Errors.{Failure}
use progress_claw_machine.Shared.{
  ◌≤◌, List, [], ◌∷◌, not, ℤ, pos, ltb_ℤ, ◌≡◌, refl, Bool, true, false, Option, none, some, Text,
  arith,
}
use progress_claw_machine.Shared.Action.{Result, ok, err}
use progress_claw_machine.Cloud.Models.{MachineStatus, SupabaseConfig}
use progress_claw_machine.Cloud.Service.{
  Backend, Service, new_service, connect, push_status, update_machine_status, validate_schema,
  fetch_machine_status, sync_online_state, heartbeat, sync_game_status, fetch_result,
  current_status,
}

-- The health record shows the client as connected exactly if it is, and then no failure is counted
-- and no retry is waited for; never more failures in a row than retries.
pub record IsInStep {b : Backend} (s : Service b) : Type 0 where
  pub shown : s.health.connected ≡ s.client
  pub no_failures : s.client ≡ true → s.health.consecutive_failure_count ≡ 0
  pub no_wait : s.client ≡ true → s.retry_after ≡ pos 0
  pub counted : s.health.consecutive_failure_count ≤ s.health.retry_count

module _ (b : Backend) where
  pub connect-IsInStep : (s : Service b) → IsInStep s → IsInStep (connect b s).1
  unfolding connect
  connect-IsInStep s h = ground arith

  pub connect_up : (s : Service b) → (connect b s).0 ≡ (connect b s).1.client
  unfolding connect
  connect_up s = ground arith

  push_status-IsInStep :
      (status : MachineStatus) (s : Service b)
      → s.client ≡ true
      → IsInStep s
      → IsInStep (push_status b status s).1
  unfolding push_status
  push_status-IsInStep status s up h = ground arith

  update_machine_status-IsInStep :
      (status : MachineStatus) (s : Service b)
      → IsInStep s
      → IsInStep (update_machine_status b status s).1
  unfolding update_machine_status
  update_machine_status-IsInStep status s h =
      let (at, w) = b.stamp s.world in
      let t : Service b = record s {
        last_status = some status;
        world = w;
        health = record s.health {
          last_sync_attempt = some at;
          current_machine_status = some status;
        };
      } in
      let t' = (connect b t).1 in
      ground
        (arith, connect_up t, connect-IsInStep t (ground arith), push_status-IsInStep status t')

  pub validate_schema-IsInStep : (s : Service b) → IsInStep s → IsInStep (validate_schema b s).1
  unfolding validate_schema
  validate_schema-IsInStep s h = ground (arith, connect_up s, connect-IsInStep s h)

  fetch_result-IsInStep :
      (r : Result Failure (Option (Text → Option b.Cell))) (s : Service b)
      → s.client ≡ true
      → IsInStep s
      → IsInStep (fetch_result b r s).1
  unfolding fetch_result
  fetch_result-IsInStep (ok none) s up h = ground arith
  fetch_result-IsInStep (ok (some row)) s up h = ground arith
  fetch_result-IsInStep (err e) s up h = ground arith

  pub fetch_machine_status-IsInStep :
      (s : Service b) → IsInStep s → IsInStep (fetch_machine_status b s).1
  unfolding fetch_machine_status
  fetch_machine_status-IsInStep s h =
      let t = (connect b s).1 in
      let (r, w) = b.select_machine t.config.table_name t.config.machine_name t.world in
      ground (
        arith,
        connect_up s,
        connect-IsInStep s h,
        fetch_result-IsInStep r (record t { world = w }),
      )

  pub sync_online_state-IsInStep :
      (online : Bool) (s : Service b) → IsInStep s → IsInStep (sync_online_state b online s).1
  unfolding sync_online_state
  sync_online_state-IsInStep online s h =
      let (status, t) = current_status b online s in
      let (at, w) = b.stamp t.world in
      update_machine_status-IsInStep (record status { online = online; updated_at = at })
        (record t { world = w }) (ground arith)

  pub heartbeat-IsInStep : (s : Service b) → IsInStep s → IsInStep (heartbeat b s).1
  unfolding heartbeat
  heartbeat-IsInStep s h = ground (arith, sync_online_state-IsInStep true s h)

  pub sync_game_status-IsInStep :
      (status : Text) (x y power : ℤ) (s : Service b)
      → IsInStep s
      → IsInStep (sync_game_status b status x y power s).1
  unfolding sync_game_status
  sync_game_status-IsInStep status x y power s h =
      let (at, w) = b.stamp s.world in
      update_machine_status-IsInStep _ (record s { world = w }) (ground arith)

  -- A call of a client of the service.
  pub data Call : Type 0 where
    connected synced_schema fetched beat : Call
    pushed : MachineStatus → Call
    online_set : Bool → Call
    game_set : Text → ℤ → ℤ → ℤ → Call

  pub perform : Call → Service b → Service b
  perform connected s = (connect b s).1
  perform synced_schema s = (validate_schema b s).1
  perform fetched s = (fetch_machine_status b s).1
  perform beat s = (heartbeat b s).1
  perform (pushed status) s = (update_machine_status b status s).1
  perform (online_set online) s = (sync_online_state b online s).1
  perform (game_set status x y power) s = (sync_game_status b status x y power s).1

  pub perform_all : List Call → Service b → Service b
  perform_all [] s = s
  perform_all (c ∷ cs) s = perform_all cs (perform c s)

  perform-IsInStep : (c : Call) (s : Service b) → IsInStep s → IsInStep (perform c s)
  unfolding perform
  perform-IsInStep connected s h = connect-IsInStep s h
  perform-IsInStep synced_schema s h = validate_schema-IsInStep s h
  perform-IsInStep fetched s h = fetch_machine_status-IsInStep s h
  perform-IsInStep beat s h = heartbeat-IsInStep s h
  perform-IsInStep (pushed status) s h = update_machine_status-IsInStep status s h
  perform-IsInStep (online_set online) s h = sync_online_state-IsInStep online s h
  perform-IsInStep (game_set status x y power) s h = sync_game_status-IsInStep status x y power s h

  perform_all-keeps : (cs : List Call) (s : Service b) → IsInStep s → IsInStep (perform_all cs s)
  unfolding perform_all
  perform_all-keeps [] s h = h
  perform_all-keeps (c ∷ cs) s h = perform_all-keeps cs (perform c s) (perform-IsInStep c s h)

  pub new_service-IsInStep :
      (config : SupabaseConfig) (has_sdk : Bool) (world : b.World)
      → IsInStep (new_service b config has_sdk world)
  unfolding new_service
  new_service-IsInStep config has_sdk world = record {
    shown = refl;
    no_failures = λ h. cc;
    no_wait = λ h. cc;
    counted = omega arith;
  }

  -- After any calls on a new service, whatever the SDK answers, the health record shows the service
  -- as connected exactly if it has a client, and then counts no failure in a row and waits for no
  -- retry; and there are never more failures in a row than retries.
  pub IsInStep-perform_all :
      (config : SupabaseConfig) (has_sdk : Bool) (world : b.World) (cs : List Call)
      → IsInStep (perform_all cs (new_service b config has_sdk world))
  IsInStep-perform_all config has_sdk world cs =
      perform_all-keeps cs _ (new_service-IsInStep config has_sdk world)

  -- While a retry is waited for, `connect` on a service without a client gives false and calls
  -- nothing but the clock.
  pub connect_throttled :
      (s : Service b)
      → s.client ≡ false
      → ltb_ℤ (b.clock s.world).0 s.retry_after ≡ true
      → connect b s ≡ (false, record s { world = (b.clock s.world).1 })
  unfolding connect
  connect_throttled s c w = ground arith

  pub connect_keeps :
      (s : Service b)
      → ((connect b s).1.last_status ≡ s.last_status)
        × ((connect b s).1.health.current_machine_status ≡ s.health.current_machine_status)
  unfolding connect
  connect_keeps s = ground arith

  push_status_outcome :
      (status : MachineStatus) (s : Service b)
      → s.client ≡ true
      → let (r, t) = push_status b status s in
        (t.last_status ≡ s.last_status)
        × (r.succeeded ≡ t.client)
        × (r.retrying ≡ not t.client)
        × (t.health.current_machine_status ≡ s.health.current_machine_status)
  unfolding push_status
  push_status_outcome status s up = ground arith

  -- A synchronisation always remembers the status for the next one, and tells failure by its result
  -- alone: it succeeds exactly if the service is connected afterwards, and asks for a retry exactly
  -- if it fails.
  pub update_machine_status_outcome :
      (status : MachineStatus) (s : Service b)
      → let (r, t) = update_machine_status b status s in
        (t.last_status ≡ some status)
        × (r.succeeded ≡ t.client)
        × (r.retrying ≡ not t.client)
        × (t.health.current_machine_status ≡ some status)
  unfolding update_machine_status
  update_machine_status_outcome status s =
      let (at, w) = b.stamp s.world in
      let t : Service b = record s {
        last_status = some status;
        world = w;
        health = record s.health {
          last_sync_attempt = some at;
          current_machine_status = some status;
        };
      } in
      ground (arith, connect_up t, connect_keeps t, push_status_outcome status (connect b t).1)

  -- What a call gives that has gone through leaves the service connected.
  pub validate_schema_up :
      (s : Service b) → (validate_schema b s).0.valid ≡ (validate_schema b s).1.client
  unfolding validate_schema
  validate_schema_up s = ground (arith, connect_up s)

  pub sync_online_state_outcome :
      (online : Bool) (s : Service b)
      → let (r, t) = sync_online_state b online s in
        (r.succeeded ≡ t.client)
        × ((status : MachineStatus) × (t.last_status ≡ some status) × (status.online ≡ online))
  unfolding sync_online_state
  sync_online_state_outcome online s =
      let (status, t) = current_status b online s in
      let (at, w) = b.stamp t.world in
      let sent : MachineStatus = record status { online = online; updated_at = at } in
      let (kept, up, _, _) = update_machine_status_outcome sent (record t { world = w }) in
      (up, (sent, kept, refl))

  pub heartbeat_up : (s : Service b) → (heartbeat b s).0.succeeded ≡ (heartbeat b s).1.client
  unfolding heartbeat
  heartbeat_up s = ground (arith, (sync_online_state_outcome true s).0)

  pub sync_game_status_up :
      (status : Text) (x y power : ℤ) (s : Service b)
      → let (r, t) = sync_game_status b status x y power s in r.succeeded ≡ t.client
  unfolding sync_game_status
  sync_game_status_up status x y power s =
      let (at, w) = b.stamp s.world in
      let (_, up, _, _) =
        update_machine_status_outcome
          (record {
            machine_name = s.config.machine_name;
            status = status;
            x_position = x;
            y_position = y;
            claw_power = power;
            online = true;
            updated_at = at;
          })
          (record s { world = w }) in
      up

  pub fetch_machine_status_up :
      (s : Service b)
      → (fetch_machine_status b s).0.succeeded ≡ true
      → (fetch_machine_status b s).1.client ≡ true
  unfolding fetch_machine_status fetch_result
  fetch_machine_status_up s h = ground (arith, connect_up s)
