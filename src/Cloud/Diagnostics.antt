-- ===== src/Cloud/Diagnostics.antt =====
-- cloud/diagnostics.py: the checks that are run against a live table by hand. The messages that are
-- printed are left out; a line of the summary is a name and whether it passed. The deletion of the test
-- row is a call of Supabase's SDK, so it is a parameter.
pub mod Passed
use progress_claw_machine.Shared.{
  ℤ, pos, Text, codes, Bool, true, false, not, ◌||◌, ◌&&◌, List, [], ◌∷◌, ◌++◌, if◌then◌else◌, ℕ,
}
use progress_claw_machine.Shared.Action.{Result, is_ok}
use progress_claw_machine.Cloud.Errors.{Failure}
use progress_claw_machine.Cloud.Models.{SupabaseConfig, is_configured, expected_columns}
use progress_claw_machine.Cloud.Service.{
  Backend, Service, Method, new_service, connect, validate_schema, sync_online_state, heartbeat,
  sync_game_status,
}

-- `DIAGNOSTIC_MACHINE_NAME`
abbrev pub diagnostic_machine_name : Text
diagnostic_machine_name = codes "CLOUD-DIAGNOSTIC-TEST"

-- The options of `build_parser`.
pub record Arguments : Type 0 where
  pub test_connection : Bool
  pub send_test_status : Bool
  pub beat : Bool
  pub set_offline : Bool
  pub cleanup : Bool
  pub run_all : Bool

abbrev pub Report : Type 0
Report = List (Text × Bool)

abbrev pub passed : Text × Bool → Bool
passed (_, ok) = ok

-- `all(ok for _, ok, _ in results)`
abbrev pub all_passed : Report → Bool
all_passed [] = true
all_passed (r ∷ rs) = passed r && all_passed rs

-- `if not results`
abbrev pub or_nothing : Report → Report
or_nothing [] = (codes "diagnostics", false) ∷ []
or_nothing (r ∷ rs) = r ∷ rs

module _ (b : Backend) where
  -- `diagnostic_service`
  abbrev pub diagnostic_service : SupabaseConfig → Bool → b.World → Service b
  diagnostic_service config =
      new_service b (record config { machine_name = diagnostic_machine_name })

  abbrev pub test_schema : Method b Bool
  test_schema s = let (r, t) = validate_schema b s in (r.valid, t)

  abbrev pub test_status : Method b Bool
  test_status s =
      let (r, t) = sync_game_status b (codes "diagnostic") (pos 1) (pos 2) (pos 50) s in
      (r.succeeded, t)

  abbrev pub test_heartbeat : Method b Bool
  test_heartbeat s = let (r, t) = heartbeat b s in (r.succeeded, t)

  abbrev pub test_offline : Method b Bool
  test_offline s = let (r, t) = sync_online_state b false s in (r.succeeded, t)

  -- One `if` of `run_diagnostics`.
  unfoldable pub run_check : Bool → Text → Method b Bool → Report → Method b Report
  run_check wanted name check results s =
      if wanted then (let (ok, t) = check s in (results ++ (name, ok) ∷ [], t)) else (results, s)

module _ (b : Backend) (delete : Text → Text → b.World → Result Failure (Unit {0}) × b.World) where
  -- `_cleanup_test_record`
  unfoldable pub cleanup_test_record : Method b Bool
  cleanup_test_record s =
      let (up, t) = connect b s in
      if up
      then (let (r, w) = delete t.config.table_name diagnostic_machine_name t.world in
          (is_ok r, record t { world = w }))
      else (false, t)

  unfoldable pub run_checks : Arguments → Method b Report
  run_checks args s0 =
      let (r1, s1) =
        run_check b (args.test_connection || args.run_all) (codes "connection and schema")
          (test_schema b) [] s0 in
      let (r2, s2) =
        run_check b (args.send_test_status || args.run_all) (codes "test status") (test_status b) r1
          s1 in
      let (r3, s3) =
        run_check b (args.beat || args.run_all) (codes "heartbeat") (test_heartbeat b) r2 s2 in
      let (r4, s4) =
        run_check b (args.set_offline || args.run_all) (codes "set offline") (test_offline b) r3
          s3 in
      run_check b args.cleanup (codes "cleanup") cleanup_test_record r4 s4

  -- `run_diagnostics`: the exit code and the lines of the summary.
  unfoldable pub run_diagnostics : Arguments → Method b (ℕ × Report)
  run_diagnostics args s =
      if not (is_configured s.config)
      then ((1, (codes "configuration", false) ∷ []), s)
      else (let (checks, t) = run_checks args s in
          let results = or_nothing checks in ((if all_passed results then 0 else 1, results), t))
