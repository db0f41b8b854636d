-- ===== src/Tests/Cloud.antt =====
-- The theorems of cloud/ over a simulated cloud that is never reached.
use progress_claw_machine.Shared.{
  ℤ, pos, codes, Text, ◌≡◌, ◌≢◌, refl, true, false, map, none, [], ◌∷◌,
}
use progress_claw_machine.Shared.Action.{Result, ok, err}
use progress_claw_machine.Cloud.Errors.{Failure}
use progress_claw_machine.Cloud.Models.{MachineStatus, SupabaseConfig}
use progress_claw_machine.Cloud.Service.{
  Backend, Service, new_service, validate_schema, connect, sync_game_status, update_machine_status,
  push_status, heartbeat, sync_online_state,
}
use progress_claw_machine.Cloud.Diagnostics.{
  Arguments, all_passed, diagnostic_machine_name, diagnostic_service, run_diagnostics, run_checks,
  run_check, cleanup_test_record,
}
use progress_claw_machine.Cloud.Diagnostics.Passed.{check_name, selected, run_diagnostics-passed}
use progress_claw_machine.Cloud.Service.Connected.{
  new_service-IsInStep, IsInStep, connected, beat, pushed, perform_all, IsInStep-perform_all,
}

abbrev lost : Failure
lost = record {
  type_name = codes "APIError";
  message = codes "dns";
  is_timeout = false;
  is_connection = false;
}

-- The world is the clock reading, which does not go on.
abbrev unreachable : Backend
unreachable = record {
  World = ℤ;
  Cell = ℤ;
  clock = λ w. (w, w);
  stamp = λ w. ([], w);
  create_client = λ c w. (err lost, w);
  update = λ t s w. (err lost, w);
  insert = λ t s w. (err lost, w);
  select_columns = λ t cs w. (err lost, w);
  select_machine = λ t m w. (err lost, w);
}

abbrev config : SupabaseConfig
config = record {
  url = codes "https://claw";
  key = codes "key";
  machine_name = codes "claw";
  table_name = codes "machine_status";
  retry = pos 30000;
  sync_interval = pos 5000;
}

abbrev status_row : MachineStatus
status_row = record {
  machine_name = codes "claw";
  status = codes "ready";
  x_position = pos 0;
  y_position = pos 0;
  claw_power = pos 60;
  online = true;
  updated_at = [];
}

IsInStep-perform_all_example : IsInStep (
    perform_all unreachable
      (connected ∷ beat ∷ pushed status_row ∷ [])
      (new_service unreachable config true (pos 1000)))
IsInStep-perform_all_example =
    IsInStep-perform_all unreachable config true (pos 1000)
      (connected ∷ beat ∷ pushed status_row ∷ [])

-- A cloud that takes everything.
abbrev willing : Backend
willing = record {
  World = ℤ;
  Cell = ℤ;
  clock = λ w. (w, w);
  stamp = λ w. ([], w);
  create_client = λ c w. (ok tt, w);
  update = λ t s w. (ok true, w);
  insert = λ t s w. (ok true, w);
  select_columns = λ t cs w. (ok tt, w);
  select_machine = λ t m w. (ok none, w);
}

abbrev removed : Text → Text → ℤ → Result Failure (Unit {0}) × ℤ
removed table machine w = (ok tt, w)

abbrev everything : Arguments
everything = record {
  test_connection = false;
  send_test_status = false;
  beat = false;
  set_offline = false;
  cleanup = true;
  run_all = true;
}

abbrev fresh : Service willing
fresh = diagnostic_service willing config true (pos 1000)

five_checks : (run_diagnostics willing removed everything fresh).0.0 ≡ 0
unfolding run_diagnostics new_service run_checks run_check validate_schema connect sync_game_status
    update_machine_status push_status heartbeat sync_online_state cleanup_test_record
five_checks = refl

run_diagnostics-passed_example :
    let ((code, report), t) = run_diagnostics willing removed everything fresh in
    (true ≡ true)
    × (selected everything ≢ [])
    × (map check_name report ≡ selected everything)
    × (all_passed report ≡ true)
    × (t.client ≡ true)
    × IsInStep t
unfolding new_service
run_diagnostics-passed_example =
    run_diagnostics-passed willing removed everything fresh
      (new_service-IsInStep willing (record config { machine_name = diagnostic_machine_name }) true
        (pos 1000))
      five_checks
