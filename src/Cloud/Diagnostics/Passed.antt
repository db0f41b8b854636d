-- ===== src/Cloud/Diagnostics/Passed.antt =====
-- cloud/diagnostics.py: the exit code, and what the checks leave.
use progress_claw_machine.Shared.{
  ℕ, pos, Text, codes, ◌≡◌, ◌≢◌, refl, sym, ap, ◌∙◌, Bool, true, false, ◌||◌, ◌&&◌, Bool-cases, inl,
  inr, some, List, [], ◌∷◌, ◌++◌, map, if◌then◌else◌, arith,
}
use progress_claw_machine.Shared.Action.{Result}
use progress_claw_machine.Cloud.Errors.{Failure}
use progress_claw_machine.Cloud.Models.{MachineStatus, is_configured}
use progress_claw_machine.Cloud.Service.{Backend, Service, Method}
use progress_claw_machine.Cloud.Service.Connected.{
  IsInStep, connect-IsInStep, connect_up, connect_keeps, validate_schema-IsInStep,
  sync_online_state-IsInStep, heartbeat-IsInStep, sync_game_status-IsInStep, validate_schema_up,
  sync_online_state_outcome, heartbeat_up, sync_game_status_up,
}
use progress_claw_machine.Cloud.Diagnostics.{
  Arguments, Report, all_passed, test_schema, test_status, test_heartbeat, test_offline,
  cleanup_test_record, run_check, run_checks, run_diagnostics, or_nothing,
}

abbrev pub check_name : Text × Bool → Text
check_name (name, _) = name

abbrev is_empty : Report → Bool
is_empty [] = true
is_empty (_ ∷ _) = false

-- The names of the selected checks, in the order in which they are run.
abbrev pub selected : Arguments → List Text
selected args =
    ((((if args.test_connection || args.run_all then codes "connection and schema" ∷ [] else [])
          ++ (if args.send_test_status || args.run_all then codes "test status" ∷ [] else []))
        ++ (if args.beat || args.run_all then codes "heartbeat" ∷ [] else []))
      ++ (if args.set_offline || args.run_all then codes "set offline" ∷ [] else []))
    ++ (if args.cleanup then codes "cleanup" ∷ [] else [])

-- The service is synchronised with an offline row.
abbrev pub IsOffline : {b : Backend} → Service b → Type 0
IsOffline s = (status : MachineStatus) × (s.last_status ≡ some status) × (status.online ≡ false)

map-append : (rs qs : Report) → map check_name (rs ++ qs) ≡ map check_name rs ++ map check_name qs
map-append [] qs = refl
map-append (r ∷ rs) qs = ap (λ ns. check_name r ∷ ns) (map-append rs qs)

all_passed-append : (rs qs : Report) → all_passed (rs ++ qs) ≡ (all_passed rs && all_passed qs)
all_passed-append [] qs = refl
all_passed-append (r ∷ rs) qs = ground (arith, all_passed-append rs qs)

append_nil : (ns : List Text) → ns ++ [] ≡ ns
append_nil [] = refl
append_nil (n ∷ ns) = ap (λ ms. n ∷ ms) (append_nil ns)

nonempty : (r : Text × Bool) (rs : Report) → map check_name (r ∷ rs) ≢ []
nonempty r rs h = ground (arith, h)

zero_code : (p : Bool) → ◌≡◌ {A = ℕ} (if p then 0 else 1) 0 → p ≡ true
zero_code true h = refl
zero_code false h = ground arith

module _ {b : Backend} where
  -- A check keeps the service in step, and leaves it connected if it passes.
  record IsSound (check : Method b Bool) : Type 0 where
    in_step : (s : Service b) → IsInStep s → IsInStep (check s).1
    up : (s : Service b) → (check s).0 ≡ true → (check s).1.client ≡ true

  record IsChecked (names : List Text) (rs : Report) (s : Service b) : Type 0 where
    in_step : IsInStep s
    named : map check_name rs ≡ names
    up : all_passed rs ≡ true → is_empty rs ≡ false → s.client ≡ true

  run_check-IsChecked :
      (wanted : Bool) (name : Text) (check : Method b Bool) (names : List Text) (rs : Report)
      (s : Service b)
      → IsSound check
      → IsChecked names rs s
      → let (qs, t) = run_check b wanted name check rs s in
        IsChecked (names ++ (if wanted then name ∷ [] else [])) qs t
  unfolding run_check
  run_check-IsChecked false name check names rs s c h = record {
    in_step = h.in_step;
    named = h.named ∙ sym (append_nil names);
    up = h.up;
  }
  run_check-IsChecked true name check names rs s c h = record {
    in_step = c.in_step s h.in_step;
    named = map-append rs ((name, (check s).0) ∷ []) ∙ ap (λ ns. ns ++ name ∷ []) h.named;
    up = λ p _. c.up s ground (arith, all_passed-append rs ((name, (check s).0) ∷ []));
  }

  test_schema-IsSound : IsSound (test_schema b)
  test_schema-IsSound = record {
    in_step = validate_schema-IsInStep b;
    up = λ s h. sym (validate_schema_up b s) ∙ h;
  }

  test_status-IsSound : IsSound (test_status b)
  test_status-IsSound = record {
    in_step = sync_game_status-IsInStep b (codes "diagnostic") (pos 1) (pos 2) (pos 50);
    up = λ s h. sym (sync_game_status_up b (codes "diagnostic") (pos 1) (pos 2) (pos 50) s) ∙ h;
  }

  test_heartbeat-IsSound : IsSound (test_heartbeat b)
  test_heartbeat-IsSound = record {
    in_step = heartbeat-IsInStep b;
    up = λ s h. sym (heartbeat_up b s) ∙ h;
  }

  test_offline-IsSound : IsSound (test_offline b)
  test_offline-IsSound = record {
    in_step = sync_online_state-IsInStep b false;
    up = λ s h. sym ((sync_online_state_outcome b false s).0) ∙ h;
  }

  checked_names :
      (names : List Text) (rs : Report) (s : Service b)
      → IsChecked names rs s
      → all_passed (or_nothing rs) ≡ true
      → (names ≢ [])
        × (map check_name (or_nothing rs) ≡ names)
        × (all_passed (or_nothing rs) ≡ true)
        × (s.client ≡ true)
  checked_names names [] s h p = ground arith
  checked_names names (r ∷ rs) s h p = ((λ e. nonempty r rs (h.named ∙ e)), h.named, p, h.up p refl)

module _ (b : Backend) (delete : Text → Text → b.World → Result Failure (Unit {0}) × b.World) where
  cleanup_test_record-IsSound : IsSound (cleanup_test_record b delete)
  unfolding cleanup_test_record
  cleanup_test_record-IsSound = record {
    in_step = λ s h. ground (arith, connect-IsInStep b s h);
    up = λ s h. ground (arith, connect_up b s);
  }

  cleanup_test_record_keeps :
      (s : Service b) → (cleanup_test_record b delete s).1.last_status ≡ s.last_status
  unfolding cleanup_test_record
  cleanup_test_record_keeps s = ground (arith, connect_keeps b s)

  run_checks-IsChecked :
      (args : Arguments) (s : Service b)
      → IsInStep s
      → let (rs, t) = run_checks b delete args s in IsChecked (selected args) rs t
  unfolding run_checks
  run_checks-IsChecked args s h =
      run_check-IsChecked args.cleanup _ _ _ _ _ cleanup_test_record-IsSound (
        run_check-IsChecked (args.set_offline || args.run_all) _ _ _ _ _ test_offline-IsSound (
          run_check-IsChecked (args.beat || args.run_all) _ _ _ _ _ test_heartbeat-IsSound (
            run_check-IsChecked (args.send_test_status || args.run_all) _ _ _ _ _
              test_status-IsSound
              (run_check-IsChecked (args.test_connection || args.run_all) _ _ [] [] s
                test_schema-IsSound
                (record { in_step = h; named = refl; up = λ p e. ground arith })))))

  run_last :
      (wanted : Bool) (name : Text) (rs : Report) (s : Service b)
      → wanted ≡ true
      → IsOffline (run_check b wanted name (test_offline b) rs s).1
  unfolding run_check
  run_last true name rs s h = (sync_online_state_outcome b false s).1
  run_last false name rs s h = ground arith

  run_cleanup :
      (wanted : Bool) (name : Text) (rs : Report) (s : Service b)
      → IsOffline s
      → IsOffline (run_check b wanted name (cleanup_test_record b delete) rs s).1
  unfolding run_check
  run_cleanup true name rs s (status, kept, off) = (status, cleanup_test_record_keeps s ∙ kept, off)
  run_cleanup false name rs s h = h

  -- If it is asked for, the last row that the service synchronises says offline.
  run_checks-IsOffline :
      (args : Arguments) (s : Service b)
      → (args.set_offline || args.run_all) ≡ true
      → IsOffline (run_checks b delete args s).1
  unfolding run_checks
  run_checks-IsOffline args s h =
      run_cleanup args.cleanup _ _ _ (run_last (args.set_offline || args.run_all) _ _ _ h)

  -- The diagnostics, from a service whose health record is true to it, end with exit code 0 only if
  -- the cloud is configured and something was selected; the checks that ran are then the selected
  -- ones in their order, each with a pass; the service is connected at the end, and its health record
  -- is true to it again.
  pub run_diagnostics-passed :
      (args : Arguments) (s : Service b)
      → IsInStep s
      → (run_diagnostics b delete args s).0.0 ≡ 0
      → let ((code, report), t) = run_diagnostics b delete args s in
        (is_configured s.config ≡ true)
        × (selected args ≢ [])
        × (map check_name report ≡ selected args)
        × (all_passed report ≡ true)
        × (t.client ≡ true)
        × IsInStep t
  unfolding run_diagnostics
  run_diagnostics-passed args s h zero = elim (Bool-cases (is_configured s.config)) [
    | inl there ↦ rw there (
        let (rs, t) = run_checks b delete args s in
        let c = run_checks-IsChecked args s h in
        let (some_check, named, all_ok, up) =
          checked_names (selected args) rs t c (zero_code _ (ground arith)) in
        (refl, some_check, named, all_ok, up, c.in_step))
    | inr missing ↦ ground arith
  ]
