-- ===== src/Cloud/Routes.antt =====
-- cloud/routes.py: the blueprint that shows a diagnostic service of its own. An answer has no message,
-- and no data beside the health record, which holds the row that was read. A page that is rendered from a
-- template is left out.
use progress_claw_machine.Shared.{
  pos, Text, codes, ◌≡◌, ◌≢◌, refl, sym, ◌∙◌, Bool, true, Option, none, some, List, [], ◌∷◌, arith,
}
use progress_claw_machine.Cloud.Models.{Health, SchemaResult, SyncResult, SupabaseConfig}
use progress_claw_machine.Cloud.Service.{
  Backend, Service, validate_schema, fetch_machine_status, heartbeat, sync_game_status,
}
use progress_claw_machine.Cloud.Service.Connected.{
  IsInStep, new_service-IsInStep, validate_schema_up, validate_schema-IsInStep,
  fetch_machine_status-IsInStep, fetch_machine_status_up, heartbeat_up, heartbeat-IsInStep,
  sync_game_status_up, sync_game_status-IsInStep,
}
use progress_claw_machine.Cloud.Diagnostics.{diagnostic_service}

pub data Request : Type 0 where
  get_health test_connection send_test_status send_heartbeat load_supabase_data : Request

module _ (b : Backend) where
  -- `_result_payload`, or the health record alone for `get_health`, which has no action.
  pub record ActionAnswer : Type 0 where
    pub action : Option Text
    pub succeeded : Bool
    pub schema : Option SchemaResult
    pub health : Health b.Cell

  abbrev result_payload : Text → Bool → Service b → ActionAnswer
  result_payload action ok s = record {
    action = some action;
    succeeded = ok;
    schema = none;
    health = s.health;
  }

  abbrev of_sync : Text → SyncResult × Service b → ActionAnswer × Service b
  of_sync action (r, s) = (result_payload action r.succeeded s, s)

  unfoldable pub answer : Request → Service b → ActionAnswer × Service b
  answer get_health s =
      (record { action = none; succeeded = true; schema = none; health = s.health }, s)
  answer test_connection s =
      let (r, t) = validate_schema b s in
      (record (result_payload (codes "test_connection") r.valid t) { schema = some r }, t)
  answer send_test_status s =
      of_sync (codes "send_test_status")
        (sync_game_status b (codes "diagnostic") (pos 1) (pos 2) (pos 50) s)
  answer send_heartbeat s = of_sync (codes "heartbeat") (heartbeat b s)
  answer load_supabase_data s = of_sync (codes "load_supabase_data") (fetch_machine_status b s)

  unfoldable pub answer_all : List Request → Service b → Service b
  answer_all [] s = s
  answer_all (q ∷ qs) s = answer_all qs (answer q s).1

  answer-IsInStep : (q : Request) (s : Service b) → IsInStep s → IsInStep (answer q s).1
  unfolding answer
  answer-IsInStep get_health s h = h
  answer-IsInStep test_connection s h = validate_schema-IsInStep b s h
  answer-IsInStep send_test_status s h =
      sync_game_status-IsInStep b (codes "diagnostic") (pos 1) (pos 2) (pos 50) s h
  answer-IsInStep send_heartbeat s h = heartbeat-IsInStep b s h
  answer-IsInStep load_supabase_data s h = fetch_machine_status-IsInStep b s h

  answer_all-IsInStep :
      (qs : List Request) (s : Service b) → IsInStep s → IsInStep (answer_all qs s)
  unfolding answer_all
  answer_all-IsInStep [] s h = h
  answer_all-IsInStep (q ∷ qs) s h = answer_all-IsInStep qs (answer q s).1 (answer-IsInStep q s h)

  answer_up :
      (q : Request) (s : Service b)
      → q ≢ get_health
      → (answer q s).0.succeeded ≡ true
      → (answer q s).1.client ≡ true
  unfolding answer
  answer_up get_health s n h = ground (arith, n refl)
  answer_up test_connection s n h = sym (validate_schema_up b s) ∙ h
  answer_up send_test_status s n h =
      sym (sync_game_status_up b (codes "diagnostic") (pos 1) (pos 2) (pos 50) s) ∙ h
  answer_up send_heartbeat s n h = sym (heartbeat_up b s) ∙ h
  answer_up load_supabase_data s n h = fetch_machine_status_up b s h

  answer_health : (q : Request) (s : Service b) → (answer q s).0.health ≡ (answer q s).1.health
  unfolding answer
  answer_health get_health s = refl
  answer_health test_connection s = refl
  answer_health send_test_status s = refl
  answer_health send_heartbeat s = refl
  answer_health load_supabase_data s = refl

  -- After any requests to the blueprint's own service, an action that answers with success answers
  -- with a health record that is connected and counts no failure in a row.
  answer_healthy :
      (config : SupabaseConfig) (has_sdk : Bool) (world : b.World) (qs : List Request) (q : Request)
      → let s = answer_all qs (diagnostic_service b config has_sdk world) in
        q ≢ get_health
        → (answer q s).0.succeeded ≡ true
        → ((answer q s).0.health.connected ≡ true)
          × ((answer q s).0.health.consecutive_failure_count ≡ 0)
  answer_healthy config has_sdk world qs q n h =
      let s = answer_all qs (diagnostic_service b config has_sdk world) in
      let i =
        answer-IsInStep q s (answer_all-IsInStep qs _ (new_service-IsInStep b _ has_sdk world)) in
      let up = answer_up q s n h in rw (answer_health q s) (i.shown ∙ up, i.no_failures up)
