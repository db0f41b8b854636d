-- ===== src/Cloud/Errors.antt =====
-- cloud/errors.py: failures as categories without their details.
use progress_claw_machine.Shared.{
  Text, codes, lower, Bool, ◌||◌, List, [], ◌∷◌, any, keep, map, if◌then◌else◌,
}
use progress_claw_machine.Game.Rules.{has_part}

-- What the code reads of an exception: its type's name, its text, and whether it is a `TimeoutError`,
-- or a `ConnectionError` or `OSError`.
pub record Failure : Type 0 where
  pub type_name : Text
  pub message : Text
  pub is_timeout : Bool
  pub is_connection : Bool

abbrev mentions : Text → List Text → Bool
mentions message tokens = any (λ t. has_part t message) tokens

unfoldable pub sanitize_error : Failure → Text
sanitize_error e =
    let name = map lower e.type_name in
    let message = map lower e.message in
    if e.is_timeout || has_part (codes "timeout") name
    then codes "timeout"
    else if mentions message (codes "jwt" ∷ codes "unauthorized" ∷ codes "invalid api key" ∷ [])
    then codes "invalid_credentials"
    else if mentions message (codes "row-level security" ∷ codes "rls" ∷ codes "permission" ∷ [])
    then codes "rls_permission_denied"
    else if mentions message (codes "column" ∷ codes "42703" ∷ codes "schema cache" ∷ [])
    then codes "schema_mismatch"
    else if mentions message (codes "does not exist" ∷ codes "not found" ∷ codes "42p01" ∷ [])
    then codes "missing_table"
    else if e.is_connection
        || mentions message (codes "network" ∷ codes "connection" ∷ codes "dns" ∷ [])
    then codes "network_error"
    else codes "cloud_error"

unfoldable pub missing_columns_from_error : Failure → List Text → List Text
missing_columns_from_error e columns =
    keep (λ c. has_part (map lower c) (map lower e.message)) columns
