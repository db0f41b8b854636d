-- ===== src/Dashboard/Auth.antt =====
-- dashboard/backend/admin_auth.py. Clock readings are in milliseconds. A client's attempts are the
-- times of its failed logins, oldest first; PINs are ASCII texts, on which the comparison cannot raise.
pub mod Lockout
use progress_claw_machine.Shared.{
  ℕ, ◌+◌, ◌/◌, ◌*◌, ◌≤◌, ℤ, pos, pos_part, scale, ◌+ℤ◌, ◌-ℤ◌, leb, leb_ℤ, ltb, Text, text_eq, Bool,
  true, false, not, ◌&&◌, Option, none, some, List, [], ◌∷◌, ◌++◌, length, if◌then◌else◌,
}

abbrev pub max_attempts : ℕ
max_attempts = 5

-- `ATTEMPT_WINDOW_SECONDS`
abbrev pub attempt_window : ℤ
attempt_window = pos 300000

-- The configuration of the application that the module reads.
pub record AdminConfig : Type 0 where
  pub admin_pin : Text
  pub secret_key : Text
  pub session_seconds : ℤ

-- `_attempts`, and the entry of the session of the request.
pub record AuthState : Type 0 where
  pub attempts : Text → List ℤ
  pub expires_at : Option ℤ

abbrev is_set : Text → Bool
is_set [] = false
is_set (_ ∷ _) = true

unfoldable pub is_configured : AdminConfig → Bool
is_configured c = is_set c.admin_pin && is_set c.secret_key

-- `float(session.get(SESSION_KEY, 0))`
abbrev pub expiry : Option ℤ → ℤ
expiry none = pos 0
expiry (some t) = t

unfoldable pub authenticated : AdminConfig → ℤ → AuthState → Bool × AuthState
unfolding is_configured
authenticated c now s =
    if not (is_configured c)
    then (false, s)
    else if leb_ℤ (expiry s.expires_at) now
    then (false, record s { expires_at = none })
    else (true, s)

-- The status of a session: whether it is configured and active, and its whole seconds left.
pub record SessionStatus : Type 0 where
  pub configured : Bool
  pub active : Bool
  pub expires_in : ℕ

unfoldable pub session_status : AdminConfig → ℤ → AuthState → SessionStatus × AuthState
session_status c now s =
    let (active, t) = authenticated c now s in
    (
      record {
        configured = is_configured c;
        active = active;
        expires_in = pos_part ((if active then expiry t.expires_at else pos 0) -ℤ now) / 1000;
      },
      t,
    )

-- The `while` loop: it pops the oldest attempt, the first, as long as that one has left the window.
-- What is behind an attempt in the window stays.
unfoldable pub forget_old : ℤ → List ℤ → List ℤ
forget_old now [] = []
forget_old now (t ∷ ts) = elim (leb_ℤ t (now -ℤ attempt_window)) [
  | true ↦ forget_old now ts
  | false ↦ t ∷ ts
]

abbrev pub set_attempts : Text → List ℤ → AuthState → AuthState
set_attempts client ts s = record s {
  attempts = λ k. if text_eq k client then ts else s.attempts k;
}

-- `max(1, int(window - (now - oldest)))`, in seconds
unfoldable pub retry_after : ℤ → List ℤ → ℕ
retry_after now [] = 1
retry_after now (oldest ∷ _) =
    let left = pos_part (attempt_window -ℤ (now -ℤ oldest)) / 1000 in if ltb 1 left then left else 1

-- Whether the login passes, and the seconds to wait if it is refused unread.
unfoldable pub authenticate : AdminConfig → Text → Text → ℤ → AuthState → (Bool × ℕ) × AuthState
authenticate c pin client now s =
    let recent = forget_old now (s.attempts client) in
    if leb max_attempts (length recent)
    then ((false, retry_after now recent), set_attempts client recent s)
    else if not (text_eq pin c.admin_pin)
    then ((false, 0), set_attempts client (recent ++ now ∷ []) s)
    else (
      (true, 0),
      record (set_attempts client [] s) { expires_at = some (now +ℤ scale 1000 c.session_seconds) },
    )

unfoldable pub logout : AuthState → AuthState
logout s = record s { expires_at = none }

-- `require_admin`: the view runs, or the request is refused.
unfoldable pub require_admin :
    {A : Type 0} → AdminConfig → ℤ → (AuthState → A × AuthState) → AuthState → Option A × AuthState
require_admin c now view s =
    let (passed, t) = authenticated c now s in
    if passed then (let (x, u) = view t in (some x, u)) else (none, t)
