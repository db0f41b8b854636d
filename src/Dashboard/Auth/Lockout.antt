-- ===== src/Dashboard/Auth/Lockout.antt =====
-- Who gets in, and when a client is locked out.
use progress_claw_machine.Shared.{
  ◌≤◌, ◌<◌, ℤ, pos, ◌-ℤ◌, leb_ℤ, All, ◌++◌, ap, ◌∙◌, refl, Text, text_eq, text_eq_refl, ◌≡◌, ◌↔◌,
  true, false, is_some, List, [], ◌∷◌, length, length-append, arith,
}
use progress_claw_machine.Dashboard.Auth.{
  AdminConfig, AuthState, is_configured, expiry, authenticated, forget_old, retry_after,
  authenticate, require_admin,
}

-- The first of some failed logins, if there is one, is in the window of five minutes before now.
abbrev pub StartsRecent : ℤ → List ℤ → Type 0
StartsRecent now [] = Unit {0}
StartsRecent now (t ∷ ts) = leb_ℤ t (now -ℤ pos 300000) ≡ false

-- What the loop keeps, told without it: the rest behind a row of attempts that have left the window.
forget_old-append :
    (now : ℤ) (old kept : List ℤ)
    → All (λ t. leb_ℤ t (now -ℤ pos 300000) ≡ true) old
    → StartsRecent now kept
    → forget_old now (old ++ kept) ≡ kept
unfolding forget_old
forget_old-append now [] [] h k = refl
forget_old-append now [] (t ∷ ts) h k = ground arith
forget_old-append now (t ∷ old) kept (h, hs) k = ground (arith, forget_old-append now old kept hs k)

-- For a client whose failed logins are a row of old ones, which have left the window, and then the
-- rest, which is empty or begins with one in the window: a login passes exactly if the rest has fewer
-- than five and the PIN is the configured one.
pub authenticate_iff :
    (c : AdminConfig) (pin client : Text) (now : ℤ) (s : AuthState) (old kept : List ℤ)
    → s.attempts client ≡ old ++ kept
    → All (λ t. leb_ℤ t (now -ℤ pos 300000) ≡ true) old
    → StartsRecent now kept
    → ((authenticate c pin client now s).0.0 ≡ true)
      ↔ ((length kept < 5) × (text_eq pin c.admin_pin ≡ true))
unfolding authenticate
authenticate_iff c pin client now s old kept split h k =
    let e : forget_old now (s.attempts client) ≡ kept =
      ap (forget_old now) split ∙ forget_old-append now old kept h k in
    (λ p. ground arith, λ p. ground arith)

-- The failed logins of the client that count at this time.
abbrev recent : Text → ℤ → AuthState → List ℤ
recent client now s = forget_old now (s.attempts client)

retry_after_bounds : (now : ℤ) (ts : List ℤ) → 1 ≤ retry_after now ts
unfolding retry_after
retry_after_bounds now [] = omega arith
retry_after_bounds now (t ∷ ts) = ground arith

-- A client with five failed logins in the window is refused whatever the PIN, is told to wait at least
-- a second, and opens no session; the refusal adds no attempt.
locked_out :
    (c : AdminConfig) (pin client : Text) (now : ℤ) (s : AuthState)
    → 5 ≤ length (recent client now s)
    → let (r, t) = authenticate c pin client now s in
      (r.0 ≡ false)
      × (1 ≤ r.1)
      × (t.expires_at ≡ s.expires_at)
      × (t.attempts client ≡ recent client now s)
unfolding authenticate
locked_out c pin client now s h =
    ground (arith, retry_after_bounds now (recent client now s), text_eq_refl client)

-- The attempts kept for every client are at most five.
unfoldable pub IsBounded : AuthState → Type 0
IsBounded s = (client : Text) → length (s.attempts client) ≤ 5

length-forget_old : (now : ℤ) (ts : List ℤ) → length (forget_old now ts) ≤ length ts
unfolding forget_old
length-forget_old now [] = omega arith
length-forget_old now (t ∷ ts) = ground (arith, length-forget_old now ts)

-- A login, whatever its outcome, keeps at most five attempts for every client.
pub authenticate-IsBounded :
    (c : AdminConfig) (pin client : Text) (now : ℤ) (s : AuthState)
    → IsBounded s
    → IsBounded (authenticate c pin client now s).1
unfolding authenticate IsBounded
authenticate-IsBounded c pin client now s h k =
    let old = length-forget_old now (s.attempts client) in
    ground (arith, h k, h client, old, length-append (recent client now s) (now ∷ []))

-- A protected view runs exactly if the administrator is configured and the session ends after now;
-- otherwise the request is refused.
require_admin_iff :
    {A : Type 0} (c : AdminConfig) (now : ℤ) (view : AuthState → A × AuthState) (s : AuthState)
    → (is_some (require_admin c now view s).0 ≡ true)
      ↔ ((is_configured c ≡ true) × (leb_ℤ (expiry s.expires_at) now ≡ false))
unfolding require_admin authenticated
require_admin_iff c now view s = (λ h. ground arith, λ h. ground arith)
