-- ===== src/Dashboard/App/Started.antt =====
-- dashboard/backend/app.py: the settings with which the application starts.
use progress_claw_machine.Shared.{
  ℕ, ℤ, pos, negsuc, ◌≤ℤ◌, ◌≤◌, ◌≡◌, refl, Text, codes, ltb, some, false, arith,
}
use progress_claw_machine.Config.Env.{Environment}
use progress_claw_machine.Analytics.Store.{AnalyticsStore, new_store}
use progress_claw_machine.Analytics.Store.Refusals.{IsKeyed, new_store-IsKeyed}
use progress_claw_machine.Dashboard.App.{
  positive_int_env, admin_session_seconds, as_bound, analytics_store,
}

positive_int_env_least :
    (env : Environment) (name : Text) (default : ℤ)
    → pos 1 ≤ℤ default
    → pos 1 ≤ℤ positive_int_env env name default
unfolding positive_int_env
positive_int_env_least env name default h = ground arith

as_bound_least : (n : ℤ) → pos 1 ≤ℤ n → 1 ≤ as_bound n
as_bound_least (pos n) h = ground arith
as_bound_least (negsuc n) h = ground arith

new_store-some :
    (n : ℕ) → 1 ≤ n → (s : AnalyticsStore) × (new_store n ≡ some s) × (s.max_events ≡ n)
unfolding new_store
new_store-some n h = let e : ltb n 1 ≡ false = ground arith in rw e (_, refl, refl)

-- Whatever the environment holds, numbers below 1 and texts that are no numbers included, the
-- application starts: the store of the analytics is made, has room for an event, and has the keys of
-- its events and nothing else, and a session of the administrator lasts a second at least.
analytics_store_made :
    (env : Environment)
    → ((s : AnalyticsStore) × (analytics_store env ≡ some s) × (1 ≤ s.max_events) × IsKeyed s)
      × (pos 1 ≤ℤ admin_session_seconds env)
unfolding analytics_store admin_session_seconds
analytics_store_made env =
    let n = as_bound (positive_int_env env (codes "CLAW_ANALYTICS_MAX_EVENTS") (pos 1000)) in
    let le : 1 ≤ n = as_bound_least _ (positive_int_env_least env _ (pos 1000) (ground arith)) in
    let (s, made, same) = new_store-some n le in
    (
      (s, made, omega arith, new_store-IsKeyed n s made),
      positive_int_env_least env (codes "PROGRESS_CLAW_ADMIN_SESSION_SECONDS") (pos 300)
          (ground arith),
    )
