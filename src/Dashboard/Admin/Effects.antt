-- ===== src/Dashboard/Admin/Effects.antt =====
-- When the system is made to do something.
use progress_claw_machine.Shared.{ℤ, ◌≡◌, ◌⊎◌, inl, refl, Bool, true, false, none, some, arith}
use progress_claw_machine.Controller.Adapter.{Adapter}
use progress_claw_machine.Dashboard.Auth.{authenticated}
use progress_claw_machine.Dashboard.Board.Touch.{plays, IsInTouch}
use progress_claw_machine.Dashboard.Admin.{
  Site, login, logout, stop_current_game, protected, stopping, set_maintenance,
  set_maintenance_route, kiosk_route, request_power_action, wifi_connect,
}
use progress_claw_machine.Dashboard.Admin.Steps.{
  AdminRequest, post_login, post_logout, get_session, post_stop_game, post_maintenance, post_kiosk,
  post_power_action, post_wifi, administer, SiteReach,
}
use progress_claw_machine.Dashboard.Admin.Guards.{SiteReach-IsInTouch}

abbrev pub is_kiosk : AdminRequest → Bool
is_kiosk (post_kiosk _ _ _) = true
is_kiosk _ = false

module _ (a : Adapter) where
  -- An administrator is logged in, no play runs, and for all but the kiosk the machine is in
  -- maintenance.
  pub record IsAllowed (kiosk : Bool) (now : ℤ) (s : Site a) : Type 0 where
    pub logged_in : (authenticated s.config now s.session).0 ≡ true
    pub at_rest : plays a s.board.runtime ≡ false
    pub in_service : kiosk ≡ false → s.board.maintenance_mode ≡ true

  administer_effects :
      (q : AdminRequest) (now : ℤ) (s : Site a)
      → IsInTouch a s.board
      → ((administer a q now s).1.effects ≡ s.effects) ⊎ IsAllowed (is_kiosk q) now s
  unfolding administer login logout stop_current_game set_maintenance_route protected stopping
      set_maintenance kiosk_route request_power_action wifi_connect
  administer_effects (post_login pin client) now s h = inl (ground arith)
  administer_effects post_logout now s h = inl refl
  administer_effects get_session now s h = inl refl
  administer_effects (post_stop_game confirm) now s h = inl (ground arith)
  administer_effects (post_maintenance none confirm) now s h = inl (ground arith)
  administer_effects (post_maintenance (some enabled) confirm) now s h = inl (ground arith)
  administer_effects (post_kiosk action confirm written) now s h = ground arith
  administer_effects (post_power_action none confirm executor helped) now s h = inl (ground arith)
  administer_effects (post_power_action (some action) confirm executor helped) now s h =
      ground arith
  administer_effects (post_wifi confirm result) now s h = ground arith

  -- In every reachable site, whatever is requested, the system is made to do something (reboot, power
  -- off, leave or restart the kiosk, join a network) only while an administrator's session is
  -- active and no play of the controller runs, and for all but the kiosk only in maintenance.
  pub effects_guarded :
      {s t : Site a}
      → SiteReach a s t
      → IsInTouch a s.board
      → (q : AdminRequest) (now : ℤ)
      → ((administer a q now t).1.effects ≡ t.effects) ⊎ IsAllowed (is_kiosk q) now t
  effects_guarded {t} r h q now = administer_effects q now t (SiteReach-IsInTouch a r h)
