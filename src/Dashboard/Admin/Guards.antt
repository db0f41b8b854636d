-- ===== src/Dashboard/Admin/Guards.antt =====
-- The system is touched only for an administrator, and never while a play runs.
use progress_claw_machine.Dashboard.Board.{game_stopped}
use progress_claw_machine.Dashboard.Admin.{finished, on_board}
use progress_claw_machine.Shared.{
  ℤ, Text, codes, ◌≡◌, inl, inr, ap, Bool, true, false, Option, none, some, is_some, List, ◌++◌,
  arith,
}
use progress_claw_machine.Shared.Action.{Result, Result-cases, is_ok}
use progress_claw_machine.Controller.Adapter.{Adapter}
use progress_claw_machine.Controller.Runtime.{Timer}
use progress_claw_machine.Controller.Runtime.Steps.{fire}
use progress_claw_machine.Dashboard.Auth.{authenticated}
use progress_claw_machine.Dashboard.Board.{
  Board, Method, add_event, stop_play, by_administrator, for_maintenance,
}
use progress_claw_machine.Dashboard.Board.Touch.{
  IsInTouch, auto_stop-plays, add_event-IsInTouch, dashboard_state-IsInTouch, stop_play-IsInTouch,
}
use progress_claw_machine.Dashboard.Board.Touch.Routes
use progress_claw_machine.Dashboard.Board.Touch.Changes
use progress_claw_machine.Dashboard.Wifi.{WifiError}
use progress_claw_machine.Dashboard.Admin.{
  PowerAction, KioskAction, Site, Route, Executor, login, logout, stop_current_game, protected,
  set_maintenance, stopping, set_maintenance_route, kiosk_route, request_power_action, wifi_connect,
}
use progress_claw_machine.Dashboard.Admin.Steps

module _ (a : Adapter) where
  -- Every request to the dashboard keeps the board in touch.
  serve-IsInTouch :
      (q : Steps.Request) (now : ℤ) (b : Board a)
      → IsInTouch a b
      → IsInTouch a (Steps.serve a q now b)
  unfolding Steps.serve
  serve-IsInTouch Steps.get_status now = Routes.status_route-IsInTouch a
  serve-IsInTouch (Steps.post_start q) now = Routes.api_play_start-IsInTouch a q now
  serve-IsInTouch (Steps.post_stop command) now = Routes.api_play_stop-IsInTouch a command
  serve-IsInTouch (Steps.post_emergency command) now = Routes.api_emergency_stop-IsInTouch a command
  serve-IsInTouch (Steps.post_play test_mode stamp) now =
      Routes.play_route-IsInTouch a test_mode now stamp
  serve-IsInTouch Steps.post_stop_play now = Routes.stop_route-IsInTouch a
  serve-IsInTouch Steps.post_reset now = Routes.reset_route-IsInTouch a
  serve-IsInTouch (Steps.post_power q) now = Routes.api_claw_power-IsInTouch a q
  serve-IsInTouch (Steps.post_count value change) now = Routes.update_count-IsInTouch a value change
  serve-IsInTouch (Steps.post_ai_count people) now = Routes.ai_count-IsInTouch a people
  serve-IsInTouch (Steps.post_settings q) now = Changes.settings-IsInTouch a q
  serve-IsInTouch (Steps.post_photo name image decode c) now =
      Changes.player_photo-IsInTouch a name image decode c
  serve-IsInTouch (Steps.post_capture name has_frame c) now =
      Changes.capture_player-IsInTouch a name has_frame c

  -- A stop, whose rest keeps touch on a board without a play.
  stopping-IsInTouch :
      (m : Method a (Unit {0})) (rest : Route a) (s : Site a)
      → IsInTouch a (m s.board).1
      → (is_ok (m s.board).0 ≡ true
          → IsInTouch a (rest (record s { board = (m s.board).1 })).1.board)
      → IsInTouch a (stopping a m rest s).1.board
  unfolding stopping
  stopping-IsInTouch m rest s h k = elim (Result-cases (m s.board).0) [
    | inl (x, e) ↦ rw (e, stopping) (k (ap is_ok e))
    | inr (x, e) ↦ rw (e, stopping) (ground arith)
  ]

  set_maintenance-IsInTouch :
      (enabled : Bool) (s : Site a)
      → IsInTouch a s.board
      → (enabled ≡ true → is_some s.board.play_mode ≡ false)
      → IsInTouch a (set_maintenance a enabled s).1.board
  unfolding set_maintenance
  set_maintenance-IsInTouch enabled s h idle =
      dashboard_state-IsInTouch a _
        (add_event-IsInTouch a _ _ (record { shown = h.shown; parked = idle }))

  protected-IsInTouch :
      (now : ℤ) (view : Route a) (s : Site a)
      → IsInTouch a s.board
      → ((t : Site a) → IsInTouch a t.board → IsInTouch a (view t).1.board)
      → IsInTouch a (protected a now view s).1.board
  unfolding protected
  protected-IsInTouch now view s h k =
      let t : Site a = record s { session = (authenticated s.config now s.session).1 } in
      ground (arith, k t h)

  stop_current_game-IsInTouch :
      (confirm : Option Text) (now : ℤ) (s : Site a)
      → IsInTouch a s.board
      → IsInTouch a (stop_current_game a confirm now s).1.board
  unfolding stop_current_game
  stop_current_game-IsInTouch confirm now s h = protected-IsInTouch now _ s h λ t k.
      let (kept, same, idle) = stop_play-IsInTouch a by_administrator (codes "admin") t.board k in
      let b = (stop_play a by_administrator (codes "admin") t.board).1 in
      ground (
        arith,
        stopping-IsInTouch (stop_play a by_administrator (codes "admin"))
            (λ u. finished a (on_board a (add_event a game_stopped) u)) t kept
            (λ good. dashboard_state-IsInTouch a _ (add_event-IsInTouch a game_stopped b kept)),
      )

  set_maintenance_route-IsInTouch :
      (enabled : Option Bool) (confirm : Option Text) (now : ℤ) (s : Site a)
      → IsInTouch a s.board
      → IsInTouch a (set_maintenance_route a enabled confirm now s).1.board
  unfolding set_maintenance_route
  set_maintenance_route-IsInTouch none confirm now s h = protected-IsInTouch now _ s h (λ t k. k)
  set_maintenance_route-IsInTouch (some enabled) confirm now s h =
      protected-IsInTouch now _ s h λ t k.
        let (kept, same, idle) = stop_play-IsInTouch a for_maintenance (codes "admin") t.board k in
        let b = (stop_play a for_maintenance (codes "admin") t.board).1 in
        ground (
          arith,
          stopping-IsInTouch (stop_play a for_maintenance (codes "admin"))
              (set_maintenance a enabled) t kept
              (λ good.
                set_maintenance-IsInTouch enabled (record t { board = b }) kept (λ on. idle good)),
          set_maintenance-IsInTouch enabled t k,
        )

  kiosk_route-IsInTouch :
      (action : KioskAction) (confirm : Option Text) (written : Bool) (now : ℤ) (s : Site a)
      → IsInTouch a s.board
      → IsInTouch a (kiosk_route a action confirm written now s).1.board
  unfolding kiosk_route add_event
  kiosk_route-IsInTouch action confirm written now s h =
      protected-IsInTouch now _ s h (λ t k. ground arith)

  request_power_action-IsInTouch :
      (action : Option PowerAction) (confirm : Option Text) (executor : Executor) (helped : Bool)
      (now : ℤ) (s : Site a)
      → IsInTouch a s.board
      → IsInTouch a (request_power_action a action confirm executor helped now s).1.board
  unfolding request_power_action add_event
  request_power_action-IsInTouch none confirm executor helped now s h =
      protected-IsInTouch now _ s h (λ t k. k)
  request_power_action-IsInTouch (some action) confirm executor helped now s h =
      protected-IsInTouch now _ s h (λ t k. ground arith)

  wifi_connect-IsInTouch :
      (confirm : Option Text) (result : Result WifiError (Text × Bool)) (now : ℤ) (s : Site a)
      → IsInTouch a s.board
      → IsInTouch a (wifi_connect a confirm result now s).1.board
  unfolding wifi_connect add_event
  wifi_connect-IsInTouch confirm result now s h =
      protected-IsInTouch now _ s h (λ t k. ground arith)

  administer-IsInTouch :
      (q : Steps.AdminRequest) (now : ℤ) (s : Site a)
      → IsInTouch a s.board
      → IsInTouch a (Steps.administer a q now s).1.board
  unfolding Steps.administer login logout
  administer-IsInTouch (Steps.post_login pin client) now s h = ground arith
  administer-IsInTouch Steps.post_logout now s h = h
  administer-IsInTouch Steps.get_session now s h = h
  administer-IsInTouch (Steps.post_stop_game confirm) now s h =
      stop_current_game-IsInTouch confirm now s h
  administer-IsInTouch (Steps.post_maintenance enabled confirm) now s h =
      set_maintenance_route-IsInTouch enabled confirm now s h
  administer-IsInTouch (Steps.post_kiosk action confirm written) now s h =
      kiosk_route-IsInTouch action confirm written now s h
  administer-IsInTouch (Steps.post_power_action action confirm executor helped) now s h =
      request_power_action-IsInTouch action confirm executor helped now s h
  administer-IsInTouch (Steps.post_wifi confirm result) now s h =
      wifi_connect-IsInTouch confirm result now s h

  fire-IsInTouch :
      (before after : List Timer) (t : Timer) (b : Board a)
      → IsInTouch a b
      → IsInTouch a (record b { runtime = fire a before t after b.runtime })
  unfolding fire
  fire-IsInTouch before after t b h = record {
    shown = λ on.
        h.shown (auto_stop-plays a t.generation (record b.runtime { timers = before ++ after }) on);
    parked = h.parked;
  }

  SiteStep-IsInTouch :
      {s t : Site a} → Steps.SiteStep a s t → IsInTouch a s.board → IsInTouch a t.board
  SiteStep-IsInTouch {s} (Steps.requested q now) h = serve-IsInTouch q now s.board h
  SiteStep-IsInTouch {s} (Steps.administered q now) h = administer-IsInTouch q now s h
  SiteStep-IsInTouch {s} (Steps.timer_fired before after t e) h =
      fire-IsInTouch before after t s.board h

  -- Whatever is requested of whichever route, with any arguments, whatever the transport answers and
  -- whichever timers wake up: if it holds at the start, a play of the controller always shows on the
  -- dashboard, and in maintenance mode no play does, so none runs.
  pub SiteReach-IsInTouch :
      {s t : Site a} → Steps.SiteReach a s t → IsInTouch a s.board → IsInTouch a t.board
  SiteReach-IsInTouch Steps.start h = h
  SiteReach-IsInTouch (Steps.then_step r st) h = SiteStep-IsInTouch st (SiteReach-IsInTouch r h)
