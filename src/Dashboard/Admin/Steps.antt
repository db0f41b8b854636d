-- ===== src/Dashboard/Admin/Steps.antt =====
-- What can happen to the whole site: a request to any route, with any arguments, or an auto-stop timer
-- of the controller that wakes up.
use progress_claw_machine.Shared.{ℕ, ℤ, Text, ◌≡◌, Bool, Option, List, ◌++◌, ◌∷◌}
use progress_claw_machine.Shared.Action.{Result}
use progress_claw_machine.Controller.Adapter.{Adapter}
use progress_claw_machine.Controller.Machine.{PlayStopCommand, EmergencyStopCommand}
use progress_claw_machine.Controller.Runtime.{Timer}
use progress_claw_machine.Controller.Runtime.Steps.{fire}
use progress_claw_machine.Dashboard.Board.{Board, status_route}
use progress_claw_machine.Dashboard.Board.Play.{
  StartRequest, api_play_start, api_play_stop, api_emergency_stop, play_route, stop_route,
  reset_route,
}
use progress_claw_machine.Dashboard.Board.Settings.{
  PowerRequest, SettingsRequest, api_claw_power, update_count, ai_count, settings,
}
use progress_claw_machine.Dashboard.Board.Players.{Capture, player_photo, capture_player}
use progress_claw_machine.Dashboard.Wifi.{WifiError}
use progress_claw_machine.Dashboard.Admin.{
  PowerAction, KioskAction, Site, Route, Executor, status_payload, login, logout, stop_current_game,
  set_maintenance_route, kiosk_route, request_power_action, wifi_connect,
}

-- The open routes of the dashboard.
pub data Request : Type 0 where
  get_status : Request
  post_start : StartRequest → Request
  post_stop : PlayStopCommand → Request
  post_emergency : EmergencyStopCommand → Request
  post_play : Bool → Text → Request
  post_stop_play : Request
  post_reset : Request
  post_power : PowerRequest → Request
  post_count : Option ℤ → ℤ → Request
  post_ai_count : Option ℤ → Request
  post_settings : SettingsRequest → Request
  post_photo : Option Text → Option Text → (Text → Option (List ℕ)) → Capture → Request
  post_capture : Option Text → Bool → Capture → Request

-- The protected routes, and those for the session.
pub data AdminRequest : Type 0 where
  post_login : Option Text → Text → AdminRequest
  post_logout : AdminRequest
  get_session : AdminRequest
  post_stop_game : Option Text → AdminRequest
  post_maintenance : Option Bool → Option Text → AdminRequest
  post_kiosk : KioskAction → Option Text → Bool → AdminRequest
  post_power_action : Option PowerAction → Option Text → Executor → Bool → AdminRequest
  post_wifi : Option Text → Result WifiError (Text × Bool) → AdminRequest

module _ (a : Adapter) where
  unfoldable pub serve : Request → ℤ → Board a → Board a
  serve get_status now b = (status_route a b).1
  serve (post_start q) now b = (api_play_start a q now b).1
  serve (post_stop command) now b = (api_play_stop a command b).1
  serve (post_emergency command) now b = (api_emergency_stop a command b).1
  serve (post_play test_mode stamp) now b = (play_route a test_mode now stamp b).1
  serve post_stop_play now b = (stop_route a b).1
  serve post_reset now b = (reset_route a b).1
  serve (post_power q) now b = (api_claw_power a q b).1
  serve (post_count value change) now b = (update_count a value change b).1
  serve (post_ai_count people) now b = (ai_count a people b).1
  serve (post_settings q) now b = (settings a q b).1
  serve (post_photo name image decode c) now b = (player_photo a name image decode c b).1
  serve (post_capture name has_frame c) now b = (capture_player a name has_frame c b).1

  unfoldable pub administer : AdminRequest → ℤ → Route a
  administer (post_login pin client) now = login a pin client now
  administer post_logout now = logout a now
  administer get_session now = status_payload a now
  administer (post_stop_game confirm) now = stop_current_game a confirm now
  administer (post_maintenance enabled confirm) now = set_maintenance_route a enabled confirm now
  administer (post_kiosk action confirm written) now = kiosk_route a action confirm written now
  administer (post_power_action action confirm executor helped) now =
      request_power_action a action confirm executor helped now
  administer (post_wifi confirm result) now = wifi_connect a confirm result now

  pub data SiteStep (s : Site a) : Site a → Type 0 where
    requested : (q : Request) (now : ℤ) → SiteStep s (record s { board = serve q now s.board })
    administered : (q : AdminRequest) (now : ℤ) → SiteStep s (administer q now s).1
    timer_fired :
        (before after : List Timer) (t : Timer)
        → s.board.runtime.timers ≡ before ++ t ∷ after
        → SiteStep s (record s {
          board = record s.board { runtime = fire a before t after s.board.runtime };
        })

  pub data SiteReach (s : Site a) : Site a → Type 0 where
    start : SiteReach s s
    then_step : {t u : Site a} → SiteReach s t → SiteStep t u → SiteReach s u
