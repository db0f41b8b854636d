-- ===== src/Dashboard/Admin.antt =====
-- dashboard/backend/routes_admin.py, system_power.py and kiosk_control.py: the protected routes over
-- the board and the administrator's session. What a route makes the system do is recorded in
-- `effects`; whether the outside call worked is an argument.
pub mod Steps
pub mod Guards
pub mod Effects
use progress_claw_machine.Shared.{
  ℕ, leb, ltb, ℤ, Text, codes, text_eq, Bool, true, false, not, ◌&&◌, is_some, is_none, Option,
  none, some, List, [], ◌∷◌, length, if◌then◌else◌,
}
use progress_claw_machine.Shared.Action.{Result, ok, err}
use progress_claw_machine.Controller.Adapter.{Adapter}
use progress_claw_machine.Controller.Safety.{SafetyError, escapes}
use progress_claw_machine.Dashboard.Auth
use progress_claw_machine.Dashboard.Auth.{AdminConfig, AuthState, SessionStatus}
use progress_claw_machine.Dashboard.Board.{
  ready, maintenance, for_maintenance, by_administrator, game_stopped, maintenance_changed,
  kiosk_requested, power_requested, wifi_requested, Board, Method, add_event, dashboard_state,
  stop_play,
}
use progress_claw_machine.Dashboard.Wifi.{WifiError, helper_failed, invalid_response, is_type_error}

pub data PowerAction : Type 0 where
  reboot poweroff : PowerAction

pub data KioskAction : Type 0 where
  exit restart : KioskAction

-- What the routes make the system do.
pub data Effect : Type 0 where
  power : PowerAction → Effect
  kiosk : KioskAction → Effect
  wifi : Text → Effect

-- Why a route refuses, by its message.
pub data AdminRefusal : Type 0 where
  admin_required not_configured bad_pin too_many_attempts incorrect_pin unconfirmed : AdminRefusal
  not_running stop_game_first enter_maintenance_first unsupported_action : AdminRefusal
  power_failed kiosk_failed wifi_failed : AdminRefusal
  wifi_invalid : WifiError → AdminRefusal
  stop_refused : SafetyError → AdminRefusal

pub data AdminReply : Type 0 where
  status_page : SessionStatus → (maintenance machine_running : Bool) → AdminReply
  done crashed : AdminReply
  refused : ℕ → AdminRefusal → AdminReply

is_digit : ℕ → Bool
is_digit c = leb b'0' c && leb c b'9'

all_digits : Text → Bool
unfolding is_digit
all_digits [] = true
all_digits (c ∷ s) = is_digit c && all_digits s

-- `pin.isdigit() and 4 <= len(pin) <= 8`, for an ASCII text
unfoldable pub is_pin : Text → Bool
unfolding all_digits
is_pin pin = all_digits pin && leb 4 (length pin) && leb (length pin) 8

abbrev pub confirmed : Text → Option Text → Bool
confirmed word none = false
confirmed word (some given) = text_eq given word

abbrev kiosk_word : KioskAction → Text
kiosk_word exit = codes "EXIT_KIOSK"
kiosk_word restart = codes "RESTART_KIOSK"

abbrev is_exit : KioskAction → Bool
is_exit exit = true
is_exit restart = false

abbrev pub power_word : PowerAction → Text
power_word reboot = codes "REBOOT_RASPBERRY_PI"
power_word poweroff = codes "SHUTDOWN_RASPBERRY_PI"

-- The executor in use: a mock that records, or the helper, which may fail.
pub data Executor : Type 0 where
  mock live : Executor

abbrev power_fails : Executor → Bool → Bool
power_fails mock helped = false
power_fails live helped = not helped

abbrev is_live : Executor → Bool
is_live mock = false
is_live live = true

abbrev is_control_error : WifiError → Bool
is_control_error helper_failed = true
is_control_error invalid_response = true
is_control_error _ = false

module _ (a : Adapter) where
  pub record Site : Type 0 where
    pub config : AdminConfig
    pub board : Board a
    pub session : AuthState
    pub effects : List Effect

  abbrev pub Route : Type 0
  Route = Site → AdminReply × Site

  -- `_status_payload`, without the modes of the executors, and `/api/admin/status`
  abbrev pub status_payload : ℤ → Route
  status_payload now s =
      let (status, t) = Auth.session_status s.config now s.session in
      (
        status_page status s.board.maintenance_mode (is_some s.board.play_mode),
        record s { session = t },
      )

  abbrev login_with : Text → Text → ℤ → Route
  login_with pin client now s =
      let (r, t) = Auth.authenticate s.config pin client now s.session in
      let u : Site = record s { session = t } in
      if ltb 0 r.1
      then (refused 429 too_many_attempts, u)
      else if not r.0
      then (refused 401 incorrect_pin, u)
      else status_payload now u

  -- `/api/admin/login`
  unfoldable pub login : Option Text → Text → ℤ → Route
  login pin client now s =
      if not (Auth.is_configured s.config) then (refused 503 not_configured, s) else elim pin [
        | none ↦ (refused 400 bad_pin, s)
        | some p ↦ if is_pin p then login_with p client now s else (refused 400 bad_pin, s)
      ]

  -- `/api/admin/logout`
  unfoldable pub logout : ℤ → Route
  logout now s = status_payload now (record s { session = Auth.logout s.session })

  -- `@require_admin`
  unfoldable pub protected : ℤ → Route → Route
  protected now view s =
      let (active, t) = Auth.authenticated s.config now s.session in
      let u : Site = record s { session = t } in
      if active then view u else (refused 401 admin_required, u)

  abbrev pub on_board : (Board a → Board a) → Site → Site
  on_board f s = record s { board = f s.board }

  -- `jsonify(dashboard_state(…))`
  abbrev pub finished : Site → AdminReply × Site
  finished s = (done, record s { board = (dashboard_state a s.board).1 })

  -- A stop, with the `except SafetyError` of the routes and their rest: what the transport raises leaves
  -- the route, and Flask answers 500.
  pub stopping : Method a (Unit {0}) → Route → Route
  stopping m rest s =
      let (r, b) = m s.board in
      elim r [
        | ok _ ↦ rest (record s { board = b })
        | err e ↦
            (if escapes e then crashed else refused 409 (stop_refused e), record s { board = b })
      ]

  -- `/api/admin/stop-game`
  unfoldable pub stop_current_game : Option Text → ℤ → Route
  unfolding stopping
  stop_current_game confirm now = protected now λ s.
      if not (confirmed (codes "STOP_CURRENT_GAME") confirm)
      then (refused 400 unconfirmed, s)
      else if is_none s.board.play_mode
      then (refused 409 not_running, s)
      else stopping (stop_play a by_administrator (codes "admin"))
          (λ t. finished (on_board (add_event a game_stopped) t)) s

  pub set_maintenance : Bool → Route
  set_maintenance enabled s = finished (
      on_board
        (λ b. add_event a (maintenance_changed enabled) (record b {
          maintenance_mode = enabled;
          machine_status = if enabled then maintenance else ready;
        }))
        s)

  -- `/api/admin/maintenance`: `enabled` is the field if it is a Boolean.
  unfoldable pub set_maintenance_route : Option Bool → Option Text → ℤ → Route
  unfolding stopping set_maintenance
  set_maintenance_route none confirm now = protected now λ s. (refused 400 unconfirmed, s)
  set_maintenance_route (some enabled) confirm now = protected now λ s.
      if not (
        confirmed (if enabled then codes "ENTER_MAINTENANCE" else codes "EXIT_MAINTENANCE") confirm)
      then (refused 400 unconfirmed, s)
      else if enabled && is_some s.board.play_mode
      then stopping (stop_play a for_maintenance (codes "admin")) (set_maintenance enabled) s
      else set_maintenance enabled s

  -- `/api/admin/exit-kiosk` and `/api/admin/restart-kiosk`; `written` tells whether the request file
  -- could be written.
  unfoldable pub kiosk_route : KioskAction → Option Text → Bool → ℤ → Route
  kiosk_route action confirm written now = protected now λ s.
      if not (confirmed (kiosk_word action) confirm)
      then (refused 400 unconfirmed, s)
      else if is_some s.board.play_mode
      then (refused 409 stop_game_first, s)
      else if not written
      then (refused 503 kiosk_failed, s)
      else (
        done,
        on_board (add_event a (kiosk_requested (is_exit action)))
            (record s { effects = kiosk action ∷ s.effects }),
      )

  -- `/api/admin/power/<action>`: no action is one that is not allowed.
  unfoldable pub request_power_action :
      Option PowerAction → Option Text → Executor → Bool → ℤ → Route
  request_power_action none confirm executor helped now =
      protected now λ s. (refused 404 unsupported_action, s)
  request_power_action (some action) confirm executor helped now = protected now λ s.
      if not (confirmed (power_word action) confirm)
      then (refused 400 unconfirmed, s)
      else if is_some s.board.play_mode
      then (refused 409 stop_game_first, s)
      else if not s.board.maintenance_mode
      then (refused 409 enter_maintenance_first, s)
      else if power_fails executor helped
      then (refused 503 power_failed, s)
      else (
        done,
        on_board (add_event a (power_requested (is_live executor)))
            (record s { effects = power action ∷ s.effects }),
      )

  -- The end of the connect route, by what `wifi_manager.connect` gave: a network, or an error.
  wifi_result : Result WifiError (Text × Bool) → Route
  wifi_result (ok (ssid, executed)) s = (
    done,
    on_board (add_event a (wifi_requested executed)) (record s { effects = wifi ssid ∷ s.effects }),
  )
  wifi_result (err e) s =
      if is_control_error e
      then (refused 503 wifi_failed, s)
      else if is_type_error e
      then (crashed, s)
      else (refused 400 (wifi_invalid e), s)

  -- `/api/admin/wifi/connect`
  unfoldable pub wifi_connect : Option Text → Result WifiError (Text × Bool) → ℤ → Route
  unfolding wifi_result
  wifi_connect confirm result now = protected now λ s.
      if not (confirmed (codes "CONNECT_WIFI") confirm)
      then (refused 400 unconfirmed, s)
      else if is_some s.board.play_mode
      then (refused 409 stop_game_first, s)
      else if not s.board.maintenance_mode
      then (refused 409 enter_maintenance_first, s)
      else wifi_result result s
