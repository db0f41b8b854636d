-- ===== src/Dashboard/Wifi/Manager.antt =====
-- dashboard/backend/wifi_control.py, the two managers and the choice between them, with the two views of
-- dashboard/backend/routes_admin.py that only read.
use progress_claw_machine.Shared.{
  ℤ, ℕ, Text, codes, text_eq, strip, map, lower, false, Option, none, some, [], if◌then◌else◌,
}
use progress_claw_machine.Shared.Action.{Result, ok, err}
use progress_claw_machine.Config.Env.{Environment, get_env}
use progress_claw_machine.Dashboard.Wifi.{
  WifiError, is_type_error, Answer, Json, MockWifi, HelperAction, status, scan, request,
}

-- `MockWifiManager` with its state, or `LiveWifiManager` with its helper.
pub data WifiManager : Type 0 where
  simulated : MockWifi → WifiManager
  live : Text → WifiManager

-- `create_wifi_manager`, none for its `ValueError`
unfoldable pub create_wifi_manager : Environment → Option WifiManager
create_wifi_manager env =
    let mode = map lower (strip (get_env env (codes "PROGRESS_CLAW_WIFI_MODE") (codes "mock"))) in
    if text_eq mode (codes "mock")
    then some (simulated (record { last_requested_ssid = none; last_requested_at = none }))
    else if text_eq mode (codes "live")
    then some (
        live (
          get_env env (codes "PROGRESS_CLAW_WIFI_HELPER")
            (codes "/usr/local/sbin/progress-claw-wifi")))
    else none

abbrev mock_answer : Text → Answer
mock_answer message = record {
  executed = false;
  message = message;
  networks = [];
  connected = none;
  ssid = none;
  internet = none;
}

-- What `status` shows: the answer and, in the simulation, the last request.
pub record WifiStatus : Type 0 where
  pub answer : Answer
  pub last_requested_ssid : Option Text
  pub last_requested_at : Option ℤ

abbrev live_status : Result WifiError Answer → Result WifiError WifiStatus
live_status (ok a) =
    ok (record { answer = a; last_requested_ssid = none; last_requested_at = none })
live_status (err e) = err e

-- `status` and `scan`. `helper` is the live helper's answer.
unfoldable pub wifi_status :
    (HelperAction → Option Json) → WifiManager → Result WifiError WifiStatus
wifi_status helper (simulated m) = ok record {
  answer = mock_answer (codes "Simulation mode; live Wi-Fi access is not installed");
  last_requested_ssid = m.last_requested_ssid;
  last_requested_at = m.last_requested_at;
}
wifi_status helper (live path) = live_status (request status (helper status))

unfoldable pub wifi_scan : (HelperAction → Option Json) → WifiManager → Result WifiError Answer
wifi_scan helper (simulated m) =
    ok (mock_answer (codes "Simulation mode; enter a network name manually"))
wifi_scan helper (live path) = request scan (helper scan)

-- The views: the answer, or status 503, or 500 for an error that they do not handle.
unfoldable pub read_view : {A : Type 0} → Result WifiError A → Result ℕ A
read_view (ok a) = ok a
read_view (err e) = err (if is_type_error e then 500 else 503)
