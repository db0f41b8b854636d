-- ===== src/Tests/Dashboard.antt =====
-- The theorems of dashboard/ at concrete inputs.
use progress_claw_machine.Shared.{
  ◌<◌, pos, negsuc, ◌-ℤ◌, Text, codes, text_eq, ◌≡◌, ◌↔◌, refl, true, false, none, some, [], ◌∷◌,
}
use progress_claw_machine.Shared.Action.{ok}
use progress_claw_machine.Dashboard.Auth.{AdminConfig, AuthState, authenticate}
use progress_claw_machine.Dashboard.Auth.Lockout.{authenticate_iff}
use progress_claw_machine.Dashboard.Wifi.{
  Json, Fields, end, field, Answer, scan, request, live_connect, validate_credentials,
  sanitize_response, cons, nil, clean_body, clean_networks, clean_items, clean_network,
  clean_signal, clean_security, clean_connection, clean_flag, clean_internet, safe_ssid,
  clean_message, get, item_count, byte_length, has_control,
}
use progress_claw_machine.Dashboard.Wifi.Safe.{IsName, IsPassword, live_connect_sound}
use progress_claw_machine.Dashboard.Panel.{Panel, manual}

abbrev admin : AdminConfig
admin = record { admin_pin = codes "2468"; secret_key = codes "secret"; session_seconds = pos 300 }

abbrev sessions : AuthState
sessions = record { attempts = λ client. []; expires_at = some (pos 9000) }

-- The same after five failed logins of every client.
abbrev attacked : AuthState
attacked = record sessions { attempts = λ client. pos 1 ∷ pos 2 ∷ pos 3 ∷ pos 4 ∷ pos 5 ∷ [] }

-- Five minutes and two milliseconds: the first two of the five have left the window.
authenticate_iff_example :
    ((authenticate admin (codes "2468") (codes "kiosk") (pos 300002) attacked).0.0 ≡ true)
    ↔ ((3 < 5) × (text_eq (codes "2468") admin.admin_pin ≡ true))
unfolding ◌-ℤ◌
authenticate_iff_example =
    authenticate_iff admin (codes "2468") (codes "kiosk") (pos 300002) attacked (pos 1 ∷ pos 2 ∷ [])
      (pos 3 ∷ pos 4 ∷ pos 5 ∷ []) refl (refl, (refl, tt)) refl

-- The helper's answers.
abbrev answer_fields : Text → Fields → Fields
answer_fields message fs = field (codes "ok") (Json.boolean true) (
    field (codes "mode") (Json.string (codes "live")) (
      field (codes "executed") (Json.boolean true)
        (field (codes "message") (Json.string message) fs)))

abbrev found_one : Json
found_one = Json.object (
    answer_fields (codes "found") (
      field (codes "networks")
        (Json.array (
          cons
            (Json.object (
              field (codes "ssid") (Json.string (codes "Hall")) (
                field (codes "signal") (Json.number (negsuc 49))
                  (field (codes "security") (Json.string (codes "open")) end))))
            nil))
        end))

abbrev scan_answer : Answer
scan_answer = record {
  executed = true;
  message = codes "found";
  networks = record { ssid = codes "Hall"; signal = negsuc 49; secured = false } ∷ [];
  connected = none;
  ssid = none;
  internet = none;
}

scan_accepted : request scan (some found_one) ≡ ok scan_answer
unfolding request sanitize_response clean_body clean_networks clean_items clean_network clean_signal
    clean_security safe_ssid clean_message get item_count byte_length has_control text_eq
scan_accepted = refl

abbrev joined : Json
joined = Json.object (
    answer_fields (codes "joined") (
      field (codes "connected") (Json.boolean true)
        (field (codes "ssid") (Json.string (codes "Hall")) end)))

abbrev joined_answer : Answer
joined_answer = record {
  executed = true;
  message = codes "joined";
  networks = [];
  connected = some true;
  ssid = some (codes "Hall");
  internet = none;
}

joined_ok :
    live_connect (some (codes "Hall")) (some (codes "password")) (λ name. some joined)
    ≡ ok joined_answer
unfolding live_connect validate_credentials request sanitize_response clean_body clean_connection
    clean_flag clean_internet safe_ssid clean_message get byte_length has_control text_eq
joined_ok = refl

live_connect_sound_example :
    IsName (codes "Hall")
    × IsPassword (codes "password")
    × (joined_answer.ssid ≡ some (codes "Hall"))
    × (joined_answer.connected ≡ some true)
    × (joined_answer.executed ≡ true)
live_connect_sound_example =
    live_connect_sound (codes "Hall") (codes "password") (λ name. some joined) joined_answer
      joined_ok

abbrev panel : Panel
panel = record {
  people = 3;
  target = 5;
  credits = 0;
  grabber_power_percent = pos 60;
  manual_grabber_power_percent = pos 60;
  grabber_power_mode = manual;
  ai_people_count = 0;
  ai_grabber_power_percent = pos 60;
}
