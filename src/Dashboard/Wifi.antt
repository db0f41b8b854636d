-- ===== src/Dashboard/Wifi.antt =====
-- dashboard/backend/wifi_control.py. The privileged helper is not part of this code: its answer is a
-- JSON value, or none if the call failed or its output is no JSON. Texts have no lone surrogates.
pub mod Safe
pub mod Manager
use progress_claw_machine.Shared.{
  ℕ, ◌+◌, ℤ, pos, negsuc, leb, leb_ℤ, ltb, ◌==◌, Text, codes, text_eq, Bool, true, false, not, ◌&&◌,
  ◌||◌, is_none, Option, none, some, List, [], ◌∷◌, length, any, if◌then◌else◌,
}
use progress_claw_machine.Shared.Action.{Result, ok, err}

-- `WifiValidationError` with its messages, `WifiControlError` with its two, and a `TypeError`.
pub data WifiError : Type 0 where
  name_required name_characters name_too_long : WifiError
  password_required password_length password_characters : WifiError
  helper_failed invalid_response unhashable : WifiError

-- The error that no route handles: Flask answers 500.
abbrev pub is_type_error : WifiError → Bool
is_type_error unhashable = true
is_type_error _ = false

-- JSON. A number with a fraction or an exponent is a float in Python, and only its kind matters.
mutual
  pub data Json : Type 0 where
    null : Json
    boolean : Bool → Json
    number : ℤ → Json
    real : Json
    string : Text → Json
    array : Items → Json
    object : Fields → Json

  pub data Items : Type 0 where
    nil : Items
    cons : Json → Items → Items

  pub data Fields : Type 0 where
    end : Fields
    field : Text → Json → Fields → Fields

-- `d.get(key)`: `None` if the key is missing. `json.loads` keeps the last of two equal keys.
pub get_last : Text → Fields → Option Json
get_last k end = none
get_last k (field j v fs) = elim (get_last k fs) [
  | some w ↦ some w
  | none ↦ if text_eq j k then some v else none
]

unfoldable pub get : Text → Fields → Json
unfolding get_last
get k fs = elim (get_last k fs) [ none ↦ null | some v ↦ v ]

-- The length of the UTF-8 encoding.
unfoldable pub byte_length : Text → ℕ
byte_length [] = 0
byte_length (c ∷ s) =
    (if ltb c 128 then 1 else if ltb c 2048 then 2 else if ltb c 65536 then 3 else 4)
    + byte_length s

-- `ord(character) < 32 or ord(character) == 127` for some character
unfoldable pub has_control : Text → Bool
has_control s = any (λ c. ltb c 32 || c == 127) s

-- Submitted values: a text, or a value of another type.
unfoldable pub validate_credentials : Option Text → Option Text → Result WifiError Text
validate_credentials none password = err name_required
validate_credentials (some []) password = err name_required
validate_credentials (some (c ∷ name)) password =
    if has_control (c ∷ name)
    then err name_characters
    else if ltb 32 (byte_length (c ∷ name))
    then err name_too_long
    else elim password [
      | none ↦ err password_required
      | some p ↦
          if not (leb 8 (byte_length p) && leb (byte_length p) 63)
          then err password_length
          else if has_control p
          then err password_characters
          else ok (c ∷ name)
    ]

-- `_safe_ssid`
unfoldable pub safe_ssid : Json → Result WifiError (Option Text)
safe_ssid null = ok none
safe_ssid (string []) = err invalid_response
safe_ssid (string (c ∷ s)) =
    if ltb 32 (byte_length (c ∷ s)) || has_control (c ∷ s)
    then err invalid_response
    else ok (some (c ∷ s))
safe_ssid _ = err invalid_response

pub data HelperAction : Type 0 where
  status scan connect : HelperAction

pub record Network : Type 0 where
  pub ssid : Text
  pub signal : ℤ
  pub secured : Bool

-- The cleaned answer: `ok` and `mode` are always true and "live"; `ssid` is also `current_ssid`.
pub record Answer : Type 0 where
  pub executed : Bool
  pub message : Text
  pub networks : List Network
  pub connected : Option Bool
  pub ssid : Option Text
  pub internet : Option Bool

infixl 10 ◌>>=◌
abbrev pub ◌>>=◌ :
    {A B : Type 0} → Result WifiError A → (A → Result WifiError B) → Result WifiError B
ok a >>= f = f a
err e >>= f = err e

abbrev pub is_true : Json → Bool
is_true (boolean b) = b
is_true _ = false

-- A message of at most 160 characters, none of them a control character.
unfoldable pub clean_message : Json → Result WifiError Text
clean_message (string s) =
    if ltb 160 (length s) || has_control s then err invalid_response else ok s
clean_message _ = err invalid_response

-- `null`, or a Boolean
unfoldable pub clean_flag : Json → Result WifiError (Option Bool)
clean_flag null = ok none
clean_flag (boolean b) = ok (some b)
clean_flag _ = err invalid_response

unfoldable pub clean_signal : Json → Result WifiError ℤ
clean_signal (number n) =
    if leb_ℤ (negsuc 199) n && leb_ℤ n (pos 0) then ok n else err invalid_response
clean_signal _ = err invalid_response

-- A test `in` a set of texts: an object or a list has no hash, so that it raises a `TypeError`.
unfoldable pub clean_security : Json → Result WifiError Bool
clean_security (string s) =
    if text_eq s (codes "secured")
    then ok true
    else if text_eq s (codes "open")
    then ok false
    else err invalid_response
clean_security (object _) = err unhashable
clean_security (array _) = err unhashable
clean_security _ = err invalid_response

abbrev pub required : Option Text → Result WifiError Text
required none = err invalid_response
required (some s) = ok s

unfoldable pub clean_network : Json → Result WifiError Network
clean_network (object fs) = do
  signal ← clean_signal (get (codes "signal") fs)
  security ← clean_security (get (codes "security") fs)
  name ← safe_ssid (get (codes "ssid") fs)
  ssid ← required name
  ok (record { ssid = ssid; signal = signal; secured = security })
clean_network _ = err invalid_response

unfoldable pub item_count : Items → ℕ
item_count nil = 0
item_count (cons x xs) = item_count xs + 1

unfoldable pub clean_items : Items → Result WifiError (List Network)
clean_items nil = ok []
clean_items (cons x xs) = do n ← clean_network x; ns ← clean_items xs; ok (n ∷ ns)

unfoldable pub clean_networks : Json → Result WifiError (List Network)
clean_networks (array xs) = if ltb 100 (item_count xs) then err invalid_response else clean_items xs
clean_networks _ = err invalid_response

abbrev is_yes : Option Bool → Bool
is_yes none = false
is_yes (some b) = b

abbrev is_connect : HelperAction → Bool
is_connect connect = true
is_connect _ = false

abbrev is_status : HelperAction → Bool
is_status status = true
is_status _ = false

abbrev is_scan : HelperAction → Bool
is_scan scan = true
is_scan _ = false

abbrev pub require : Bool → Result WifiError (Unit {0})
require true = ok tt
require false = err invalid_response

unfoldable pub clean_internet : HelperAction → Fields → Result WifiError (Option Bool)
unfolding clean_flag
clean_internet status fs = clean_flag (get (codes "internet") fs)
clean_internet _ fs = ok none

-- The part of `_sanitize_response` for `status` and `connect`.
unfoldable pub clean_connection : HelperAction → Bool → Text → Fields → Result WifiError Answer
clean_connection action executed message fs = do
  connected ← clean_flag (get (codes "connected") fs)
  name ← safe_ssid (get (if is_connect action then codes "ssid" else codes "current_ssid") fs)
  _ ← require (not ((is_yes connected || is_connect action) && is_none name))
  _ ← require (not (is_connect action && not (is_yes connected)))
  internet ← clean_internet action fs
  ok (record {
    executed = executed;
    message = message;
    networks = [];
    connected = connected;
    ssid = name;
    internet = internet;
  })

abbrev scanned : Bool → Text → List Network → Answer
scanned executed message networks = record {
  executed = executed;
  message = message;
  networks = networks;
  connected = none;
  ssid = none;
  internet = none;
}

unfoldable pub clean_body : HelperAction → Bool → Text → Fields → Result WifiError Answer
clean_body scan executed message fs = do
  networks ← clean_networks (get (codes "networks") fs)
  ok (scanned executed message networks)
clean_body action executed message fs = clean_connection action executed message fs

abbrev pub executed_flag : Fields → Bool
executed_flag fs = is_true (get (codes "executed") fs)

-- `_sanitize_response`
unfoldable pub sanitize_response : HelperAction → Fields → Result WifiError Answer
sanitize_response action fs = do
  message ← clean_message (get (codes "message") fs)
  _ ← require (not ((is_scan action || is_connect action) && not (executed_flag fs)))
  clean_body action (executed_flag fs) message fs

abbrev pub is_live : Json → Bool
is_live (string s) = text_eq s (codes "live")
is_live _ = false

-- `_request`, with the helper's answer
unfoldable pub request : HelperAction → Option Json → Result WifiError Answer
request action none = err helper_failed
request action (some (object fs)) =
    if is_true (get (codes "ok") fs) && is_live (get (codes "mode") fs)
    then sanitize_response action fs
    else err invalid_response
request action (some _) = err invalid_response

abbrev pub same_name : Option Text → Text → Bool
same_name none name = false
same_name (some s) name = text_eq s name

-- `LiveWifiManager.connect`; the helper answers a validated name and password.
unfoldable pub live_connect :
    Option Text → Option Text → (Text → Option Json) → Result WifiError Answer
live_connect ssid password helper = do
  name ← validate_credentials ssid password
  answer ← request connect (helper name)
  if same_name answer.ssid name then ok answer else err invalid_response

-- `MockWifiManager`: the last request that was valid.
pub record MockWifi : Type 0 where
  pub last_requested_ssid : Option Text
  pub last_requested_at : Option ℤ

unfoldable pub mock_connect :
    Option Text → Option Text → ℤ → MockWifi → Result WifiError Text × MockWifi
mock_connect ssid password now m = elim (validate_credentials ssid password) [
  | ok name ↦ (ok name, record { last_requested_ssid = some name; last_requested_at = some now })
  | err e ↦ (err e, m)
]
