-- ===== src/Config/Env.antt =====
-- The settings from the environment: `from_env` of the two transports and of the controller, and the
-- reader of `.env` files of cloud/config.py. An environment gives the text of a variable.
pub mod Fallback
use progress_claw_machine.Shared.{
  ℕ, ℤ, pos, Text, codes, text_eq, starts_with, strip, split_once, split_on, lower, is_one_of, leb,
  ◌==◌, length, keep, Bool, true, false, not, ◌&&◌, ◌||◌, map, Option, none, some, List, [], ◌∷◌,
  if◌then◌else◌,
}
use progress_claw_machine.Shared.Action.{Result, ok, err}
use progress_claw_machine.Shared.Decimal.{read_int}
use progress_claw_machine.Controller.Machine.{MachineState, default_state}

abbrev pub Environment : Type 0
Environment = Text → Option Text

-- `os.getenv(name, default)`
abbrev pub get_env : Environment → Text → Text → Text
get_env env name default = elim (env name) [ none ↦ default | some v ↦ v ]

pub data SettingError : Type 0 where
  bad_integer : Text → SettingError
  not_three_pins unknown_transport : SettingError

infixl 10 ◌>>=◌
abbrev ◌>>=◌ :
    {A B : Type 0} → Result SettingError A → (A → Result SettingError B) → Result SettingError B
ok a >>= f = f a
err e >>= f = err e

-- `int(s)`, or its `ValueError`
int_of : Text → Result SettingError ℤ
int_of s = elim (read_int s) [ none ↦ err (bad_integer s) | some n ↦ ok n ]

abbrev is_filled : Text → Bool
is_filled [] = false
is_filled (_ ∷ _) = true

-- The items of a list with commas that are not blank, stripped.
items : Text → List Text
items s = keep is_filled (map strip (split_on b',' s))

ints_of : List Text → Result SettingError (List ℤ)
unfolding int_of
ints_of [] = ok []
ints_of (s ∷ ss) = do n ← int_of s; ns ← ints_of ss; ok (n ∷ ns)

-- A switch that is on: `CLAW_ARDUINO_MOCK` of both transports.
unfoldable pub is_on : Text → Bool
is_on s = is_one_of (codes "1" ∷ codes "true" ∷ codes "yes" ∷ codes "on" ∷ []) (map lower s)

pub record GpioSettings : Type 0 where
  pub start_pin : ℤ
  pub power_pins : List ℤ
  pub force_mock : Bool

-- `GpioArduinoAdapter.from_env`
unfoldable pub gpio_from_env : Environment → Result SettingError GpioSettings
unfolding items ints_of int_of is_on
gpio_from_env env = do
  pins ← ints_of (items (get_env env (codes "CLAW_GRABBER_POWER_GPIOS") (codes "22,23,24")))
  if not (length pins == 3) then err not_three_pins else do
    start ← int_of (get_env env (codes "CLAW_START_GPIO") (codes "17"))
    ok (record {
      start_pin = start;
      power_pins = pins;
      force_mock = is_on (get_env env (codes "CLAW_ARDUINO_MOCK") []);
    })

pub record SerialSettings : Type 0 where
  pub port : Option Text
  pub baud_rate : ℤ
  pub force_mock : Bool
  pub device_patterns : List Text

abbrev given : Option Text → Option Text
given none = none
given (some []) = none
given (some (c ∷ s)) = some (c ∷ s)

-- `ArduinoAdapter.from_env`
unfoldable pub serial_from_env : Environment → Result SettingError SerialSettings
unfolding items int_of is_on
serial_from_env env = do
  baud ← int_of (get_env env (codes "CLAW_ARDUINO_BAUD") (codes "115200"))
  ok (record {
    port = given (env (codes "CLAW_ARDUINO_DEVICE"));
    baud_rate = baud;
    force_mock = is_on (get_env env (codes "CLAW_ARDUINO_MOCK") []);
    device_patterns = items (
        get_env env (codes "CLAW_ARDUINO_DEVICE_PATTERNS")
          (codes "/dev/ttyUSB*,/dev/ttyACM*,/dev/serial/by-id/*"));
  })

pub data Transport : Type 0 where
  gpio : GpioSettings → Transport
  serial : SerialSettings → Transport

-- The transport of `RuntimeController.from_env`.
unfoldable pub transport_from_env : Environment → Result SettingError Transport
transport_from_env env =
    let name = map lower (strip (get_env env (codes "CLAW_ARDUINO_TRANSPORT") (codes "gpio"))) in
    if text_eq name (codes "gpio")
    then (gpio_from_env env >>= λ s. ok (gpio s))
    else if text_eq name (codes "serial")
    then (serial_from_env env >>= λ s. ok (serial s))
    else err unknown_transport

-- `RuntimeController.from_env`: the state and the transport that the controller is made of
unfoldable pub runtime_from_env : Environment → Result SettingError (MachineState × Transport)
unfolding transport_from_env int_of
runtime_from_env env = do
  duration ← int_of (get_env env (codes "CLAW_PLAY_DURATION_SECONDS") (codes "60"))
  power ← int_of (get_env env (codes "CLAW_GRABBER_POWER_PERCENT") (codes "100"))
  transport ← transport_from_env env
  ok (
    record default_state { play_duration_seconds = duration; claw_power_percent = power },
    transport,
  )

-- The characters of a name in a `.env` file; `isalnum` on ASCII text.
abbrev is_alnum : ℕ → Bool
is_alnum c = (leb 48 c && leb c 57) || (leb 65 c && leb c 90) || (leb 97 c && leb c 122)

all_alnum : Text → Bool
all_alnum [] = true
all_alnum (c ∷ s) = is_alnum c && all_alnum s

-- `not name or not name.replace("_", "").isalnum()` refuses a name.
unfoldable pub is_name : Text → Bool
unfolding all_alnum
is_name name = let rest = keep (λ c. not (c == b'_')) name in is_filled rest && all_alnum rest

abbrev same_quote : ℕ → ℕ → Bool
same_quote c d = c == d && (c == 34 || c == 39)

-- The text without its last character, and that character.
last_split : ℕ → Text → Text × ℕ
last_split c [] = ([], c)
last_split c (d ∷ s) = let (t, l) = last_split d s in (c ∷ t, l)

-- A value without the quotes around it.
unfoldable pub unquoted : Text → Text
unfolding last_split
unquoted [] = []
unquoted (c ∷ []) = c ∷ []
unquoted (c ∷ d ∷ s) =
    let (inner, l) = last_split d s in if same_quote c l then inner else c ∷ d ∷ s

-- `os.environ.setdefault(name, value)`
unfoldable pub set_default : Text → Text → Environment → Environment
set_default name value env asked = elim (env asked) [
  | some v ↦ some v
  | none ↦ if text_eq asked name then some value else none
]

abbrev assigned : Option (Text × Text) → Environment → Environment
assigned none env = env
assigned (some (name, value)) env =
    if is_name (strip name) then set_default (strip name) (unquoted (strip value)) env else env

-- A line of `_load_env_fallback`.
unfoldable pub load_line : Text → Environment → Environment
load_line raw env =
    let line = strip raw in
    if not (is_filled line) || starts_with line (codes "#")
    then env
    else assigned (split_once b'=' line) env

-- `_load_env_fallback`, over the lines of the file, or none if it cannot be opened
unfoldable pub load_env_fallback : Option (List Text) → Environment → Environment
load_env_fallback none env = env
load_env_fallback (some []) env = env
load_env_fallback (some (line ∷ lines)) env = load_env_fallback (some lines) (load_line line env)
