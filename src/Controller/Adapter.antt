-- ===== src/Controller/Adapter.antt =====
-- The transport that the controller owns: the calls of `ArduinoAdapter` and `GpioArduinoAdapter`
-- that controller/core/runtime_controller.py makes, as an interface, and the command lines.
use progress_claw_machine.Shared.{
  ℤ, Text, codes, Bool, true, false, Option, none, some, is_some, ◌≡◌, ◌++◌,
}
use progress_claw_machine.Shared.Decimal.{show_ℤ}

-- controller/adapters/arduino_adapter.py, `ArduinoResponse`
pub record ArduinoResponse : Type 0 where
  pub ok : Bool
  pub message : Text
  pub mock : Bool

-- A transport: its state, and the methods that the controller calls. `send_command` answers, or it
-- raises, which is none.
pub record Adapter : Type 1 where
  pub Device : Type 0
  pub send_command : Text → Device → Option ArduinoResponse × Device
  pub connected : Device → Bool × Device
  pub mock_mode : Device → Bool

-- The command lines of the controller's f-strings.
unfoldable pub power_line : ℤ → Text
power_line percent = codes "CLAW POWER " ++ show_ℤ percent

unfoldable pub start_line : ℤ → Text
start_line seconds = codes "PLAY START " ++ show_ℤ seconds

abbrev pub stop_line : Text
stop_line = codes "PLAY STOP"

abbrev pub emergency_line : Text
emergency_line = codes "EMERGENCY STOP"

-- The transport answers, and with success.
abbrev pub accepted : Option ArduinoResponse → Bool
accepted none = false
accepted (some r) = r.ok

-- A condition on a transport under which it accepts every `PLAY STOP` and answers every
-- `EMERGENCY STOP`, and which its calls keep. It may raise on other lines.
pub record Reliable (a : Adapter) : Type 1 where
  pub IsUp : a.Device → Type 0
  pub send_up : (line : Text) (d : a.Device) → IsUp d → IsUp (a.send_command line d).1
  pub connected_up : (d : a.Device) → IsUp d → IsUp (a.connected d).1
  pub stop_accepted : (d : a.Device) → IsUp d → accepted (a.send_command stop_line d).0 ≡ true
  pub emergency_answered :
      (d : a.Device) → IsUp d → is_some (a.send_command emergency_line d).0 ≡ true
