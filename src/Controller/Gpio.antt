-- ===== src/Controller/Gpio.antt =====
-- controller/adapters/gpio_adapter.py: the transport over GPIO pins. gpiozero's `OutputDevice` is
-- not part of the program: `Devices` is what the adapter calls of it.
pub mod Levels
pub mod Lines
pub mod Pins
pub mod Connection
use Prim.Native.Nat.{bit_and, ◌^◌}
use progress_claw_machine.Shared.{
  ℕ, ◌+◌, ◌-◌, ◌/◌, ◌%◌, ◌≡◌, ℤ, pos, pos_part, min_ℤ, max_ℤ, Text, codes, strip, starts_with,
  text_eq, Bool, true, false, not, ◌&&◌, ◌||◌, Option, none, some, is_some, List, [], ◌∷◌, ◌++◌,
  length, ltb, ◌==◌, if◌then◌else◌,
}
use progress_claw_machine.Shared.Action.{Result, ok, err, Action, pure, ◌>>=◌, ◌>>◌, modify}
use progress_claw_machine.Shared.Decimal.{read_int}
use progress_claw_machine.Controller.Adapter.{ArduinoResponse, Adapter}

-- What the adapter uses of gpiozero. A call may fail with a message. `is_closed` and `pin_function`
-- read the attributes `closed` and `pin.function`, which the environment may change.
pub record Devices : Type 1 where
  pub World : Type 0
  pub Output : Type 0
  pub make : ℤ → Bool → World → Result Text Output × World
  pub on : Output → World → Result Text (Unit {0}) × World
  pub off : Output → World → Result Text (Unit {0}) × World
  pub close : Output → World → Result Text (Unit {0}) × World
  pub is_closed : Output → World → Bool
  pub pin_function : Output → World → Option Text

-- Python's `round(x / 10)` for a whole number x: to the nearest, and on a tie to the even one.
unfoldable pub round_tenth : ℕ → ℕ
round_tenth x =
    let q = x / 10 in
    let r = x % 10 in
    if ltb r 5 then q else if ltb 5 r then q + 1 else if q % 2 == 0 then q else q + 1

-- The level that `_set_power_percent` sets. The clamps make the numbers natural.
unfoldable pub power_level : ℤ → ℕ
unfolding round_tenth
power_level percent =
    let clamped = pos_part (max_ℤ (pos 40) (min_ℤ (pos 100) percent)) in
    pos_part (max_ℤ (pos 0) (min_ℤ (pos 6) (pos (round_tenth (clamped - 40)))))

-- `level & (1 << index)`, as a test
abbrev pub level_bit : ℕ → ℕ → Bool
level_bit level index = not (bit_and level (2 ^ index) == 0)

-- The text behind the last space, if there is a space: `rsplit(" ", 1)[1]`.
unfoldable pub last_word : Text → Option Text
last_word [] = none
last_word (c ∷ s) = elim (last_word s) [ some w ↦ some w | none ↦ if c == 32 then some s else none ]

module _ (d : Devices) where
  pub record Gpio : Type 0 where
    pub start_pin : ℤ
    pub power_pins : List ℤ
    pub force_mock : Bool
    pub has_factory : Bool
    pub start_output : Option d.Output
    pub power_outputs : List d.Output
    pub mock_log : List Text
    pub connection_error : Option Text
    pub world : d.World

  abbrev pub Call : Type 0 → Type 0
  Call A = Action Text Gpio A

  -- A call of the library on one output.
  unfoldable pub drive : (d.World → Result Text (Unit {0}) × d.World) → Call (Unit {0})
  drive f g = let (r, w) = f g.world in (r, record g { world = w })

  -- `([start] if start is not None else []) + power_outputs`
  abbrev pub outputs : Gpio → List d.Output
  outputs g = elim g.start_output [ none ↦ g.power_outputs | some s ↦ s ∷ g.power_outputs ]

  -- The pin has no function that can be read, or it is "output".
  abbrev is_output : Option Text → Bool
  is_output none = true
  is_output (some f) = text_eq f (codes "output")

  unfoldable pub all_usable : List d.Output → d.World → Bool
  all_usable [] w = true
  all_usable (o ∷ os) w = not (d.is_closed o w) && is_output (d.pin_function o w) && all_usable os w

  -- `_outputs_ready`
  unfoldable pub outputs_ready : Gpio → Bool
  outputs_ready g = length (outputs g) == 1 + length g.power_pins && all_usable (outputs g) g.world

  -- The failures of `output.close()` are passed over.
  unfoldable pub close_each : List d.Output → d.World → d.World
  close_each [] w = w
  close_each (o ∷ os) w = close_each os (d.close o w).1

  unfoldable pub close : Gpio → Gpio
  close g = record g {
    world = close_each (outputs g) g.world;
    start_output = none;
    power_outputs = [];
  }

  open_start : Call (Unit {0})
  open_start g =
      let (r, w) = d.make g.start_pin false g.world in
      elim r [
        | ok o ↦ (ok tt, record g { world = w; start_output = some o; power_outputs = [] })
        | err e ↦ (err e, record g { world = w })
      ]

  unfoldable pub open_power : List ℤ → Call (Unit {0})
  open_power [] g = (ok tt, g)
  open_power (pin ∷ pins) g =
      let (r, w) = d.make pin true g.world in
      elim r [
        | ok o ↦ open_power pins (record g { world = w; power_outputs = g.power_outputs ++ o ∷ [] })
        | err e ↦ (err e, record g { world = w })
      ]

  -- The body of the `try` of `connect`.
  unfoldable pub open_outputs : Call (Unit {0})
  unfolding open_start
  open_outputs = do
    open_start
    (λ g. open_power g.power_pins g)
    modify (λ g. record g { connection_error = none })

  -- Its `except`.
  unfoldable pub after_open : Result Text (Unit {0}) × Gpio → Gpio
  unfolding close
  after_open (ok _, g) = g
  after_open (err e, g) = close (record g { connection_error = some e })

  unfoldable pub drop_lost : Gpio → Gpio
  drop_lost g = if is_some g.start_output || not (length g.power_outputs == 0) then close g else g

  unfoldable pub connect : Gpio → Gpio
  connect g =
      if g.force_mock
      then g
      else if outputs_ready g
      then g
      else if g.has_factory
      then after_open (open_outputs (drop_lost g))
      else record (drop_lost g) {
        connection_error = some (codes "gpiozero OutputDevice is unavailable");
      }

  -- The property `connected`.
  unfoldable pub connected : Gpio → Bool × Gpio
  connected g = let h = connect g in (outputs_ready h, h)

  unfoldable pub switch : Bool → d.Output → d.World → Result Text (Unit {0}) × d.World
  switch true o = d.on o
  switch false o = d.off o

  -- `_set_power_level`, from the output of number `index` on.
  unfoldable pub set_levels : ℕ → ℕ → List d.Output → Call (Unit {0})
  unfolding drive
  set_levels level index [] = pure tt
  set_levels level index (o ∷ os) = do
    drive (switch (level_bit level index) o)
    set_levels level (index + 1) os

  unfoldable pub set_power_level : ℕ → Call (Unit {0})
  set_power_level level g = set_levels level 0 g.power_outputs g

  no_start : Call (Unit {0})
  no_start g = (err (codes "'NoneType' object is not an output"), g)

  unfoldable pub start_on : Call (Unit {0})
  unfolding drive no_start
  start_on g = elim g.start_output [ none ↦ no_start g | some o ↦ drive (d.on o) g ]

  unfoldable pub start_off : Call (Unit {0})
  unfolding drive no_start
  start_off g = elim g.start_output [ none ↦ no_start g | some o ↦ drive (d.off o) g ]

  abbrev pub bad_literal : Text → Text
  bad_literal s = codes "invalid literal for int() with base 10: '" ++ s ++ codes "'"

  abbrev pub set_power_value : Text → Option ℤ → Call (Unit {0})
  set_power_value word none g = (err (bad_literal word), g)
  set_power_value word (some percent) g = set_power_level (power_level percent) g

  -- `_set_power_percent(int(word))`
  unfoldable pub set_power_word : Text → Call (Unit {0})
  set_power_word word = set_power_value word (read_int word)

  abbrev pub word_of : Option Text → Text
  word_of none = []
  word_of (some word) = word

  -- The `try` of `send_command`: whether the command is known, or the exception.
  unfoldable pub execute : Text → Call Bool
  execute command =
      if starts_with command (codes "CLAW POWER ")
      then (do set_power_word (word_of (last_word command)); pure true)
      else if starts_with command (codes "PLAY START ")
      then (do start_on; pure true)
      else if text_eq command (codes "PLAY STOP")
      then (do set_power_level 7; start_off; pure true)
      else if text_eq command (codes "EMERGENCY STOP")
      then (do set_power_level 0; start_off; pure true)
      else pure false

  abbrev pub respond : Bool → Text → Bool → ArduinoResponse
  respond fine message mock = record { ok = fine; message = message; mock = mock }

  -- The answer after `execute`.
  abbrev pub reply : Text → Result Text Bool → ArduinoResponse
  reply command (ok true) = respond true (codes "OK GPIO " ++ command) false
  reply command (ok false) = respond false (codes "ERR UNKNOWN_COMMAND " ++ command) false
  reply command (err e) = respond false (codes "ERR " ++ e) false

  abbrev pub detail : Option Text → Text
  detail none = codes "GPIO outputs are unavailable"
  detail (some []) = codes "GPIO outputs are unavailable"
  detail (some (c ∷ e)) = c ∷ e

  -- `send_command` after the strip and the test for an empty command.
  unfoldable pub send_stripped : Text → Gpio → ArduinoResponse × Gpio
  send_stripped command g =
      if g.force_mock
      then (
        respond true (codes "OK MOCK " ++ command) true,
        record g { mock_log = g.mock_log ++ command ∷ [] },
      )
      else let h = connect g in
        if not (outputs_ready h)
        then (respond false (codes "ERR GPIO unavailable: " ++ detail h.connection_error) false, h)
        else let (r, i) = execute command h in (reply command r, i)

  -- Its test for an empty command.
  unfoldable pub send_nonempty : Text → Gpio → ArduinoResponse × Gpio
  unfolding send_stripped
  send_nonempty [] g = (respond false (codes "ERR EMPTY_COMMAND") g.force_mock, g)
  send_nonempty (c ∷ command) g = send_stripped (c ∷ command) g

  unfoldable pub send_command : Text → Gpio → ArduinoResponse × Gpio
  unfolding send_nonempty
  send_command line g = send_nonempty (strip line) g

  -- The transport that `RuntimeController` takes.
  abbrev pub gpio_adapter : Adapter
  gpio_adapter = record {
    Device = Gpio;
    send_command = λ line g. let (r, h) = send_command line g in (some r, h);
    connected = connected;
    mock_mode = λ g. g.force_mock;
  }
