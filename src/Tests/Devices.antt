-- ===== src/Tests/Devices.antt =====
-- Simulated outputs: a world says which pins are active, and every call succeeds.
use progress_claw_machine.Shared.{
  ℕ, ◌≡◌, ◌≢◌, pos, pos_part, codes, Bool, true, false, none, some, [], ◌∷◌, ◌==◌, if◌then◌else◌,
  arith,
}
use progress_claw_machine.Shared.Action.{ok}
use progress_claw_machine.Controller.Adapter.{Adapter, Reliable}
use progress_claw_machine.Controller.Machine.{PlayStartCommand}
use progress_claw_machine.Controller.Gpio.{Devices, Gpio, gpio_adapter}
use progress_claw_machine.Controller.Gpio.Pins.{DeviceLaws}
use progress_claw_machine.Controller.Gpio.Connection.{mock_stays, connected_mock, mock_stop}

abbrev pub put : (ℕ → Bool) → ℕ → Bool → ℕ → Bool
put w o v p = if p == o then v else w p

abbrev pub sim : Devices
sim = record {
  World = ℕ → Bool;
  Output = ℕ;
  make = λ pin high w. (ok (pos_part pin), w);
  on = λ o w. (ok tt, put w o true);
  off = λ o w. (ok tt, put w o false);
  close = λ o w. (ok tt, w);
  is_closed = λ o w. false;
  pin_function = λ o w. some (codes "output");
}

pub put_self : (w : ℕ → Bool) (o : ℕ) (v : Bool) → put w o v o ≡ v
put_self w o v = ground arith

pub put_other : (w : ℕ → Bool) (o p : ℕ) (v : Bool) → o ≢ p → put w o v p ≡ w p
put_other w o p v h = ground arith

abbrev pub sim_laws : DeviceLaws sim
sim_laws = record {
  active = λ o w. w o;
  on_active = λ o w h. put_self w o true;
  off_active = λ o w h. put_self w o false;
  on_frame = λ o p w h. put_other w o p true h;
  off_frame = λ o p w h. put_other w o p false h;
}

-- The adapter as `GpioArduinoAdapter()` makes it: the default pins, and nothing open.
abbrev pub closed : Bool → Gpio sim
closed mock = record {
  start_pin = pos 17;
  power_pins = pos 22 ∷ pos 23 ∷ pos 24 ∷ [];
  force_mock = mock;
  has_factory = true;
  start_output = none;
  power_outputs = [];
  mock_log = [];
  connection_error = none;
  world = λ p. false;
}

-- The same with its outputs open.
abbrev pub opened : Gpio sim
opened = record (closed false) { start_output = some 17; power_outputs = 22 ∷ 23 ∷ 24 ∷ [] }

-- A forced mock accepts every stop.
abbrev pub mock_reliable : Reliable (gpio_adapter sim)
mock_reliable = record {
  IsUp = λ g. g.force_mock ≡ true;
  send_up = mock_stays sim;
  connected_up = connected_mock sim;
  stop_accepted = mock_stop sim;
  emergency_answered = λ g m. λ i. true;
}

-- A transport that refuses every line.
abbrev pub refusing : Adapter
refusing = record {
  Device = ℕ;
  send_command = λ line n. (some (record { ok = false; message = codes "ERR"; mock = false }), n);
  connected = λ n. (true, n);
  mock_mode = λ n. false;
}

abbrev pub one_minute : PlayStartCommand
one_minute = record {
  duration_seconds = pos 60;
  source = codes "dashboard";
  test_mode = false;
  startup_seconds = pos 4;
}
