-- ===== src/Tests/Serial.antt =====
-- The theorems of controller/adapters/arduino_adapter.py at concrete ports.
use progress_claw_machine.Shared.{
  ℕ, suc, ◌≡◌, ◌↔◌, refl, codes, true, false, none, some, [], ◌∷◌, pos, strip, starts_with,
}
use progress_claw_machine.Shared.Action.{ok, err, is_ok}
use progress_claw_machine.Controller.Adapter.{ArduinoResponse}
use progress_claw_machine.Controller.Machine.{default_state, default_emergency_stop, running, play}
use progress_claw_machine.Controller.Safety.{transport_raised}
use progress_claw_machine.Controller.Runtime.{Runtime, emergency_stop}
use progress_claw_machine.Controller.Serial.{
  serial_adapter, Port, Serial, send_command, connect, discover_port, exchange,
}
use progress_claw_machine.Controller.Serial.Outcome.{
  BreaksOn, send_command_raises_iff, Accepted, send_command-Accepted,
}

-- A port that opens and answers `OK`; its world counts the lines.
abbrev good : Port
good = record {
  World = ℕ;
  Handle = Unit {0};
  glob = λ pattern w. codes "/dev/ttyUSB0" ∷ [];
  exists = λ path w. true;
  open_port = λ path baud w. (ok tt, w);
  write = λ h line w. (ok tt, suc w);
  flush = λ h w. (ok tt, w);
  read_line = λ h w. (ok (codes "OK STOPPED "), w);
  close_port = λ h w. (ok tt, w);
}

-- A port that was unplugged: nothing works after it has opened.
abbrev unplugged : Port
unplugged = record good {
  write = λ h line w. (err (codes "unplugged"), w);
  close_port = λ h w. (err (codes "unplugged"), w);
}

abbrev adapter : (p : Port) → p.World → Serial p
adapter p w = record {
  port = none;
  baud_rate = pos 115200;
  force_mock = false;
  device_patterns = codes "/dev/ttyUSB*" ∷ [];
  has_serial = true;
  handle = none;
  mock_log = [];
  world = w;
}

send_command_raises_iff_example :
    (is_ok (send_command unplugged (codes "PLAY STOP") (adapter unplugged 0)).0 ≡ false)
    ↔ ((h : Unit {0}) × BreaksOn unplugged (codes "PLAY STOP") (adapter unplugged 0) h)
send_command_raises_iff_example =
    send_command_raises_iff unplugged (codes "PLAY STOP") (adapter unplugged 0)

abbrev ok_stopped : ArduinoResponse
ok_stopped = record { ok = true; message = codes "OK STOPPED"; mock = false }

stop_accepted : (send_command good (codes "PLAY STOP") (adapter good 0)).0 ≡ ok ok_stopped
unfolding send_command discover_port exchange starts_with
stop_accepted = refl

send_command-Accepted_example :
    Accepted good (strip (codes "PLAY STOP")) (connect good (adapter good 0)) ok_stopped
send_command-Accepted_example =
    send_command-Accepted good (codes "PLAY STOP") (adapter good 0) ok_stopped stop_accepted refl

-- A play that goes on when the port is pulled out, and the emergency stop that then raises: the play
-- stays, and the flag is set.
abbrev moving : Runtime (serial_adapter unplugged)
moving = record {
  arduino = adapter unplugged 0;
  state = record default_state { status = running; play_mode = some play };
  play_generation = 1;
  timers = [];
}

emergency_raises :
    let (r, c) = emergency_stop (serial_adapter unplugged) default_emergency_stop moving in
    (r ≡ err transport_raised)
    × (c.state.play_mode ≡ some play)
    × (c.state.emergency_stopped ≡ true)
unfolding emergency_stop send_command discover_port exchange
emergency_raises = (refl, refl, refl)
