-- ===== src/Tests/Gpio.antt =====
-- The theorems of controller/adapters/gpio_adapter.py at concrete adapters.
use progress_claw_machine.Shared.{
  ℕ, ◌+◌, ◌*◌, ◌≤◌, ◌≡◌, refl, pos, negsuc, ◌≤ℤ◌, true, false, inl, starts_with, text_eq, arith,
}
use progress_claw_machine.Shared.Decimal.{read_int, show_ℤ}
use progress_claw_machine.Controller.Adapter.{power_line, start_line, stop_line, emergency_line}
use progress_claw_machine.Controller.Gpio.{
  power_level, outputs_ready, all_usable, connect, execute, set_levels, switch, set_power_word,
  last_word, start_off, set_power_level, start_on, send_command, connected,
}
use progress_claw_machine.Controller.Gpio.Levels.{power_level_near}
use progress_claw_machine.Controller.Gpio.{level_bit}
use progress_claw_machine.Controller.Gpio.Lines.{IsLive}
use progress_claw_machine.Controller.Gpio.Pins.{HasPins, pins, stop_pins, power_pins_hold}
use progress_claw_machine.Controller.Gpio.Connection.{IsWhole, send_command-IsWhole}
use progress_claw_machine.Tests.Devices.{sim, sim_laws, closed, opened}

-- To run the adapter: proofs by `refl` open this.
running : ℕ
unfolding send_command starts_with text_eq outputs_ready all_usable connect execute set_power_level
    set_levels switch set_power_word start_on start_off last_word read_int power_level power_line
    start_line show_ℤ
running = 0

opened-IsLive : IsLive sim opened
unfolding running
opened-IsLive = record { not_mock = refl; ready = refl }

opened-HasPins : HasPins opened 17 22 23 24
opened-HasPins = record {
  gate = refl;
  powers = refl;
  a≢b = omega arith;
  a≢c = omega arith;
  b≢c = omega arith;
  s≢a = omega arith;
  s≢b = omega arith;
  s≢c = omega arith;
}

-- Half a step goes to the even level: 55 percent is level 2, and so is 65 percent.
ties : (power_level (pos 55) ≡ 2) × (power_level (pos 65) ≡ 2) × (power_level (negsuc 4) ≡ 0)
unfolding power_level
ties = (refl, refl, refl)

power_level_near_example :
    (power_level (pos 55) ≤ 6)
    × (pos (40 + 10 * power_level (pos 55)) ≤ℤ pos 60)
    × (pos 55 ≤ℤ pos (45 + 10 * power_level (pos 55)))
power_level_near_example = power_level_near (pos 55)

power_sent : (send_command sim (power_line (pos 70)) opened).0.ok ≡ true
unfolding running
power_sent = refl

power_pins_hold_example :
    pins sim sim_laws 17 22 23 24 (send_command sim (power_line (pos 70)) opened).1 ≡ (
      false,
      level_bit (power_level (pos 70)) 0,
      level_bit (power_level (pos 70)) 1,
      level_bit (power_level (pos 70)) 2,
    )
power_pins_hold_example =
    power_pins_hold sim sim_laws (pos 70) opened 17 22 23 24 opened-IsLive opened-HasPins power_sent

stop_sent : (send_command sim stop_line opened).0.ok ≡ true
unfolding running
stop_sent = refl

stop_pins_example :
    pins sim sim_laws 17 22 23 24 (send_command sim stop_line opened).1 ≡ (false, true, true, true)
stop_pins_example = stop_pins sim sim_laws opened 17 22 23 24 opened-IsLive opened-HasPins stop_sent

emergency_sent : (send_command sim emergency_line opened).0.ok ≡ true
unfolding running
emergency_sent = refl

start_sent : (send_command sim (start_line (pos 60)) opened).0.ok ≡ true
unfolding running
start_sent = refl

closed-IsWhole : IsWhole (closed false)
closed-IsWhole = record { none_or_all = inl (refl, refl) }

send_command-IsWhole_example :
    IsWhole (send_command sim stop_line (closed false)).1 × IsWhole (connected sim (closed false)).1
send_command-IsWhole_example = send_command-IsWhole sim stop_line (closed false) closed-IsWhole
