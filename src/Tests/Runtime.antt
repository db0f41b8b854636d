-- ===== src/Tests/Runtime.antt =====
-- The theorems of controller/core/runtime_controller.py at concrete controllers.
use progress_claw_machine.Shared.{codes, ◌≡◌, refl, pos, true, false, none, some, [], ◌∷◌, arith}
use progress_claw_machine.Shared.Action.{err, is_ok}
use progress_claw_machine.Controller.Machine.{
  default_state, running, fault, emergency_stopped, play, PlayStartCommand, ClawPowerCommand,
  default_stop, default_emergency_stop,
}
use progress_claw_machine.Controller.Safety.{
  validate_start, could_not, Attempt, emergency_stop_active,
}
use progress_claw_machine.Controller.Adapter.{Adapter, ArduinoResponse, power_line, start_line}
use progress_claw_machine.Controller.Gpio.{gpio_adapter, send_command, connected, connect}
use progress_claw_machine.Controller.Runtime.{
  Runtime, send_checked, start_play, stop_play, set_claw_power, emergency_stop, auto_stop,
}
use progress_claw_machine.Controller.Runtime.Steps.{here, next, started, powered, halted}
use progress_claw_machine.Controller.Runtime.Invariant.{IsConsistent, Reach-IsConsistent}
use progress_claw_machine.Controller.Runtime.Timers.{
  pending, IsScheduled, Reach-IsScheduled, auto_stop-earlier,
}
use progress_claw_machine.Controller.Runtime.Halted.{IsHalted, Reach-IsHalted}
use progress_claw_machine.Controller.Runtime.Guard.{IsGuarded, Reach-IsGuarded, stop_play_unguarded}
use progress_claw_machine.Controller.Runtime.Commands.{emergency_stop_effect, emergency_locks}
use progress_claw_machine.Tests.Devices.{sim, closed, mock_reliable, refusing, one_minute}

abbrev mock : Adapter
mock = gpio_adapter sim

abbrev fresh : Runtime mock
fresh = record { arduino = closed true; state = default_state; play_generation = 0; timers = [] }

fresh-IsConsistent : IsConsistent fresh.state
fresh-IsConsistent = ground arith

fresh-IsScheduled : IsScheduled fresh
fresh-IsScheduled = ground arith

fresh-IsGuarded : IsGuarded fresh
fresh-IsGuarded = record { scheduled = fresh-IsScheduled; guard = λ h. cc }

Reach-IsConsistent_example : IsConsistent (start_play mock one_minute (pos 5000) fresh).1.state
Reach-IsConsistent_example =
    Reach-IsConsistent mock (next here (started one_minute (pos 5000))) fresh-IsConsistent

Reach-IsGuarded_example :
    ((start_play mock one_minute (pos 5000) fresh).1.arduino.force_mock ≡ true)
    × IsGuarded (start_play mock one_minute (pos 5000) fresh).1
Reach-IsGuarded_example =
    Reach-IsGuarded mock mock_reliable (next here (started one_minute (pos 5000))) refl
      fresh-IsGuarded

-- A controller whose play is on, over a transport that refuses every line.
abbrev stuck : Runtime refusing
stuck = record {
  arduino = 0;
  state = record default_state {
    status = running;
    play_mode = some play;
    play_started_at = some (pos 5000);
    play_ends_at = some (pos 69000);
  };
  play_generation = 1;
  timers = record { generation = 1; seconds = pos 64 } ∷ [];
}

stuck-IsScheduled : IsScheduled stuck
stuck-IsScheduled = ground arith

abbrev refused_line : ArduinoResponse
refused_line = record { ok = false; message = codes "ERR"; mock = false }

stop_play_unguarded_example :
    let (r, d) = stop_play refusing default_stop stuck in
    (r ≡ err (could_not Attempt.stop_play (codes "ERR")))
    × (d.state.play_mode ≡ some play)
    × (d.state.status ≡ fault)
    × (pending d.play_generation d.timers ≡ 0)
stop_play_unguarded_example =
    stop_play_unguarded refusing default_stop stuck refused_line stuck-IsScheduled refl refl refl

started_ok : is_ok (start_play mock one_minute (pos 5000) fresh).0 ≡ true
unfolding start_play send_checked validate_start send_command power_line start_line connected
    connect
started_ok = refl

abbrev too_short : PlayStartCommand
too_short = record one_minute { duration_seconds = pos 9 }

-- A start of nine seconds is refused.
refused : is_ok (start_play mock too_short (pos 5000) fresh).0 ≡ false
unfolding start_play validate_start
refused = refl

abbrev weak : ClawPowerCommand
weak = record { power_percent = pos 30; source = [] }

abbrev halted_runtime : Runtime refusing
halted_runtime = record stuck {
  state = record default_state { emergency_stopped = true; status = emergency_stopped };
  play_generation = 2;
}

emergency_stop_effect_example :
    let (r, d) = emergency_stop refusing default_emergency_stop stuck in
    (is_ok r ≡ true)
    × (d.state.emergency_stopped ≡ true)
    × (d.state.status ≡ emergency_stopped)
    × (d.state.play_mode ≡ none)
    × (d.state.play_ends_at ≡ none)
    × (pending d.play_generation d.timers ≡ 0)
emergency_stop_effect_example =
    emergency_stop_effect refusing default_emergency_stop stuck stuck-IsScheduled.started_by

emergency_locks_example :
    set_claw_power refusing weak halted_runtime ≡ (err emergency_stop_active, halted_runtime)
emergency_locks_example = (emergency_locks refusing halted_runtime refl refl).2 weak

auto_stop-earlier_example :
    auto_stop mock 0 (set_claw_power mock weak (start_play mock one_minute (pos 5000) fresh).1).1
    ≡ (set_claw_power mock weak (start_play mock one_minute (pos 5000) fresh).1).1
auto_stop-earlier_example =
    auto_stop-earlier mock one_minute (pos 5000) fresh _ started_ok (next here (powered weak)) 0
      (omega arith)

abbrev playing : Runtime mock
playing = (start_play mock one_minute (pos 5000) fresh).1

Reach-IsScheduled_example : IsScheduled (set_claw_power mock weak playing).1
Reach-IsScheduled_example =
    Reach-IsScheduled mock (next (next here (started one_minute (pos 5000))) (powered weak))
      fresh-IsScheduled

fresh-IsHalted : IsHalted fresh
fresh-IsHalted = record { no_play = λ e. cc; shown = λ e. cc }

-- An emergency stop during a play.
Reach-IsHalted_example :
    ((emergency_stop mock default_emergency_stop playing).1.arduino.force_mock ≡ true)
    × IsHalted (emergency_stop mock default_emergency_stop playing).1
Reach-IsHalted_example =
    Reach-IsHalted mock mock_reliable
      (next (next here (started one_minute (pos 5000))) (halted default_emergency_stop)) refl
      fresh-IsHalted
