-- ===== src/Tests/Site.antt =====
-- The theorems of dashboard/backend/ about the whole site at concrete inputs.
use progress_claw_machine.Shared.{
  ◌+◌, ◌+ℤ◌, ◌≡◌, ◌⊎◌, refl, pos, codes, true, false, none, some, [],
}
use progress_claw_machine.Controller.Adapter.{Adapter, power_line, start_line}
use progress_claw_machine.Controller.Machine.{default_state}
use progress_claw_machine.Controller.Gpio.{gpio_adapter, send_command, connected, connect}
use progress_claw_machine.Controller.Runtime
use progress_claw_machine.Controller.Safety.{validate_start}
use progress_claw_machine.Dashboard.Panel.{manual, play_duration_seconds}
use progress_claw_machine.Dashboard.Board.{Board, ready, refresh_arduino_connection, trigger_play}
use progress_claw_machine.Dashboard.Board.Play.{play_route, begin_play}
use progress_claw_machine.Dashboard.Board.Settings.{settings}
use progress_claw_machine.Dashboard.Board.Touch.{IsInTouch}
use progress_claw_machine.Dashboard.Board.Credit.{is_played, switch, play_route_cost, switch_lost}
use progress_claw_machine.Dashboard.Admin.{Site, reboot, mock}
use progress_claw_machine.Dashboard.Admin.Steps.{
  serve, administer, post_play, post_maintenance, post_power_action, start, then_step, requested,
  administered, AdminRequest,
}
use progress_claw_machine.Dashboard.Admin.Guards.{SiteReach-IsInTouch}
use progress_claw_machine.Dashboard.Admin.Effects.{IsAllowed, effects_guarded}
use progress_claw_machine.Tests.Devices.{sim, closed}

abbrev transport : Adapter
transport = gpio_adapter sim

-- A board with a photo and two credits, and a controller that has just started.
abbrev board : Board transport
board = record {
  panel = record {
    people = 10;
    target = 5;
    credits = 2;
    grabber_power_percent = pos 60;
    manual_grabber_power_percent = pos 60;
    grabber_power_mode = manual;
    ai_people_count = 0;
    ai_grabber_power_percent = pos 60;
  };
  plays_today = 0;
  machine_enabled = true;
  maintenance_mode = false;
  arduino_connected = false;
  machine_status = ready;
  play_mode = none;
  countdown_starts_at = none;
  play_ends_at = none;
  play_duration = pos 60;
  ready_duration = pos 3;
  grabber_start_duration = pos 1;
  player_photo_ready = true;
  player_photo_version = 1;
  current_player_name = some (codes "Ada");
  players = [];
  last_play = none;
  events = [];
  play_generation = 0;
  runtime = record {
    arduino = closed true;
    state = default_state;
    play_generation = 0;
    timers = [];
  };
}

board-IsInTouch : IsInTouch transport board
board-IsInTouch = record { shown = λ h. cc; parked = λ h. cc }

abbrev site : Site transport
site = record {
  config = record {
    admin_pin = codes "2468";
    secret_key = codes "secret";
    session_seconds = pos 300;
  };
  board = board;
  session = record { attempts = λ client. []; expires_at = some (pos 9000) };
  effects = [];
}

abbrev park : AdminRequest
park = post_maintenance (some true) (some (codes "ENTER_MAINTENANCE"))

abbrev restart_machine : AdminRequest
restart_machine = post_power_action (some reboot) (some (codes "REBOOT_RASPBERRY_PI")) mock true

-- The site after a play has begun.
abbrev busy : Site transport
busy = record site { board = serve transport (post_play false (codes "10:00")) (pos 5) board }

SiteReach-IsInTouch_example : IsInTouch transport (administer transport park (pos 6) busy).1.board
SiteReach-IsInTouch_example =
    SiteReach-IsInTouch transport
      (then_step (then_step start (requested (post_play false (codes "10:00")) (pos 5)))
        (administered park (pos 6)))
      board-IsInTouch

-- A reboot is asked for in maintenance.
effects_guarded_example :
    let s = (administer transport park (pos 6) site).1 in
    ((administer transport restart_machine (pos 7) s).1.effects ≡ s.effects)
    ⊎ IsAllowed transport false (pos 7) s
effects_guarded_example =
    effects_guarded transport (then_step start (administered park (pos 6))) board-IsInTouch
      restart_machine (pos 7)

play_begun : is_played (play_route transport false (pos 5) (codes "10:00") board).0 ≡ true
unfolding play_route refresh_arduino_connection trigger_play Runtime.start_play Runtime.send_checked
    validate_start Runtime.status play_duration_seconds ◌+ℤ◌ send_command power_line connected
    connect start_line begin_play
play_begun = refl

play_route_cost_example :
    let t = (play_route transport false (pos 5) (codes "10:00") board).1 in
    (board.maintenance_mode ≡ false)
    × (board.play_mode ≡ none)
    × (board.player_photo_ready ≡ true)
    × (t.player_photo_ready ≡ false)
    × (false ≡ false → (t.panel.credits + 1 ≡ 2) × (t.plays_today ≡ 0 + 1))
    × (false ≡ true → (t.panel.credits ≡ 2) × (t.plays_today ≡ 0))
play_route_cost_example =
    (play_route_cost transport false (pos 5) (codes "10:00") board).0 play_begun

switch_lost_example :
    let t = (settings transport (switch transport false) board).1 in
    (t.machine_enabled ≡ true) × (t.runtime.state.machine_enabled ≡ true)
switch_lost_example = switch_lost transport false board refl
