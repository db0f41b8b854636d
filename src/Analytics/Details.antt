-- ===== src/Analytics/Details.antt =====
-- analytics/service.py and analytics/models.py: the details that the collectors put into events.
use progress_claw_machine.Shared.{Text, Bool, Option, ℕ, List}
use progress_claw_machine.Controller.Machine.{Status, PlayMode, Snapshot}
use progress_claw_machine.Vision.Detections.{DetectedObject}
use progress_claw_machine.Game.Models
use progress_claw_machine.Recommendation.Models.{Evidence}

-- The entries of the controller's status that are collected.
pub record Relevant : Type 0 where
  pub status : Status
  pub running : Bool
  pub play_mode : Option PlayMode
  pub arduino_connected : Bool
  pub mock_arduino : Bool
  pub emergency_stopped : Bool
  pub machine_enabled : Bool
  pub last_error : Option Text

abbrev pub relevant : Snapshot → Relevant
relevant s = record {
  status = s.state.status;
  running = s.running;
  play_mode = s.state.play_mode;
  arduino_connected = s.state.arduino_connected;
  mock_arduino = s.state.mock_arduino;
  emergency_stopped = s.state.emergency_stopped;
  machine_enabled = s.state.machine_enabled;
  last_error = s.state.last_error;
}

-- `AnalyticsEvent.details`, by the collector that gives them.
pub data Payload : Type 0 where
  of_runtime : Relevant → Payload
  of_vision : Option ℕ → List DetectedObject → Payload
  of_game : Models.Details → Payload
  of_recommendation : Text → Evidence → Payload
