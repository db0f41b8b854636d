-- ===== src/Game/Models.antt =====
-- game/state_models.py. `Source` and `Details` have the values that the engine gives.
use progress_claw_machine.Shared.{ℕ, ℤ, Text, Option, List}
use progress_claw_machine.Controller.Machine.{Snapshot}

pub data GameState : Type 0 where
  idle player_present player_count_changed ready_to_play playing grabbing : GameState
  prize_detected prize_captured failed_attempt timeout error : GameState

pub data Source : Type 0 where
  initial runtime timer runtime_event vision game_state_engine : Source

pub data Details : Type 0 where
  no_details : Details
  runtime_status : Snapshot → Details
  events : List Text → Details
  prizes : Option ℕ → ℕ → Details
  players : ℕ → Option ℕ → Details
  last_seen : ℤ → Details
  detection_unavailable : Details
  frame : Option ℕ → Details
  failure : Text → Details

-- `timestamp` is the text of `utc_timestamp`; the confidence is in units of 0.0001.
pub record GameStateEvent : Type 0 where
  pub state : GameState
  pub timestamp : Text
  pub confidence : ℕ
  pub source : Source
  pub details : Details
