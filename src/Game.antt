-- ===== src/Game.antt =====
-- game/: the high-level game state, from detections and the controller's status.
pub mod Models
pub mod Rules
pub mod Cache
pub mod Engine
