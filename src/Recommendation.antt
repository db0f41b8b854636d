-- ===== src/Recommendation.antt =====
-- recommendation/: operator hints from the game state, the detections and the controller's status.
pub mod Models
pub mod Engine
