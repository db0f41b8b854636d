-- ===== src/Analytics.antt =====
-- analytics/: the store of events, what is collected into it, and the views on it.
pub mod Details
pub mod Store
pub mod Service
pub mod Summary
pub mod Api
