-- ===== src/Cloud.antt =====
-- cloud/: the optional status synchronisation, which must not disturb the machine.
pub mod Models
pub mod Errors
pub mod Service
pub mod Diagnostics
pub mod Routes
