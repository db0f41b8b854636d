-- ===== src/Dashboard.antt =====
-- dashboard/backend/: the parts of the dashboard that hold rules of their own.
pub mod Auth
pub mod Wifi
pub mod Panel
pub mod Board
pub mod Admin
pub mod Camera
pub mod App
pub mod Photos
