-- ===== src/Maintenance.antt =====
-- scripts/maintenance/: the tools for the people who keep the machine.
pub mod Retention
