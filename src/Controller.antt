-- ===== src/Controller.antt =====
-- controller/: the safety boundary that owns the machine state and all hardware communication.
pub mod Machine
pub mod Safety
pub mod Adapter
pub mod Runtime
pub mod Gpio
pub mod Serial
