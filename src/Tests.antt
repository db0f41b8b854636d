-- ===== src/Tests.antt =====
-- The theorems at concrete inputs, and runs of the code.
mod Devices
mod Runtime
mod Gpio
mod Serial
mod Cloud
mod Services
mod Dashboard
mod Site
mod Media
mod Tools
mod Analytics
mod Logging
mod Eyes
