-- ===== src/Supervisor.antt =====
-- The supervisor of the captures: tcpdumpw/main.go.
pub mod Setup
pub mod Tasks
pub mod Stops
pub mod Ranges
pub mod Devices
