-- ===== src/Processes.antt =====
-- The provider of process filters: tcpdumpw/pkg/filter/process_filter_provider.go.
pub mod Keys
pub mod Parts
pub mod Provider
pub mod Tracks
pub mod Rounds
pub mod Ticks
pub mod Panics
