-- ===== src/Flows.antt =====
-- The tracking of connections: pcap-cli/internal/transformer/flow_mutex.go.
pub mod Libs
pub mod Carriers
pub mod Tables
pub mod Sessions
pub mod Counters
pub mod Evolution
pub mod Unlocks
pub mod Steps
pub mod Reached
pub mod Greatest
pub mod Lookup
pub mod Filled
pub mod Present
pub mod Nils
pub mod Freed
