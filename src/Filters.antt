-- ===== src/Filters.antt =====
-- The in-process packet filters: pcap-cli/internal/transformer/packet_filter.go, utils.go and the
-- tests of translator_worker.go that decide whether a packet is translated.
pub mod TcpFlags
pub mod Addrs
pub mod Libs
pub mod Config
pub mod Queries
pub mod Worker
pub mod Admission
