-- ===== src/Engines.antt =====
-- The engines of a capture: pcap-cli/pkg/pcap/gopacket_engine.go and tcpdump_engine.go.
pub mod Gopacket
pub mod Tcpdump
pub mod Starts
