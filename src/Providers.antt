-- ===== src/Providers.antt =====
-- The providers that turn the configuration into a BPF expression and into the in-process filters:
-- tcpdumpw/pkg/filter, and `providePcapFilter` of pcap-cli/pkg/pcap/pcap.go.
pub mod Texts
pub mod Apply
pub mod Ports
pub mod Protos
pub mod Addresses
pub mod Laws
