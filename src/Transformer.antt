-- ===== src/Transformer.antt =====
-- The flow of packets through the transformer: pcap-cli/internal/transformer/transformer.go.
pub mod Flow
pub mod Order
pub mod Shutdown
pub mod Worker
