-- ===== src/Providers/Laws.antt =====
-- What the providers give for the text of a configuration.
pub mod Ports
pub mod Flags
pub mod Protos
pub mod Addresses
