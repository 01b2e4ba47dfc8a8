-- ===== src/Json.antt =====
-- The JSON translator: pcap-cli/internal/transformer/json_translator.go.
pub mod Libs
pub mod Documents
pub mod Headers
pub mod Frames
pub mod Http
pub mod Layers
pub mod Final
pub mod Calm
pub mod Releases
pub mod Nils
pub mod Directions
pub mod Linked
pub mod Streams
pub mod Runs
pub mod Kept
pub mod Links
pub mod Output
pub mod Options
