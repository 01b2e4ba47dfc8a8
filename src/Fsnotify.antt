-- ===== src/Fsnotify.antt =====
-- The exporter of capture files: pcap-fsnotify.
pub mod Exporter
pub mod Watcher
pub mod Endings
