-- ===== src/Fsnotify/Watcher.antt =====
-- The watcher of the directory of capture files: `exportPcapFile`, `flushSrcDir` and the event loop
-- of pcap-fsnotify/main.go. Logging is left out, but for the count of leaks that it reports.
pub mod Defs
pub mod Rotation
pub mod Events
pub mod Queue
pub mod Flush
