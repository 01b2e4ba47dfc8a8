-- ===== src/Examples.antt =====
-- The theorems at concrete inputs, and tests of the definitions.
mod Filters
mod Flags
mod Fsnotify
mod Providers
mod Transformer
mod Flows
mod Json
mod Processes
mod Order
mod Engines
mod Supervisor
mod Worker
