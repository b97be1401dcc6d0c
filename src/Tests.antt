-- ===== src/Tests.antt =====
-- Runs of the definitions at concrete values, and the theorems applied there. The doubles of the
-- values are whole numbers, computed exactly.
pub mod Manager
pub mod Exporter
pub mod Worker
pub mod Files
pub mod Pusher
pub mod Tools
pub mod Maps
pub mod Kernel
pub mod Documents
pub mod Config
pub mod Threads
pub mod Bench
pub mod Running
pub mod Shared
pub mod Rounds
pub mod Lifecycle
