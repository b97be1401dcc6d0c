-- ===== src/Worker.antt =====
-- The worker: what it reads, how it runs the diagnose tools, and what it sends to the manager.
pub mod Proc
pub mod Files
pub mod System
pub mod Runner
pub mod Event
pub mod Bpf
pub mod Monitor
pub mod Observe
pub mod Kernel
pub mod Perf
pub mod Pusher
pub mod Config
pub mod Directories
pub mod Child
pub mod ReadFile
