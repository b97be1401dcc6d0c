-- ===== src/Worker/Monitor.antt =====
-- worker/src/monitor: the metrics of the host. A monitor reads a file of /proc by `ReadFile`, which
-- gives the empty text where the file cannot be opened; the text is an argument.
pub mod CpuStat
pub mod Net
pub mod Disk
pub mod Mem
pub mod Load
pub mod Collector
pub mod Percent
pub mod Rates
pub mod DiskRates
pub mod Rounds
pub mod Shares
use perf_monitor.Prelude.{ℕ, ◌+◌, ◌-◌, ◌%◌, ◌^◌}

-- `a - b` on `uint64_t`
abbrev pub sub_u64 : ℕ → ℕ → ℕ
sub_u64 a b = (a % 2 ^ 64 + 2 ^ 64 - b % 2 ^ 64) % 2 ^ 64
