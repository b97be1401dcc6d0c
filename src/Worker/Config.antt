-- ===== src/Worker/Config.antt =====
-- worker/include/config/config_manager.h: what the configuration holds, less `raw`, which `Load`
-- fills before it reads it.
pub mod Load
pub mod Steps
pub mod Loaded
use perf_monitor.Prelude.{List}
use perf_monitor.Prelude.Int.{ℤ}
use perf_monitor.Text.{Bytes}

pub record OffcpuEntry : Type 0 where
  pub process_name : Bytes
  pub thread_name : Bytes
  pub min_block_us : ℤ
  pub max_block_us : ℤ
  pub interval_s : ℤ
  pub limit_file_size_mb : ℤ
  pub limit_file_num : ℤ

pub record ProfileEntry : Type 0 where
  pub process_name : Bytes
  pub thread_name : Bytes
  pub max_nr : ℤ
  pub max_size_kb : ℤ
  pub cpus : Bytes
  pub cpu_threshold_pct : ℤ

pub record ConfigManager : Type 0 where
  pub offcpu_entries : List OffcpuEntry
  pub profile_entries : List ProfileEntry
  pub perf_cpu_threshold_pct : ℤ
  pub perf_overflow_duration_s : ℤ
  pub perf_target_processes : List Bytes
  pub perf_target_threads : List Bytes
  pub offcpu_bin : Bytes
  pub profile_bin : Bytes
  pub perf_bin : Bytes
  pub output_dir : Bytes
