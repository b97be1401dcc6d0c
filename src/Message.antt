-- ===== src/Message.antt =====
-- The messages of proto/*.proto. A field that is not set reads as its default; only of
-- `observe_batch` does the code ask whether it is set. `uint32`, `uint64` and `int32` fields that
-- carry counts, ports and process numbers are numbers, `int64` fields are integers.
use perf_monitor.Prelude.{ℕ, List, Option, Bool}
use perf_monitor.Prelude.Int.{ℤ}
use perf_monitor.Text.{Bytes}

pub record CpuLoad (D : Type 0) : Type 0 where
  pub load_1m : D
  pub load_5m : D
  pub load_15m : D
  pub nr_cores : ℤ

pub record CpuStat (D : Type 0) : Type 0 where
  pub user_pct : D
  pub system_pct : D
  pub idle_pct : D
  pub iowait_pct : D
  pub steal_pct : D
  pub softirq_pct : D

pub record MemInfo (D : Type 0) : Type 0 where
  pub total_gb : D
  pub used_gb : D
  pub free_gb : D
  pub available_gb : D
  pub cached_gb : D
  pub buffers_gb : D
  pub swap_total_gb : D
  pub swap_used_gb : D
  pub used_pct : D

pub record DiskInfo (D : Type 0) : Type 0 where
  pub device : Bytes
  pub read_mbps : D
  pub write_mbps : D
  pub iops : D
  pub io_latency_ms : D

pub record NetInfo (D : Type 0) : Type 0 where
  pub iface : Bytes
  pub rx_mbps : D
  pub tx_mbps : D
  pub rx_packets : ℕ
  pub tx_packets : ℕ
  pub rx_dropped : ℕ
  pub tx_dropped : ℕ
  pub rx_errors : ℕ
  pub tx_errors : ℕ

pub record ProcessEvent : Type 0 where
  pub comm : Bytes
  pub pid : ℕ
  pub ppid : ℕ
  pub filename : Bytes
  pub event : Bytes
  pub ts_ns : ℤ

pub record FlowEvent : Type 0 where
  pub pid : ℕ
  pub comm : Bytes
  pub ppid_comm : Bytes
  pub exe : Bytes
  pub src_ip : Bytes
  pub src_port : ℕ
  pub dst_ip : Bytes
  pub dst_port : ℕ
  pub bytes_sent : ℕ
  pub bytes_recv : ℕ
  pub connect_latency_ns : ℕ
  pub state : Bytes
  pub start_ns : ℕ
  pub last_ns : ℕ

pub record ObserveBatch : Type 0 where
  pub process_events : List ProcessEvent
  pub flow_events : List FlowEvent

pub record DiagnoseEvent (D : Type 0) : Type 0 where
  pub type : Bytes
  pub process_name : Bytes
  pub thread_name : Bytes
  pub file_path : Bytes
  pub timestamp : ℤ
  pub cpu_percent : D

pub record MonitorInfo (D : Type 0) : Type 0 where
  pub hostname : Bytes
  pub ip : Bytes
  pub timestamp : ℤ
  pub cpu_load : CpuLoad D
  pub cpu_stat : CpuStat D
  pub mem : MemInfo D
  pub disks : List (DiskInfo D)
  pub nets : List (NetInfo D)
  pub observe_batch : Option ObserveBatch
  pub diagnose_events : List (DiagnoseEvent D)

pub record SetResponse : Type 0 where
  pub ok : Bool
  pub message : Bytes
