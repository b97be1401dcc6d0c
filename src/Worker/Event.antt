-- ===== src/Worker/Event.antt =====
-- `CppDiagnoseEvent` of worker/include/diagnose/bpf_diagnoser.h.
use perf_monitor.Prelude.Int.{ℤ}
use perf_monitor.Text.{Bytes}

pub record CppDiagnoseEvent (D : Type 0) : Type 0 where
  pub type : Bytes
  pub process_name : Bytes
  pub thread_name : Bytes
  pub file_path : Bytes
  pub timestamp : ℤ
  pub cpu_percent : D
