-- ===== src/Worker/Kernel/Process.antt =====
-- worker/src/ebpf/process_trace.bpf.c
use perf_monitor.Prelude.{ℕ, ◌/◌, ◌%◌, ◌^◌, List, [], ◌∷◌, ◌++◌}
use perf_monitor.Text.{Bytes}
use perf_monitor.Worker.Kernel.{HashMap, Context, bpf_any}
use perf_monitor.Worker.Observe.{BpfProcessEvent, process_event_size, max_filename_len}

-- `struct proc_info`
pub record ProcInfo : Type 0 where
  pub ppid : ℕ
  pub comm : Bytes
  pub filename : Bytes

-- What `trace_exec` reads besides: the parent's id, the location of the file name in the event, and
-- what `bpf_probe_read_str` reads with a size at an offset of the event.
pub record ExecEvent : Type 0 where
  pub parent_tgid : ℕ
  pub data_loc_filename : ℕ
  pub read_str : ℕ → ℕ → Bytes

-- The cache and the samples given to `process_events`
pub record ProcessState (M : Type 0) : Type 0 where
  pub processes : M
  pub process_events : List (ℕ × BpfProcessEvent)

module _ {M : Type 0} ⦃cache : HashMap M ℕ ProcInfo⦄ where
  unfoldable pub trace_exec : Context → ExecEvent → ProcessState M → ProcessState M
  trace_exec ctx exec s =
      let pid = ctx.pid_tgid / 2 ^ 32 in
      let filename = exec.read_str max_filename_len (exec.data_loc_filename % 2 ^ 16) in
      let ev : BpfProcessEvent = record {
        pid = pid;
        ppid = exec.parent_tgid;
        comm = ctx.comm;
        filename = filename;
        event_type = 0;
        ts_ns = ctx.clock 0;
      } in
      let info : ProcInfo = record {
        ppid = exec.parent_tgid;
        comm = ctx.comm;
        filename = filename;
      } in
      record {
        processes = cache.update_elem s.processes pid info bpf_any;
        process_events = s.process_events ++ (process_event_size, ev) ∷ [];
      }

  unfoldable pub trace_exit : Context → ProcessState M → ProcessState M
  trace_exit ctx s =
      let pid = ctx.pid_tgid / 2 ^ 32 in
      let ev : BpfProcessEvent = record {
        pid = pid;
        ppid = 0;
        comm = ctx.comm;
        filename = [];
        event_type = 1;
        ts_ns = ctx.clock 0;
      } in
      record {
        processes = cache.delete_elem s.processes pid;
        process_events = s.process_events ++ (process_event_size, ev) ∷ [];
      }
