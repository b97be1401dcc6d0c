-- ===== src/Rpc.antt =====
-- manager/src/rpc/grpc_server.cpp: the two calls of `MonitorService`. `time(nullptr)` is an
-- argument. Both calls return `grpc::Status::OK` on every path. `Start` is gRPC's own work.
pub mod Stored
use perf_monitor.Prelude.{
  ℕ, ◌+◌, ◌%◌, ◌^◌, Bool, true, List, [], ◌∷◌, ◌++◌, Option, none, some, if◌then◌else◌, map,
}
use perf_monitor.Prelude.Int.{ℤ, pos, ◌+ℤ◌, to_u64, to_i64}
use perf_monitor.Text.{Bytes, codes, str_eq}
use perf_monitor.Double.{Double}
use perf_monitor.Message.{
  CpuLoad, CpuStat, MemInfo, DiskInfo, NetInfo, ProcessEvent, FlowEvent, ObserveBatch,
  DiagnoseEvent, MonitorInfo, SetResponse,
}
use perf_monitor.Host.{DiagnoseRecord, HostSnapshot, Hosts, empty_snapshot, get, update}

-- `int64_t += uint64_t`: the sum is taken modulo 2^64, and read back as signed.
unfoldable pub add_u64 : ℤ → ℕ → ℤ
add_u64 total n = to_i64 ((to_u64 total + n) % 2 ^ 64)

module _ {D : Type 0} ⦃d : Double D⦄ where
  open d use {of_ℕ, add, sub}

  unfoldable pub total_iops : D → List (DiskInfo D) → D
  total_iops total [] = total
  total_iops total (disk ∷ disks) = total_iops (add total disk.iops) disks

  -- `rx`, `tx` and `rx_dropped` of the loop over the interfaces
  unfoldable pub total_net : D × D × D → List (NetInfo D) → D × D × D
  total_net sums [] = sums
  total_net (rx, tx, dropped) (net ∷ nets) =
      total_net (add rx net.rx_mbps, add tx net.tx_mbps, add dropped (of_ℕ net.rx_dropped)) nets

  unfoldable pub count_processes : HostSnapshot D → List ProcessEvent → HostSnapshot D
  count_processes snap [] = snap
  count_processes snap (pe ∷ rest) =
      count_processes
        (if str_eq pe.event (codes "exec")
          then record snap { proc_exec_count = snap.proc_exec_count +ℤ pos 1 }
          else record snap { proc_exit_count = snap.proc_exit_count +ℤ pos 1 })
        rest

  unfoldable pub count_flows : HostSnapshot D → List FlowEvent → HostSnapshot D
  count_flows snap [] = snap
  count_flows snap (fe ∷ rest) =
      count_flows
        (record snap {
          tcp_flow_count = snap.tcp_flow_count +ℤ pos 1;
          tcp_bytes_sent = add_u64 snap.tcp_bytes_sent fe.bytes_sent;
          tcp_bytes_recv = add_u64 snap.tcp_bytes_recv fe.bytes_recv;
        })
        rest

  unfoldable pub observe : HostSnapshot D → Option ObserveBatch → HostSnapshot D
  observe snap none = snap
  observe snap (some batch) =
      count_flows (count_processes snap batch.process_events) batch.flow_events

  unfoldable pub diagnose_record : DiagnoseEvent D → DiagnoseRecord D
  diagnose_record de = record {
    type = de.type;
    process_name = de.process_name;
    file_path = de.file_path;
    timestamp = de.timestamp;
    cpu_percent = de.cpu_percent;
  }

  -- The metrics of the snapshot that `SetMonitorInfo` builds.
  unfoldable pub metrics_of : ℤ → MonitorInfo D → HostSnapshot D
  unfolding empty_snapshot
  metrics_of now request =
      let (rx, tx, dropped) = total_net (of_ℕ 0, of_ℕ 0, of_ℕ 0) request.nets in
      let fresh : HostSnapshot D = empty_snapshot in
      record fresh {
        last_update = now;
        load_1m = request.cpu_load.load_1m;
        cpu_used_pct = sub (of_ℕ 100) request.cpu_stat.idle_pct;
        mem_used_pct = request.mem.used_pct;
        disk_iops = total_iops (of_ℕ 0) request.disks;
        net_rx_mbps = rx;
        net_tx_mbps = tx;
        net_rx_dropped = dropped;
      }

  unfoldable pub snapshot_of : ℤ → MonitorInfo D → HostSnapshot D
  unfolding metrics_of
  snapshot_of now request =
      let observed = observe (metrics_of now request) request.observe_batch in
      record observed {
        diagnose_events = observed.diagnose_events ++ map diagnose_record request.diagnose_events;
      }

  unfoldable pub set_monitor_info : Hosts D → ℤ → MonitorInfo D → Hosts D × SetResponse
  set_monitor_info hosts now request = (
    update hosts request.hostname (snapshot_of now request),
    record { ok = true; message = codes "OK" },
  )

  abbrev empty_load : CpuLoad D
  empty_load = record { load_1m = of_ℕ 0; load_5m = of_ℕ 0; load_15m = of_ℕ 0; nr_cores = pos 0 }

  abbrev empty_stat : CpuStat D
  empty_stat = record {
    user_pct = of_ℕ 0;
    system_pct = of_ℕ 0;
    idle_pct = of_ℕ 0;
    iowait_pct = of_ℕ 0;
    steal_pct = of_ℕ 0;
    softirq_pct = of_ℕ 0;
  }

  abbrev empty_mem : MemInfo D
  empty_mem = record {
    total_gb = of_ℕ 0;
    used_gb = of_ℕ 0;
    free_gb = of_ℕ 0;
    available_gb = of_ℕ 0;
    cached_gb = of_ℕ 0;
    buffers_gb = of_ℕ 0;
    swap_total_gb = of_ℕ 0;
    swap_used_gb = of_ℕ 0;
    used_pct = of_ℕ 0;
  }

  -- The response that `GetMonitorInfo` fills, which starts empty.
  unfoldable pub get_monitor_info : Hosts D → Bytes → MonitorInfo D
  get_monitor_info hosts hostname =
      let snap = get hosts hostname in
      record {
        hostname = hostname;
        ip = [];
        timestamp = snap.last_update;
        cpu_load = record empty_load { load_1m = snap.load_1m };
        cpu_stat = record empty_stat { idle_pct = sub (of_ℕ 100) snap.cpu_used_pct };
        mem = record empty_mem { used_pct = snap.mem_used_pct };
        disks = [];
        nets = [];
        observe_batch = none;
        diagnose_events = [];
      }
