-- ===== src/Worker/Pusher.antt =====
-- worker/src/rpc/monitor_pusher.cpp: the report that one round builds, and the round. What the
-- round reads is an argument: the texts of /proc, the samples that wait in the two buffers. The
-- connection is gRPC's work, and the loop runs the round again and again; the thread of the perf
-- diagnoser takes its turns between the rounds.
pub mod Delivered
pub mod Start
pub mod Run
pub mod Lifecycle
pub mod Scraped
pub mod Ready
use perf_monitor.Prelude.{ℕ, Bool, List, [], ◌∷◌, ◌++◌, Option, none, some, map, if◌then◌else◌}
use perf_monitor.Prelude.Int.{ℤ}
use perf_monitor.Text.{Bytes}
use perf_monitor.Text.Stream.{Stream}
use perf_monitor.Double.{Double}
use perf_monitor.Message.{
  CpuLoad, CpuStat, MemInfo, DiskInfo, NetInfo, ProcessEvent, FlowEvent, ObserveBatch,
  DiagnoseEvent, MonitorInfo,
}
use perf_monitor.Worker.Monitor.CpuStat.{CpuStatPct}
use perf_monitor.Worker.Monitor.Net.{NetStats}
use perf_monitor.Worker.Monitor.Disk.{DiskStats}
use perf_monitor.Worker.Monitor.Mem.{MemMonitor}
use perf_monitor.Worker.Monitor.Load.{CpuLoadMonitor}
use perf_monitor.Worker.Monitor.Collector
use perf_monitor.Worker.Monitor.Collector.{MetricCollector, ProcText}
use perf_monitor.Worker.Observe
use perf_monitor.Worker.Observe.{
  BpfProcessEvent, BpfFlowEvent, CppProcessEvent, CppFlowEvent, ObserveCollector,
}
use perf_monitor.Worker.System.{System, World, M, pure, ◌>>=◌, ◌>>◌, ask}
use perf_monitor.Worker.Event.{CppDiagnoseEvent}
use perf_monitor.Worker.Bpf.{BpfDiagnoser}
use perf_monitor.Worker.Bpf.Cycle
use perf_monitor.Worker.Perf
use perf_monitor.Worker.Perf.{PerfDiagnoser}

-- `connected`: the stub was made.
pub record MonitorPusher (D : Type 0) : Type 0 where
  pub metrics : MetricCollector D
  pub observer : ObserveCollector
  pub bpf_diagnoser : BpfDiagnoser D
  pub perf_diagnoser : PerfDiagnoser D
  pub connected : Bool

pub record Readings : Type 0 where
  pub text : ProcText
  pub processes : List (ℕ × BpfProcessEvent)
  pub flows : List (ℕ × BpfFlowEvent)

unfoldable pub process_message : CppProcessEvent → ProcessEvent
process_message pe = record {
  comm = pe.comm;
  pid = pe.pid;
  ppid = pe.ppid;
  filename = pe.filename;
  event = pe.event;
  ts_ns = pe.ts_ns;
}

unfoldable pub flow_message : CppFlowEvent → FlowEvent
flow_message fe = record {
  pid = fe.pid;
  comm = fe.comm;
  ppid_comm = fe.ppid_comm;
  exe = fe.exe;
  src_ip = fe.src_ip;
  src_port = fe.src_port;
  dst_ip = fe.dst_ip;
  dst_port = fe.dst_port;
  bytes_sent = fe.bytes_sent;
  bytes_recv = fe.bytes_recv;
  connect_latency_ns = fe.connect_latency_ns;
  state = fe.state;
  start_ns = fe.start_ns;
  last_ns = fe.last_ns;
}

module _ {D : Type 0} where
  unfoldable pub load_message : CpuLoadMonitor D → CpuLoad D
  load_message load = record {
    load_1m = load.load_1m;
    load_5m = load.load_5m;
    load_15m = load.load_15m;
    nr_cores = load.nr_cores;
  }

  unfoldable pub stat_message : CpuStatPct D → CpuStat D
  stat_message pct = record {
    user_pct = pct.user;
    system_pct = pct.system;
    idle_pct = pct.idle;
    iowait_pct = pct.iowait;
    steal_pct = pct.steal;
    softirq_pct = pct.softirq;
  }

  unfoldable pub mem_message : MemMonitor D → MemInfo D
  mem_message mem = record {
    total_gb = mem.total_gb;
    used_gb = mem.used_gb;
    free_gb = mem.free_gb;
    available_gb = mem.available_gb;
    cached_gb = mem.cached_gb;
    buffers_gb = mem.buffers_gb;
    swap_total_gb = mem.swap_total_gb;
    swap_used_gb = mem.swap_used_gb;
    used_pct = mem.used_pct;
  }

  unfoldable pub disk_message : DiskStats D → DiskInfo D
  disk_message ds = record {
    device = ds.device;
    read_mbps = ds.read_mbps;
    write_mbps = ds.write_mbps;
    iops = ds.iops;
    io_latency_ms = ds.io_latency_ms;
  }

  unfoldable pub net_message : NetStats D → NetInfo D
  net_message ns = record {
    iface = ns.iface;
    rx_mbps = ns.rx_mbps;
    tx_mbps = ns.tx_mbps;
    rx_packets = ns.rx_packets;
    tx_packets = ns.tx_packets;
    rx_dropped = ns.rx_dropped;
    tx_dropped = ns.tx_dropped;
    rx_errors = ns.rx_errors;
    tx_errors = ns.tx_errors;
  }

  unfoldable pub event_message : CppDiagnoseEvent D → DiagnoseEvent D
  event_message ev = record {
    type = ev.type;
    process_name = ev.process_name;
    thread_name = ev.thread_name;
    file_path = ev.file_path;
    timestamp = ev.timestamp;
    cpu_percent = ev.cpu_percent;
  }

  -- From `MonitorInfo info;` to the push
  unfoldable pub build_info : MonitorPusher D → ℤ → MonitorInfo D
  unfolding process_message flow_message load_message stat_message mem_message disk_message
      net_message event_message
  build_info self now = record {
    hostname = self.metrics.host.hostname;
    ip = self.metrics.host.ip;
    timestamp = now;
    cpu_load = load_message self.metrics.cpu_load;
    cpu_stat = stat_message self.metrics.cpu_stat.pct;
    mem = mem_message self.metrics.mem;
    disks = map disk_message self.metrics.disk.disks;
    nets = map net_message self.metrics.net.interfaces;
    observe_batch = some (record {
      process_events = map process_message self.observer.process_events;
      flow_events = map flow_message self.observer.flow_events;
    });
    diagnose_events =
        map event_message self.bpf_diagnoser.events ++ map event_message self.perf_diagnoser.events;
  }

module _ {D : Type 0} ⦃d : Double D⦄ (os : System) (extract_double : D → Stream → D × Stream)
    (inet_ntop : ℕ → Bytes) where
  -- `do_push` behind `metrics_.Collect()`, and the message that is sent, if one is.
  unfoldable pub push : MonitorPusher D → Readings → M (MonitorPusher D × Option (MonitorInfo D))
  unfolding Observe.collect Observe.reset Cycle.collect Cycle.reset Perf.reset build_info ask
  push self readings = do
    bpf ← Cycle.collect os self.bpf_diagnoser
    now ← ask os.time
    let collected : MonitorPusher D = record self {
      observer = Observe.collect inet_ntop self.observer readings.processes readings.flows;
      bpf_diagnoser = bpf;
    }
    pure (
      record collected {
        observer = Observe.reset collected.observer;
        bpf_diagnoser = Cycle.reset collected.bpf_diagnoser;
        perf_diagnoser = Perf.reset collected.perf_diagnoser;
      },
      if self.connected then some (build_info collected now) else none,
    )

  -- `none`: an exception leaves the thread, which ends the program.
  unfoldable pub do_push :
      MonitorPusher D → Readings → M (Option (MonitorPusher D × Option (MonitorInfo D)))
  unfolding push Collector.collect
  do_push self readings = elim (Collector.collect extract_double self.metrics readings.text) [
    | none ↦ pure none
    | some metrics ↦ do
      pushed ← push (record self { metrics = metrics }) readings
      pure (some pushed)
  ]
