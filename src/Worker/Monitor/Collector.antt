-- ===== src/Worker/Monitor/Collector.antt =====
-- worker/src/monitor/metric_collector.cpp: all the monitors. `ProcText` is what one round reads;
-- `Collect` ends early, with an exception, where the memory monitor does.
use perf_monitor.Prelude.{Option, none, some}
use perf_monitor.Prelude.Int.{ℤ}
use perf_monitor.Text.{Bytes}
use perf_monitor.Text.Stream.{Stream}
use perf_monitor.Double.{Double}
use perf_monitor.Worker.Monitor.CpuStat
use perf_monitor.Worker.Monitor.Net
use perf_monitor.Worker.Monitor.Disk
use perf_monitor.Worker.Monitor.Mem
use perf_monitor.Worker.Monitor.CpuStat.{CpuStatMonitor}
use perf_monitor.Worker.Monitor.Net.{NetMonitor}
use perf_monitor.Worker.Monitor.Disk.{DiskMonitor}
use perf_monitor.Worker.Monitor.Mem.{MemMonitor}
use perf_monitor.Worker.Monitor.Load.{
  CpuLoadMonitor, HostInfoMonitor, init_load, collect_load, init_host,
}

pub record MetricCollector (D : Type 0) : Type 0 where
  pub host : HostInfoMonitor
  pub cpu_load : CpuLoadMonitor D
  pub cpu_stat : CpuStatMonitor D
  pub mem : MemMonitor D
  pub disk : DiskMonitor D
  pub net : NetMonitor D

-- The texts of /proc/loadavg, stat, meminfo, diskstats and net/dev.
pub record ProcText : Type 0 where
  pub loadavg : Bytes
  pub stat : Bytes
  pub meminfo : Bytes
  pub diskstats : Bytes
  pub net_dev : Bytes

module _ {D : Type 0} ⦃d : Double D⦄ where
  unfoldable pub init :
      Option Bytes → (Bytes → Option Bytes) → ℤ → MetricCollector D → ProcText → MetricCollector D
  unfolding init_host init_load CpuStat.init Disk.init Net.init
  init gethostname resolve online self text = record self {
    host = init_host gethostname resolve self.host;
    cpu_load = init_load self.cpu_load online;
    cpu_stat = CpuStat.init self.cpu_stat text.stat;
    disk = Disk.init self.disk text.diskstats;
    net = Net.init self.net text.net_dev;
  }

  unfoldable pub collect :
      (D → Stream → D × Stream) → MetricCollector D → ProcText → Option (MetricCollector D)
  unfolding collect_load CpuStat.collect Mem.collect Disk.collect Net.collect
  collect extract_double self text = elim (Mem.collect self.mem text.meminfo) [
    | none ↦ none
    | some mem ↦ some (record self {
      cpu_load = collect_load extract_double self.cpu_load text.loadavg;
      cpu_stat = CpuStat.collect self.cpu_stat text.stat;
      mem = mem;
      disk = Disk.collect self.disk text.diskstats;
      net = Net.collect self.net text.net_dev;
    })
  ]
