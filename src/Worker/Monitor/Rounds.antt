-- ===== src/Worker/Monitor/Rounds.antt =====
-- What two rounds of `MetricCollector::Collect` give.
use perf_monitor.Prelude.{Option, none, some}
use perf_monitor.Text.Stream.{Stream}
use perf_monitor.Double.{Double}
use perf_monitor.Table.{bytes_eq}
use perf_monitor.Worker.Monitor.Net
use perf_monitor.Worker.Monitor.Disk
use perf_monitor.Worker.Monitor.Disk.{DiskStats}
use perf_monitor.Worker.Monitor.Mem
use perf_monitor.Worker.Monitor.Collector.{MetricCollector}

module _ {D : Type 0} ⦃d : Double D⦄ (extract_double : D → Stream → D × Stream) where
  abbrev from_some : MetricCollector D → Option (MetricCollector D) → MetricCollector D
  from_some self none = self
  from_some self (some after) = after
