-- ===== src/Tests/Rounds.antt =====
-- Two rounds of the monitors.
use perf_monitor.Prelude.{ℕ, Option, none, some, ◌++◌, [], ◌∷◌}
use perf_monitor.Prelude.Int.{ℤ}
use perf_monitor.Text.{Bytes, codes}
use perf_monitor.Double.Exact.{exact_double}
use perf_monitor.Worker.Monitor.Collector.{MetricCollector, ProcText, collect}
use perf_monitor.Tests.Pusher.{metrics, no_double}

-- Two header lines, and one interface whose first counter is the digit.
abbrev net_dev : ℕ → Bytes
net_dev digit = b'\n' ∷ b'\n' ∷ b'w' ∷ b':' ∷ digit ∷ b'\n' ∷ []

-- One device that has read this many sectors
abbrev diskstats : Bytes → Bytes
diskstats sectors = codes "8 0 sda 1 0 " ++ (sectors ++ codes " 0 4 0 5 0 0 6\n")

abbrev round_text : ℕ → Bytes → ProcText
round_text digit sectors = record {
  loadavg = [];
  stat = [];
  meminfo = [];
  diskstats = diskstats sectors;
  net_dev = net_dev digit;
}

abbrev first : ProcText
first = round_text b'3' (codes "100")

abbrev second : ProcText
second = round_text b'7' (codes "300")

abbrev or_new : Option (MetricCollector ℤ) → MetricCollector ℤ
or_new none = metrics
or_new (some m) = m

abbrev middle : MetricCollector ℤ
middle = or_new (collect no_double metrics first)

abbrev after : MetricCollector ℤ
after = or_new (collect no_double middle second)
