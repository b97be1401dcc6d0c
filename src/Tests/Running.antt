-- ===== src/Tests/Running.antt =====
-- A manager that has had one report and is about to sweep.
use perf_monitor.Prelude.{ℕ, ◌≡◌, ◌↔◌, false, Option, none, some, [], ◌∷◌, arith}
use perf_monitor.Prelude.Int.{ℤ, pos}
use perf_monitor.Text.{Bytes}
use perf_monitor.Table.{lookup, bytes_eq}
use perf_monitor.Double.Exact.{exact_double}
use perf_monitor.Message.{MonitorInfo}
use perf_monitor.Host.{HostSnapshot, remove_expired}
use perf_monitor.Host.Sweep.{is_old}
use perf_monitor.Rpc.{set_monitor_info}
use perf_monitor.Program.{max_age}
use perf_monitor.Bench.Report.{hostname, make_report}
use perf_monitor.Manager.{State, started, Step, Reach, here, next}
use perf_monitor.Manager.Presence.{last_of, present_iff_recent}

abbrev request : MonitorInfo ℤ
request = make_report (pos 5) (pos 5) 1 0

abbrev no_file : Bytes → Option ℕ
no_file path = none

abbrev prints_nothing : Bytes → Bytes
prints_nothing cmd = []

abbrev begun : State ℤ
begun = started (pos 0)

abbrev heard : State ℤ
heard = record begun {
  hosts = (set_monitor_info [] (pos 5) request).0;
  reports = (request.hostname, pos 5) ∷ [];
}

heard-Reach : Reach no_file prints_nothing begun heard
heard-Reach = next here (Step.report (pos 5) request)

present_iff_recent_example :
    ((snap : HostSnapshot ℤ) × (lookup (hostname 1) (remove_expired heard.hosts (pos 70) max_age)
        ≡ some snap))
    ↔ ((t : ℤ) × (last_of (hostname 1) heard.reports ≡ some t)
        × (is_old max_age (pos 70) t ≡ false))
present_iff_recent_example =
    present_iff_recent no_file prints_nothing (pos 0) (pos 70) heard (hostname 1) heard-Reach
      (omega arith)
