-- ===== src/Tests/Manager.antt =====
-- A manager that two hosts report to.
use perf_monitor.Prelude.{◌≡◌, refl, List, [], ◌∷◌}
use perf_monitor.Prelude.Int.{ℤ, pos, ◌-ℤ◌, ◌*ℤ◌}
use perf_monitor.Text.{Bytes}
use perf_monitor.Double.Exact.{exact_double, exact-IsOrdered}
use perf_monitor.Table.{bytes_eq}
use perf_monitor.Host.{DiagnoseRecord, HostSnapshot, Hosts, compute_health, penalise}
use perf_monitor.Host.Refinement.{Call, report, sweep, run, view, shows, run_spec, nobody, view-run}
use perf_monitor.Host.Invariant.{IsValid, reached-IsValid}

abbrev pub web : Bytes
web = b'w' ∷ []

abbrev pub db : Bytes
db = b'd' ∷ []

abbrev perf_event : ℤ → DiagnoseRecord ℤ
perf_event t = record {
  type = b'p' ∷ [];
  process_name = b'n' ∷ [];
  file_path = b'f' ∷ [];
  timestamp = t;
  cpu_percent = pos 90;
}

-- A loaded host: the score falls below zero and is cut off.
abbrev snapshot_at : ℤ → HostSnapshot ℤ
snapshot_at t = record {
  load_1m = pos 12;
  cpu_used_pct = pos 99;
  mem_used_pct = pos 140;
  disk_iops = pos 5;
  net_rx_mbps = pos 1;
  net_tx_mbps = pos 1;
  net_rx_dropped = pos 101;
  last_update = t;
  health_score = pos 0;
  hostname = [];
  proc_exec_count = pos 0;
  proc_exit_count = pos 0;
  tcp_flow_count = pos 0;
  tcp_bytes_sent = pos 0;
  tcp_bytes_recv = pos 0;
  diagnose_events = perf_event t ∷ [];
}

abbrev calls : List (Call ℤ)
calls =
    report web (snapshot_at (pos 10))
    ∷ report db (snapshot_at (pos 50))
    ∷ sweep (pos 60) (pos 30)
    ∷ report db (snapshot_at (pos 70))
    ∷ []

overloaded : compute_health (snapshot_at (pos 10)) ≡ pos 0
unfolding compute_health penalise ◌-ℤ◌ ◌*ℤ◌
overloaded = refl

view-run_example : view (run [] calls) ≡ shows (run_spec nobody calls)
view-run_example = view-run calls

reached-IsValid_example : IsValid {D = ℤ} (run [] calls)
reached-IsValid_example = reached-IsValid exact-IsOrdered calls

abbrev pub held : Hosts ℤ
held = (web, snapshot_at (pos 1)) ∷ []
