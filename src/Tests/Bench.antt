-- ===== src/Tests/Bench.antt =====
-- The benchmark with two workers, two iterations and two threads.
use perf_monitor.Prelude.{
  ℕ, ◌+◌, ◌<◌, ◌≡◌, ◌≢◌, ◌↔◌, refl, true, Option, none, some, List, [], ◌∷◌, arith, length,
  if◌then◌else◌,
}
use perf_monitor.Prelude.Int.{ℤ, pos, ◌-ℤ◌}
use perf_monitor.Text.{Bytes, codes, str_eq}
use perf_monitor.Table.{lookup, bytes_eq}
use perf_monitor.Double.Exact.{exact_double}
use perf_monitor.Host.{Hosts}
use perf_monitor.Bench.{Options, parsed, default_options, parse_args, number_option}
use perf_monitor.Bench.Report.{hostname}
use perf_monitor.Bench.Threads.{
  Call, Answer, threads, start_threads, run_thread, rounds, round_calls, strided, thread_count,
  no_metrics, note_all, accepted, exit_status,
}
use perf_monitor.Bench.Threads.Interleaving.{Interleaving, done, left, right}
use perf_monitor.Bench.Threads.Complete.{times, is_planned, run_complete}
use perf_monitor.Bench.Delivered.{Times, Event, handle, sweep, Present, deliver, deliver-hosts}

abbrev two : Bytes → Option ℤ
two text = some (pos 2)

abbrev arguments : List Bytes
arguments =
    codes "--workers"
    ∷ codes "2"
    ∷ codes "--iterations"
    ∷ codes "2"
    ∷ codes "--concurrency"
    ∷ codes "2"
    ∷ []

abbrev options : Options
options = record default_options { workers = pos 2; iterations = pos 2; concurrency = pos 2 }

arguments-parsed : parse_args two arguments ≡ parsed options
unfolding parse_args number_option str_eq codes
arguments-parsed = refl

abbrev calls : List Call
calls = (0, 0) ∷ (1, 0) ∷ (0, 1) ∷ (1, 1) ∷ []

calls-Interleaving : Interleaving (threads options) calls
unfolding threads start_threads run_thread rounds round_calls strided thread_count
calls-Interleaving =
    ((1, 0) ∷ (1, 1) ∷ [], ([], refl, left (left done)), left (right (left (right done))))

abbrev answer : Call → Answer ℤ
answer c = record { status_ok = true; response_ok = true; elapsed_ms = pos 1 }

run_complete_example :
    let m = note_all answer no_metrics calls in
    ((worker iteration : ℕ)
      → times worker iteration calls ≡ (if is_planned options worker iteration then 1 else 0))
    × (m.ok + m.failed ≡ 4)
    × (length m.latencies_ms ≡ 4)
    × ((exit_status m ≡ 0) ↔ (
        (worker iteration : ℕ)
        → worker < 2
        → iteration < 2
        → accepted (answer (worker, iteration)) ≡ true))
run_complete_example =
    run_complete answer two arguments options calls arguments-parsed calls-Interleaving
      (omega arith)

abbrev at_nine : Call → Times
at_nine c = record { now = pos 9; later = pos 9; received = pos 9 }

other-ne-web : (other : ℕ) → other < 2 → hostname other ≢ codes "web"
unfolding hostname codes
other-ne-web other small e = cc e

-- A sweep after the second call
abbrev events : List Event
events = handle (0, 0) ∷ handle (1, 0) ∷ sweep (pos 12) ∷ handle (0, 1) ∷ handle (1, 1) ∷ []

deliver-hosts_example :
    let hosts : Hosts ℤ = deliver at_nine [] events in
    Present (hostname 1) hosts × (lookup (codes "web") hosts ≡ none)
unfolding ◌-ℤ◌
deliver-hosts_example =
    deliver-hosts two arguments options events at_nine 1 (codes "web") arguments-parsed
      calls-Interleaving ((λ c. refl), tt) (omega arith) other-ne-web
