-- ===== src/Tests/Tools.antt =====
-- The tools' processes and files at concrete values.
use perf_monitor.Prelude.{List, ◌≡◌, refl, arith, [], ◌∷◌, ◌++◌, none, if◌then◌else◌}
use perf_monitor.Prelude.Int.{ℤ, pos, ◌*ℤ◌}
use perf_monitor.Text.{Bytes}
use perf_monitor.Table.{lookup}
use perf_monitor.Double.Exact.{exact_double}
use perf_monitor.Exporter.Filename.{offcpu, IsSafe, basename}
use perf_monitor.Worker.System.{System, sigterm}
use perf_monitor.Worker.Runner.{eq_ℤ}
use perf_monitor.Worker.Bpf.{RunnerEntry, out_file}
use perf_monitor.Worker.Bpf.Named.{tool_of, out_file-IsSafe}
use perf_monitor.Worker.Bpf.Cycle.{reap}
use perf_monitor.Worker.Bpf.Reaped.{reap-kills}
use perf_monitor.Worker.Perf.{Probe, timer_at}
use perf_monitor.Worker.Perf.Trigger.{IsShort, judges, seconds_after, judges-quiet}
use perf_monitor.Tests.Manager.{web}
use perf_monitor.Tests.Worker.{machine, bpf, quiet}
use perf_monitor.Tests.Pusher.{perf}

abbrev tmp : Bytes
tmp = b'/' ∷ b't' ∷ []

out_file-IsSafe_example :
    let file = out_file tmp (tool_of offcpu) web [] (pos 1000) in
    IsSafe (basename file) × (file ≡ tmp ++ b'/' ∷ basename file)
out_file-IsSafe_example = out_file-IsSafe offcpu tmp web [] 1000 (omega arith) (omega arith) tt tt

abbrev pub probe : Probe
probe = record { steady_ms = λ n. n; stat = λ n pid. none; clk_tck = pos 100 }

-- The process 5 has ended, and the others run on.
abbrev ending : System
ending = record machine { waitpid = λ n pid. if eq_ℤ pid (pos 5) then pos 5 else pos 0 }

abbrev entry_at : ℤ → RunnerEntry ℤ
entry_at pid = record {
  runner = record { pid = pid; output_path = [] };
  pending_ev = record {
    type = [];
    process_name = web;
    thread_name = [];
    file_path = [];
    timestamp = pos 0;
    cpu_percent = pos 0;
  };
}

reap-kills_example :
    let (after, v) =
      reap ending bpf []
        (entry_at (pos 4) ∷ (entry_at (pos 5) ∷ ([] ++ entry_at (pos 6) ∷ [])))
        quiet in
    (after.runners ≡ entry_at (pos 4) ∷ ([] ++ entry_at (pos 6) ∷ []))
    × (v.acts ≡ sigterm (pos 6) ∷ [])
reap-kills_example =
    reap-kills ending bpf (entry_at (pos 4) ∷ []) [] (entry_at (pos 5)) (entry_at (pos 6)) quiet 4
      refl (λ n. refl) ((3, refl, λ n. refl), tt) tt (5, refl, λ n. refl)

-- With a hundred ticks a second, nine of them in a round are ninety per cent.
abbrev usages : List ℤ
usages = pos 9 ∷ pos 1 ∷ pos 9 ∷ []

usages-IsShort : IsShort machine probe 10 (pos 80) 0 usages
unfolding ◌*ℤ◌
usages-IsShort = (omega arith, (omega arith, (omega arith, tt)))

judges-quiet_example :
    let (after, w1) = judges machine probe web web 42 perf usages quiet in
    (w1.acts ≡ [])
    × (timer_at after.overflow_timers web ≡ pos (seconds_after machine probe (pos 80) 0 usages))
unfolding lookup ◌*ℤ◌
judges-quiet_example =
    judges-quiet machine probe web web 42 perf usages quiet 0 10 refl refl usages-IsShort
