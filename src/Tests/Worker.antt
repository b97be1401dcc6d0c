-- ===== src/Tests/Worker.antt =====
-- The worker's parts at concrete values.
use perf_monitor.Prelude.{◌≡◌, refl, arith, true, false, [], ◌∷◌, ◌++◌, none, some}
use perf_monitor.Prelude.Int.{ℤ, pos}
use perf_monitor.Text.{codes}
use perf_monitor.Double.Exact.{exact_double}
use perf_monitor.Tests.Manager.{web}
use perf_monitor.Worker.Proc.{ProcEntry, ProcFs, matches}
use perf_monitor.Worker.Proc.Lookup.{entry_of}
use perf_monitor.Worker.System.{System, World}
use perf_monitor.Worker.Bpf.{OffcpuConfig, ProfileConfig, BpfDiagnoser, start_offcpu, start_profile}
use perf_monitor.Worker.Bpf.Launch.{SignalledAtOnce, start-signals}
use perf_monitor.Worker.Monitor.CpuStat.{CpuStatPct, CpuStatMonitor, no_raw, collect}
use perf_monitor.Worker.Monitor.Percent.{Ticks, advance, share}
use perf_monitor.Worker.Monitor.Shares.{proc_stat, collect-proc_stat}
use perf_monitor.Worker.Monitor.Net.{NetMonitor}

abbrev other_entry : ProcEntry
other_entry = record { d_name = b's' ∷ []; comm = none }

abbrev procs : ProcFs
procs = record {
  root = some (other_entry ∷ [] ++ entry_of 42 web ∷ entry_of 43 web ∷ []);
  task = λ pid. none;
}

unread : matches web other_entry ≡ false
unfolding matches
unread = refl

-- Each `fork` gives 100, and nothing else is known.
abbrev pub machine : System
machine = record {
  fork = λ n. pos 100;
  waitpid = λ n pid. pos 0;
  time = λ n. pos 1000;
  stat_size = λ n path. none;
  unlink = λ n path. true;
  proc = λ n. procs;
  grows = λ n. true;
}

abbrev pub bpf : BpfDiagnoser ℤ
bpf = record {
  events = [];
  output_dir = b'/' ∷ b't' ∷ [];
  offcpu_bin = b'o' ∷ [];
  profile_bin = b'q' ∷ [];
  limit_file_num = pos 3;
  limit_file_size_mb = pos 50;
  runners = [];
  offcpu_configs = [];
  profile_configs = [];
}

abbrev offcpu_web : OffcpuConfig
offcpu_web = record {
  process = web;
  thread = [];
  min_block_us = pos 100;
  max_block_us = pos 1000;
  interval_s = pos 60;
}

abbrev profile_web : ProfileConfig
profile_web = record {
  process = web;
  thread = [];
  max_nr = pos 1000;
  max_size_kb = pos 4096;
  cpus = b'0' ∷ [];
}

abbrev pub quiet : World
quiet = record { calls = 0; acts = []; dir = none }

start-signals_example :
    SignalledAtOnce [] (start_offcpu machine bpf offcpu_web quiet).1.acts
    × SignalledAtOnce [] (start_profile machine bpf profile_web quiet).1.acts
start-signals_example = start-signals machine (λ n. (99, refl)) bpf offcpu_web profile_web quiet

abbrev no_pct : CpuStatPct ℤ
no_pct = record {
  user = pos 0;
  system = pos 0;
  idle = pos 0;
  iowait = pos 0;
  steal = pos 0;
  softirq = pos 0;
}

abbrev pub cpu : CpuStatMonitor ℤ
cpu = record { pct = no_pct; prev = no_raw }

abbrev second : Ticks
second = record {
  user = 20;
  nice = 0;
  system = 5;
  idle = 70;
  iowait = 1;
  irq = 1;
  softirq = 2;
  steal = 1;
}

collect-proc_stat_example :
    collect cpu (proc_stat (advance no_raw second) 3 4 (codes "intr 5")) ≡ record {
      pct = record {
        user = share 20 100;
        system = share 5 100;
        idle = share 70 100;
        iowait = share 1 100;
        steal = share 1 100;
        softirq = share 2 100;
      };
      prev = advance no_raw second;
    }
collect-proc_stat_example =
    collect-proc_stat cpu second 3 4 (codes "intr 5")
      (record {
        user = omega arith;
        nice = omega arith;
        system = omega arith;
        idle = omega arith;
        iowait = omega arith;
        irq = omega arith;
        softirq = omega arith;
        steal = omega arith;
      })
      (record {
        user = omega arith;
        system = omega arith;
        idle = omega arith;
        iowait = omega arith;
        steal = omega arith;
        softirq = omega arith;
      })
      (omega arith) (omega arith)

abbrev pub net : NetMonitor ℤ
net = record { interfaces = []; prev_net_map = [] }
