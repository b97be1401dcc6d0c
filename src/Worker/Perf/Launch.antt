-- ===== src/Worker/Perf/Launch.antt =====
-- What starting `perf record` does to it.
use perf_monitor.Prelude.{ℕ, suc, ◌+◌, ◌≡◌, refl, List, [], ◌∷◌}
use perf_monitor.Prelude.Int.{pos}
use perf_monitor.Text.{Bytes}
use perf_monitor.Double.{Double}
use perf_monitor.Worker.System.{System, World, Act, exec, sigterm, ask}
use perf_monitor.Worker.Bpf.Launch.{ForksWork, destroy-acts, start-works}
use perf_monitor.Worker.Perf.{PerfDiagnoser, Probe}
use perf_monitor.Worker.Perf.Round.{run_perf}

-- A process is started and ended, and nothing else is done to any process.
pub record StartedAndEnded (before after : List Act) : Type 0 where
  pub pid : ℕ
  pub bin : Bytes
  pub args : List Bytes
  pub ended : after ≡ sigterm (pos (suc pid)) ∷ exec (pos (suc pid)) bin args ∷ before

module _ {D : Type 0} ⦃d : Double D⦄ (os : System) (probe : Probe) where
  -- While `fork` works, the launch of `perf record` starts a process and then sends SIGTERM to it.
  run_perf-acts :
      (forks : ForksWork os) (self : PerfDiagnoser D) (name tag : Bytes) (target : ℕ) (pct : D)
      (w : World)
      → StartedAndEnded w.acts (run_perf os probe self name tag target pct w).1.acts
  unfolding run_perf ask
  run_perf-acts forks self name tag target pct w =
      let forked = forks (w.calls + 1) in
      let w1 : World = record w { calls = w.calls + 1 } in
      rw (start-works os self.perf_bin _ [] w1 forked.0 forked.1) (record {
        pid = forked.0;
        bin = self.perf_bin;
        args = _;
        ended =
            destroy-acts os (record { pid = pos (suc forked.0); output_path = [] }) _ forked.0 refl;
      })
