-- ===== src/Worker/Pusher/Run.antt =====
-- `MonitorPusher::Run` of worker/src/rpc/monitor_pusher.cpp. `Pusher.Start` has what it
-- does with the configuration; here are the steps around that, and the end of `PerfDiagnoser::Stop`.
use perf_monitor.Prelude.{Bool, [], Option, none, some}
use perf_monitor.Prelude.Int.{ℤ, pos}
use perf_monitor.Text.{Bytes, codes}
use perf_monitor.Double.{Double}
use perf_monitor.Worker.Config.{ConfigManager}
use perf_monitor.Worker.Config.Load.{Json, LoadResult, returned, exception, load}
use perf_monitor.Worker.Directories.{Directories, make_dirs}
use perf_monitor.Worker.Monitor.Collector
use perf_monitor.Worker.Monitor.Collector.{ProcText}
use perf_monitor.Worker.Observe.Setup
use perf_monitor.Worker.Observe.Setup.{Libbpf, Impl, new_impl}
use perf_monitor.Worker.System.{System, M, pure, ◌>>=◌}
use perf_monitor.Worker.Runner
use perf_monitor.Worker.Bpf.{BpfDiagnoser}
use perf_monitor.Worker.Perf.{PerfDiagnoser}
use perf_monitor.Worker.Pusher.{MonitorPusher}
use perf_monitor.Worker.Pusher.Start.{apply_bpf, apply_perf, configure}

-- `ConfigManager cfg;`
abbrev pub default_config : ConfigManager
default_config = record {
  offcpu_entries = [];
  profile_entries = [];
  perf_cpu_threshold_pct = pos 80;
  perf_overflow_duration_s = pos 10;
  perf_target_processes = [];
  perf_target_threads = [];
  offcpu_bin = codes "/usr/bin/offcpu";
  profile_bin = codes "/usr/bin/profile";
  perf_bin = codes "/usr/bin/perf";
  output_dir = codes "/tmp/monitor_system/diagnose";
}

-- What the start asks: whether the manager answers, the host's names and its number of processors,
-- the texts of /proc and what libbpf does.
pub record Surroundings : Type 0 where
  pub wait_for_connected : Bool
  pub gethostname : Option Bytes
  pub resolve : Bytes → Option Bytes
  pub online : ℤ
  pub text : ProcText
  pub libbpf : Libbpf

-- `PerfDiagnoser::Stop`, less its thread
unfoldable pub stop_perf : {D : Type 0} → System → PerfDiagnoser D → M (PerfDiagnoser D)
stop_perf os self = do
  runner ← Runner.stop os self.perf_runner
  pure (record self { perf_runner = runner; events = []; triggered_tags = [] })

-- The first steps: the stub is made if the manager answers, and the two layers that need no
-- configuration are set up. The worker goes on whatever they return.
unfoldable pub set_up :
    {D : Type 0} ⦃d : Double D⦄ → Surroundings → MonitorPusher D → MonitorPusher D × Impl
set_up env self =
    let (_, impl, _) = Setup.init env.libbpf new_impl in
    (
      record self {
        connected = env.wait_for_connected;
        metrics = Collector.init env.gethostname env.resolve env.online self.metrics env.text;
      },
      impl,
    )

-- The worker, the file system and the collector's objects that a start leaves; `none` if an
-- exception leaves it.
abbrev pub Started : Type 0 → Type 0 → Type 0
Started D F = Option (MonitorPusher D × F × Impl)

module _ {D F : Type 0} ⦃d : Double D⦄ ⦃dirs : Directories F⦄ where
  -- `Init` of the two diagnosers
  unfoldable pub init_bpf : BpfDiagnoser D → F → F
  init_bpf self fs = make_dirs self.output_dir fs

  unfoldable pub init_perf : PerfDiagnoser D → F → F
  init_perf self fs = make_dirs self.output_dir fs

  -- What follows `cfg.Load`, whose result is dropped
  unfoldable pub after_load :
      System → LoadResult × ConfigManager → MonitorPusher D → Impl → F → M (Started D F)
  after_load os (exception, cfg) self impl fs = pure none
  after_load os (returned _, cfg) self impl fs = do
    let made : F =
        init_perf (apply_perf cfg self.perf_diagnoser)
          (init_bpf (apply_bpf cfg self.bpf_diagnoser) fs)
    configured ← configure os cfg self
    pure (some (configured, made, impl))

  unfoldable pub run :
      {J : Type 0} ⦃j : Json J⦄
      → System
      → Surroundings
      → (Bytes → Option J)
      → Option Bytes
      → MonitorPusher D
      → F
      → M (Started D F)
  run os env parse file self fs =
      let (ready, impl) = set_up env self in
      after_load os (load parse file default_config) ready impl fs
