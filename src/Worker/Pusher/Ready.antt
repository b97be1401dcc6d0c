-- ===== src/Worker/Pusher/Ready.antt =====
-- What a start of the worker, `MonitorPusher::Run` of worker/src/rpc/monitor_pusher.cpp, leaves.
use perf_monitor.Prelude.{◌≡◌, refl, ap, sym, ◌∙◌, Bool, true, ◌++◌, map, Option, some}
use perf_monitor.Text.{Bytes, codes}
use perf_monitor.Double.{Double}
use perf_monitor.Worker.Config.{ConfigManager}
use perf_monitor.Worker.Config.Load.{
  Json, LoadResult, returned, exception, load, offcpu_entry, profile_entry, array_of,
}
use perf_monitor.Worker.Config.Steps.{all_values}
use perf_monitor.Worker.Config.Loaded.{document, names_of, load-IsLoaded}
use perf_monitor.Worker.Directories.{Directories, ancestors, mkdirs, make_dirs, make_dirs-ancestors}
use perf_monitor.Worker.Observe.Setup.{Impl}
use perf_monitor.Worker.System.{System, World}
use perf_monitor.Worker.Bpf.{BpfDiagnoser}
use perf_monitor.Worker.Pusher.{MonitorPusher}
use perf_monitor.Worker.Pusher.Start.{
  offcpu_config, profile_config, configs, configure, configure-configs, apply_bpf, apply_perf,
}
use perf_monitor.Worker.Pusher.Run.{
  default_config, Surroundings, Started, set_up, after_load, run, init_bpf, init_perf,
}

module _ {D F : Type 0} ⦃d : Double D⦄ ⦃dirs : Directories F⦄ (os : System) where
  -- Of the outcome of a start: the worker runs with a configuration, whose tools are behind those
  -- that the diagnoser had.
  pub record RunsWith (bpf : BpfDiagnoser D) (cfg : ConfigManager) (fs : F) (outcome : Started D F)
      : Type 0 where
    pub after : MonitorPusher D
    pub made : F
    pub impl : Impl
    pub runs : outcome ≡ some (after, made, impl)
    pub lists : configs after.bpf_diagnoser ≡ (
      bpf.offcpu_configs ++ map offcpu_config cfg.offcpu_entries,
      bpf.profile_configs ++ map profile_config cfg.profile_entries,
    )
    pub processes : after.perf_diagnoser.target_processes ≡ cfg.perf_target_processes
    pub directory : after.perf_diagnoser.output_dir ≡ cfg.output_dir
    pub directories :
        made ≡ mkdirs (ancestors cfg.output_dir) (mkdirs (ancestors cfg.output_dir) fs)

  after_load-RunsWith :
      (b : Bool) (cfg : ConfigManager) (self : MonitorPusher D) (impl : Impl) (fs : F) (w : World)
      → RunsWith self.bpf_diagnoser cfg fs (after_load os (returned b, cfg) self impl fs w).0
  unfolding after_load configure apply_perf apply_bpf init_bpf init_perf
  after_load-RunsWith b cfg self impl fs w = record {
    after = (configure os cfg self w).0;
    made = make_dirs cfg.output_dir (make_dirs cfg.output_dir fs);
    impl = impl;
    runs = refl;
    lists = configure-configs os cfg self w;
    processes = refl;
    directory = refl;
    directories =
        make_dirs-ancestors cfg.output_dir (make_dirs cfg.output_dir fs)
        ∙ ap (mkdirs (ancestors cfg.output_dir)) (make_dirs-ancestors cfg.output_dir fs);
  }

  result-RunsWith :
      (r : LoadResult × ConfigManager) (b : Bool) (self : MonitorPusher D) (impl : Impl) (fs : F)
      (w : World)
      → r.0 ≡ returned b
      → RunsWith self.bpf_diagnoser r.1 fs (after_load os r self impl fs w).0
  result-RunsWith (returned c, cfg) b self impl fs w e = after_load-RunsWith c cfg self impl fs w
  result-RunsWith (exception, cfg) b self impl fs w e = absurd (cc)

  -- A start from a file that is read: the worker runs, whichever of its connection and its kernel
  -- programs work. Its cycle has the tools of the document's entries behind those of before, in
  -- order; perf has the document's names of processes; and `mkdir` was called twice for each
  -- directory that the path of the output directory leads through, down to itself.
  pub run-configured :
      {J : Type 0} ⦃j : Json J⦄ (env : Surroundings) (parse : Bytes → Option J)
      (file : Option Bytes) (self : MonitorPusher D) (fs : F) (w : World)
      → (load parse file default_config).0 ≡ returned true
      → (raw : J) × (cfg : ConfigManager) × (document parse file ≡ some raw)
        × (all_values offcpu_entry (array_of raw (codes "offcpu")) ≡ some cfg.offcpu_entries)
        × (all_values profile_entry (array_of raw (codes "profile")) ≡ some cfg.profile_entries)
        × (all_values j.get_string (names_of raw (codes "target_processes"))
            ≡ some cfg.perf_target_processes)
        × RunsWith self.bpf_diagnoser cfg fs (run os env parse file self fs w).0
  unfolding run set_up
  run-configured env parse file self fs w done =
      let (ready, impl) = set_up env self in
      let result = load parse file default_config in
      let (raw, found, loaded) = load-IsLoaded parse file default_config done in
      let (names, all, grown) = loaded.target_processes in
      (
        raw,
        result.1,
        found,
        loaded.offcpu,
        loaded.profile,
        all ∙ ap some (sym grown),
        result-RunsWith result true ready impl fs w done,
      )
