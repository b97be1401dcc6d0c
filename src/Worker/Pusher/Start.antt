-- ===== src/Worker/Pusher/Start.antt =====
-- `MonitorPusher::Run` of worker/src/rpc/monitor_pusher.cpp, from the loaded configuration to the
-- start of the loop: it is given to the diagnosers, and the tools of its entries are started.
use perf_monitor.Prelude.{
  ◌≡◌, refl, ap, ◌∙◌, List, [], ◌∷◌, ◌++◌, map, append_assoc, append-nil, Bool-cases, inl, inr,
}
use perf_monitor.Prelude.Int.{ℤ}
use perf_monitor.Text.{Bytes}
use perf_monitor.Double.{Double}
use perf_monitor.Worker.Config.{OffcpuEntry, ProfileEntry, ConfigManager}
use perf_monitor.Worker.System.{System, World, M, pure, ◌>>=◌, ask}
use perf_monitor.Worker.Runner.{new_runner, start}
use perf_monitor.Worker.Bpf.{
  OffcpuConfig, ProfileConfig, BpfDiagnoser, run_tool, launch_offcpu, launch_profile, start_offcpu,
  start_profile,
}
use perf_monitor.Worker.Perf.{PerfDiagnoser}
use perf_monitor.Worker.Pusher.{MonitorPusher}

-- The arguments of `start_offcpu` and `start_profile`, as the entries of the diagnoser's lists.
unfoldable pub offcpu_config : OffcpuEntry → OffcpuConfig
offcpu_config e = record {
  process = e.process_name;
  thread = e.thread_name;
  min_block_us = e.min_block_us;
  max_block_us = e.max_block_us;
  interval_s = e.interval_s;
}

unfoldable pub profile_config : ProfileEntry → ProfileConfig
profile_config e = record {
  process = e.process_name;
  thread = e.thread_name;
  max_nr = e.max_nr;
  max_size_kb = e.max_size_kb;
  cpus = e.cpus;
}

-- The first offcpu entry's limits, if there is an entry.
abbrev file_num : ℤ → List OffcpuEntry → ℤ
file_num old [] = old
file_num old (e ∷ _) = e.limit_file_num

abbrev file_size : ℤ → List OffcpuEntry → ℤ
file_size old [] = old
file_size old (e ∷ _) = e.limit_file_size_mb

module _ {D : Type 0} where
  unfoldable pub apply_bpf : ConfigManager → BpfDiagnoser D → BpfDiagnoser D
  apply_bpf cfg bpf = record bpf {
    output_dir = cfg.output_dir;
    offcpu_bin = cfg.offcpu_bin;
    profile_bin = cfg.profile_bin;
    limit_file_num = file_num bpf.limit_file_num cfg.offcpu_entries;
    limit_file_size_mb = file_size bpf.limit_file_size_mb cfg.offcpu_entries;
  }

  unfoldable pub apply_perf : ConfigManager → PerfDiagnoser D → PerfDiagnoser D
  apply_perf cfg perf = record perf {
    output_dir = cfg.output_dir;
    perf_bin = cfg.perf_bin;
    cpu_threshold_pct = cfg.perf_cpu_threshold_pct;
    overflow_duration_s = cfg.perf_overflow_duration_s;
    target_processes = cfg.perf_target_processes;
    target_threads = cfg.perf_target_threads;
    limit_file_num = file_num perf.limit_file_num cfg.offcpu_entries;
  }

  -- The two lists of configurations, which the cycle starts the tools from.
  abbrev pub configs : BpfDiagnoser D → List OffcpuConfig × List ProfileConfig
  configs bpf = (bpf.offcpu_configs, bpf.profile_configs)

module _ {D : Type 0} ⦃d : Double D⦄ (os : System) where
  unfoldable pub start_offcpus : BpfDiagnoser D → List OffcpuEntry → M (BpfDiagnoser D)
  start_offcpus bpf [] = pure bpf
  start_offcpus bpf (e ∷ rest) = do
    after ← start_offcpu os bpf (offcpu_config e)
    start_offcpus after rest

  unfoldable pub start_profiles : BpfDiagnoser D → List ProfileEntry → M (BpfDiagnoser D)
  start_profiles bpf [] = pure bpf
  start_profiles bpf (e ∷ rest) = do
    after ← start_profile os bpf (profile_config e)
    start_profiles after rest

  unfoldable pub configure : ConfigManager → MonitorPusher D → M (MonitorPusher D)
  configure cfg self = do
    first ← start_offcpus (apply_bpf cfg self.bpf_diagnoser) cfg.offcpu_entries
    both ← start_profiles first cfg.profile_entries
    pure (record self { bpf_diagnoser = both; perf_diagnoser = apply_perf cfg self.perf_diagnoser })

  run_tool-configs :
      (self : BpfDiagnoser D) (bin : Bytes) (args : List Bytes) (kind process thread file : Bytes)
      (w : World)
      → configs (run_tool os self bin args kind process thread file w).0 ≡ configs self
  unfolding run_tool ask
  run_tool-configs self bin args kind process thread file w =
      elim (Bool-cases (start os new_runner bin args file w).0.0) [
        | inl started ↦ rw started refl
        | inr failed ↦ rw failed refl
      ]

  start_offcpu-configs :
      (self : BpfDiagnoser D) (cfg : OffcpuConfig) (w : World)
      → configs (start_offcpu os self cfg w).0
        ≡ (self.offcpu_configs ++ cfg ∷ [], self.profile_configs)
  unfolding start_offcpu launch_offcpu ask
  start_offcpu-configs self cfg w = run_tool-configs _ _ _ _ _ _ _ _

  start_profile-configs :
      (self : BpfDiagnoser D) (cfg : ProfileConfig) (w : World)
      → configs (start_profile os self cfg w).0
        ≡ (self.offcpu_configs, self.profile_configs ++ cfg ∷ [])
  unfolding start_profile launch_profile ask
  start_profile-configs self cfg w = run_tool-configs _ _ _ _ _ _ _ _

  start_offcpus-configs :
      (self : BpfDiagnoser D) (entries : List OffcpuEntry) (w : World)
      → configs (start_offcpus self entries w).0
        ≡ (self.offcpu_configs ++ map offcpu_config entries, self.profile_configs)
  unfolding start_offcpus
  start_offcpus-configs self [] w = rw append-nil refl
  start_offcpus-configs self (e ∷ rest) w =
      let (after, w1) = start_offcpu os self (offcpu_config e) w in
      let one = start_offcpu-configs self (offcpu_config e) w in
      start_offcpus-configs after rest w1
      ∙ ap (λ (c : List OffcpuConfig × List ProfileConfig). (c.0 ++ map offcpu_config rest, c.1))
          one
      ∙ rw append_assoc refl

  start_profiles-configs :
      (self : BpfDiagnoser D) (entries : List ProfileEntry) (w : World)
      → configs (start_profiles self entries w).0
        ≡ (self.offcpu_configs, self.profile_configs ++ map profile_config entries)
  unfolding start_profiles
  start_profiles-configs self [] w = rw append-nil refl
  start_profiles-configs self (e ∷ rest) w =
      let (after, w1) = start_profile os self (profile_config e) w in
      let one = start_profile-configs self (profile_config e) w in
      start_profiles-configs after rest w1
      ∙ ap (λ (c : List OffcpuConfig × List ProfileConfig). (c.0, c.1 ++ map profile_config rest))
          one
      ∙ rw append_assoc refl

  -- Whether or not the processes can be started, the diagnoser's two lists get the entries of the
  -- configuration, in order and behind what they held, so that the cycle starts all of them again.
  pub configure-configs :
      (cfg : ConfigManager) (self : MonitorPusher D) (w : World)
      → let bpf = self.bpf_diagnoser in
        configs (configure cfg self w).0.bpf_diagnoser ≡ (
          bpf.offcpu_configs ++ map offcpu_config cfg.offcpu_entries,
          bpf.profile_configs ++ map profile_config cfg.profile_entries,
        )
  unfolding configure apply_bpf
  configure-configs cfg self w =
      let bpf : BpfDiagnoser D = apply_bpf cfg self.bpf_diagnoser in
      let (first, w1) = start_offcpus bpf cfg.offcpu_entries w in
      start_profiles-configs first cfg.profile_entries w1
      ∙ ap
          (λ (c : List OffcpuConfig × List ProfileConfig).
            (c.0, c.1 ++ map profile_config cfg.profile_entries))
          (start_offcpus-configs bpf cfg.offcpu_entries w)
