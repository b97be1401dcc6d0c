-- ===== src/Worker/Bpf/Cycle.antt =====
-- `Collect`, `Reset` and `stop_all` of worker/src/diagnose/bpf_diagnoser.cpp.
use perf_monitor.Prelude.{
  ℕ, ◌+◌, Bool, true, false, not, ◌&&◌, ◌||◌, List, [], ◌∷◌, ◌++◌, Option, none, some, ltb,
  if◌then◌else◌,
}
use perf_monitor.Text.{Bytes}
use perf_monitor.Double.{Double}
use perf_monitor.Worker.Files.{cleanup_files}
use perf_monitor.Worker.System.{System, M, pure, ◌>>=◌, ◌>>◌, ask}
use perf_monitor.Worker.Runner.{CmdRunner, destroy, is_running}
use perf_monitor.Worker.Event.{CppDiagnoseEvent}
use perf_monitor.Worker.Bpf.{
  OffcpuConfig, ProfileConfig, RunnerEntry, BpfDiagnoser, launch_offcpu, launch_profile,
  destroy_all,
}

abbrev pub is_nil {ℓ} : {A : Type ℓ} → List A → Bool
is_nil [] = true
is_nil (_ ∷ _) = false

-- `stat` succeeds and the file is not empty.
abbrev pub has_data : Option ℕ → Bool
has_data none = false
has_data (some size) = ltb 0 size

module _ {D : Type 0} ⦃d : Double D⦄ where
  -- The runner in the last slot of the array, where the loop stands at `current`.
  unfoldable pub last_runner : CmdRunner → List (RunnerEntry D) → CmdRunner
  last_runner current [] = current
  last_runner current (e ∷ rest) = last_runner e.runner rest

  unfoldable pub reset : BpfDiagnoser D → BpfDiagnoser D
  reset self = record self { events = [] }

module _ {D : Type 0} ⦃d : Double D⦄ (os : System) where
  -- `cleanup_files` of this object, on the output directory; the answers to its `unlink`s are one.
  unfoldable pub clean : BpfDiagnoser D → Bytes → M (Unit {0})
  clean self prefix w =
      let unlink : Bytes → Bool = os.unlink w.calls in
      (
        tt,
        record w {
          dir = cleanup_files unlink self.limit_file_num prefix w.dir;
          calls = w.calls + 1;
        },
      )

  -- A finished runner's event is kept if its file has data.
  unfoldable pub emit : BpfDiagnoser D → CppDiagnoseEvent D → M (BpfDiagnoser D)
  unfolding clean ask
  emit self ev = do
    size ← ask (λ n. os.stat_size n ev.file_path)
    if has_data size
        then (do clean self ev.type; pure (record self { events = self.events ++ ev ∷ [] }))
        else pure self

  -- One round of the loop, at `e` between `done` and `rest`. `erase` moves the entries behind `e`
  -- one slot down, each by a copy of its runner, and destroys the last slot.
  unfoldable pub reap_one :
      BpfDiagnoser D
      → List (RunnerEntry D)
      → RunnerEntry D
      → List (RunnerEntry D)
      → M (BpfDiagnoser D × List (RunnerEntry D))
  unfolding emit last_runner
  reap_one self done e rest = do
    (alive, runner) ← is_running os e.runner
    if alive then pure (self, done ++ record e { runner = runner } ∷ []) else (do
      after ← emit self e.pending_ev
      destroy os (last_runner runner rest)
      pure (after, done))

  unfoldable pub reap :
      BpfDiagnoser D → List (RunnerEntry D) → List (RunnerEntry D) → M (BpfDiagnoser D)
  reap self done [] = pure (record self { runners = done })
  reap self done (e ∷ rest) = do (after, kept) ← reap_one self done e rest; reap after kept rest

  unfoldable pub launch_offcpus : BpfDiagnoser D → List OffcpuConfig → M (BpfDiagnoser D)
  launch_offcpus self [] = pure self
  launch_offcpus self (cfg ∷ rest) = do after ← launch_offcpu os self cfg; launch_offcpus after rest

  unfoldable pub launch_profiles : BpfDiagnoser D → List ProfileConfig → M (BpfDiagnoser D)
  launch_profiles self [] = pure self
  launch_profiles self (cfg ∷ rest) = do
    after ← launch_profile os self cfg
    launch_profiles after rest

  unfoldable pub collect : BpfDiagnoser D → M (BpfDiagnoser D)
  collect self = do
    reaped ← reap self [] self.runners
    if is_nil reaped.runners
          && (not (is_nil reaped.offcpu_configs) || not (is_nil reaped.profile_configs))
        then (do
          first ← launch_offcpus reaped reaped.offcpu_configs
          launch_profiles first first.profile_configs)
        else pure reaped

  -- `Stop` sets each entry's number to -1, so that `clear` destroys idle runners.
  unfoldable pub stop_all : BpfDiagnoser D → M (BpfDiagnoser D)
  stop_all self = do destroy_all os self.runners; pure (record self { runners = [] })
