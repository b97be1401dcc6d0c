-- ===== src/Worker/Bpf.antt =====
-- worker/include/diagnose/bpf_diagnoser.h and worker/src/diagnose/bpf_diagnoser.cpp: the offcpu and
-- profile tools, which run in cycles. `Init` stands in Worker/Directories and Pusher/Run.
pub mod Cycle
pub mod Launch
pub mod Named
pub mod Reaped
use perf_monitor.Prelude.{
  ℕ, ◌+◌, Bool, true, false, not, ◌&&◌, ◌||◌, List, [], ◌∷◌, ◌++◌, Option, none, some, ltb, ◌==◌,
  if◌then◌else◌, length,
}
use perf_monitor.Prelude.Int.{ℤ}
use perf_monitor.Text.{Bytes, codes, is_empty, ◌<<◌}
use perf_monitor.Text.Decimal.{to_string, to_string_ℕ}
use perf_monitor.Double.{Double}
use perf_monitor.Worker.Proc.{read_pid_by_name, read_tid_by_name}
use perf_monitor.Worker.Files.{cleanup_files}
use perf_monitor.Worker.System.{System, World, M, pure, ◌>>=◌, ◌>>◌, ask}
use perf_monitor.Worker.Runner.{CmdRunner, new_runner, start, stop, destroy, is_running}
use perf_monitor.Worker.Event.{CppDiagnoseEvent}

pub record OffcpuConfig : Type 0 where
  pub process : Bytes
  pub thread : Bytes
  pub min_block_us : ℤ
  pub max_block_us : ℤ
  pub interval_s : ℤ

pub record ProfileConfig : Type 0 where
  pub process : Bytes
  pub thread : Bytes
  pub max_nr : ℤ
  pub max_size_kb : ℤ
  pub cpus : Bytes

pub record RunnerEntry (D : Type 0) : Type 0 where
  pub runner : CmdRunner
  pub pending_ev : CppDiagnoseEvent D

pub record BpfDiagnoser (D : Type 0) : Type 0 where
  pub events : List (CppDiagnoseEvent D)
  pub output_dir : Bytes
  pub offcpu_bin : Bytes
  pub profile_bin : Bytes
  pub limit_file_num : ℤ
  pub limit_file_size_mb : ℤ
  pub runners : List (RunnerEntry D)
  pub offcpu_configs : List OffcpuConfig
  pub profile_configs : List ProfileConfig

unfoldable pub make_tag : Bytes → Bytes → Bytes
make_tag process thread = process << (if is_empty thread then [] else codes "_" << thread)

-- `output_dir_ + "/" + kind + "_" + tag + "_" + now + ".data"`
unfoldable pub out_file : Bytes → Bytes → Bytes → Bytes → ℤ → Bytes
unfolding make_tag
out_file dir kind process thread now =
    dir
    << codes "/"
    << kind
    << codes "_"
    << make_tag process thread
    << codes "_"
    << to_string now
    << codes ".data"

-- An option and a number, if the lookup found one.
abbrev pub id_args : Bytes → ℕ → List Bytes
id_args flag id = if ltb 0 id then flag ∷ to_string_ℕ id ∷ [] else []

module _ (os : System) where
  -- `pid_args` and `tid_args`; a lookup reads the process directory anew.
  unfoldable pub target_args : Bytes → Bytes → M (List Bytes)
  unfolding ask
  target_args process thread = if is_empty process then pure [] else (do
    pid ← ask (λ n. read_pid_by_name (os.proc n) process)
    if is_empty thread then pure (id_args (codes "-p") pid) else (do
      tid ← ask (λ n. read_tid_by_name (os.proc n) process thread)
      pure (id_args (codes "-p") pid ++ id_args (codes "-t") tid)))

module _ {D : Type 0} ⦃d : Double D⦄ (os : System) where
  unfoldable pub destroy_all : List (RunnerEntry D) → M (Unit {0})
  destroy_all [] = pure tt
  destroy_all (e ∷ rest) = do destroy os e.runner; destroy_all rest

  -- `runners_.push_back(std::move(entry))`. Where the array is full the entries are copied to a new
  -- one, and the old ones are destroyed.
  unfoldable pub push_back : List (RunnerEntry D) → RunnerEntry D → M (List (RunnerEntry D))
  unfolding destroy_all
  push_back entries entry =
      if os.grows (length entries)
      then (do destroy_all entries; pure (entries ++ entry ∷ []))
      else pure (entries ++ entry ∷ [])

  -- From `CmdRunner runner;` to the end of the function: the entry is destroyed at the end of the
  -- branch, and the runner at the end of the function.
  unfoldable pub run_tool :
      BpfDiagnoser D → Bytes → List Bytes → Bytes → Bytes → Bytes → Bytes → M (BpfDiagnoser D)
  run_tool self bin args kind process thread file = do
    (started, runner) ← start os new_runner bin args file
    if started
        then (do
          now ← ask os.time
          let entry : RunnerEntry D = record {
            runner = runner;
            pending_ev = record {
              type = kind;
              process_name = process;
              thread_name = thread;
              file_path = file;
              timestamp = now;
              cpu_percent = d.of_ℕ 0;
            };
          }
          entries ← push_back self.runners entry
          destroy os entry.runner
          destroy os runner
          pure (record self { runners = entries }))
        else (do destroy os runner; pure self)

  unfoldable pub launch_offcpu : BpfDiagnoser D → OffcpuConfig → M (BpfDiagnoser D)
  unfolding run_tool target_args
  launch_offcpu self cfg = do
    target ← target_args os cfg.process cfg.thread
    now ← ask os.time
    let file : Bytes = out_file self.output_dir (codes "offcpu") cfg.process cfg.thread now
    let args : List Bytes =
        codes "-m"
        ∷ to_string cfg.min_block_us
        ∷ codes "-M"
        ∷ to_string cfg.max_block_us
        ∷ codes "-o"
        ∷ file
        ∷ codes "-i"
        ∷ to_string cfg.interval_s
        ∷ codes "-S"
        ∷ to_string self.limit_file_size_mb
        ∷ target
    run_tool self self.offcpu_bin args (codes "offcpu") cfg.process cfg.thread file

  unfoldable pub launch_profile : BpfDiagnoser D → ProfileConfig → M (BpfDiagnoser D)
  unfolding run_tool target_args
  launch_profile self cfg = do
    target ← target_args os cfg.process cfg.thread
    now ← ask os.time
    let file : Bytes = out_file self.output_dir (codes "profile") cfg.process cfg.thread now
    let args : List Bytes =
        codes "-N"
        ∷ to_string cfg.max_nr
        ∷ codes "-M"
        ∷ to_string cfg.max_size_kb
        ∷ codes "-C"
        ∷ cfg.cpus
        ∷ codes "-o"
        ∷ file
        ∷ target
    run_tool self self.profile_bin args (codes "profile") cfg.process cfg.thread file

  unfoldable pub start_offcpu : BpfDiagnoser D → OffcpuConfig → M (BpfDiagnoser D)
  start_offcpu self cfg =
      launch_offcpu (record self { offcpu_configs = self.offcpu_configs ++ cfg ∷ [] }) cfg

  unfoldable pub start_profile : BpfDiagnoser D → ProfileConfig → M (BpfDiagnoser D)
  start_profile self cfg =
      launch_profile (record self { profile_configs = self.profile_configs ++ cfg ∷ [] }) cfg
