-- ===== src/Worker/Runner.antt =====
-- worker/include/diagnose/cmd_runner.h and worker/src/diagnose/cmd_runner.cpp. `Start` is what its
-- parent sees: `fork` gives it the child's number, or a negative number. Child has what the child
-- does between `fork` and `execv`.
use perf_monitor.Prelude.{Bool, true, false, List, [], if◌then◌else◌}
use perf_monitor.Prelude.Int.{ℤ, pos, negsuc, ltb_ℤ, leb_ℤ}
use perf_monitor.Text.{Bytes}
use perf_monitor.Worker.System.{System, M, pure, ◌>>=◌, ◌>>◌, ask, note, exec, sigterm}

pub record CmdRunner : Type 0 where
  pub pid : ℤ
  pub output_path : Bytes

-- `CmdRunner{}`
abbrev pub new_runner : CmdRunner
new_runner = record { pid = negsuc 0; output_path = [] }

abbrev pub eq_ℤ : ℤ → ℤ → Bool
eq_ℤ a b = if leb_ℤ a b then leb_ℤ b a else false

module _ (os : System) where
  unfoldable pub start : CmdRunner → Bytes → List Bytes → Bytes → M (Bool × CmdRunner)
  unfolding ask note
  start runner bin args output_file = do
    pid ← ask os.fork
    let started : CmdRunner = record runner { pid = pid; output_path = output_file }
    if ltb_ℤ pid (pos 0)
        then pure (false, started)
        else (do note (exec pid bin args); pure (true, started))

  unfoldable pub stop : CmdRunner → M CmdRunner
  unfolding ask note
  stop runner = if leb_ℤ runner.pid (pos 0) then pure runner else (do
    note (sigterm runner.pid)
    _ ← ask (λ n. os.waitpid n runner.pid)
    pure (record runner { pid = negsuc 0 }))

  -- `~CmdRunner() { Stop(); }`. Since the class declares its destructor it has no move operations:
  -- `std::move` of a runner copies its number, and the source of the copy is destroyed with it.
  unfoldable pub destroy : CmdRunner → M (Unit {0})
  unfolding stop
  destroy runner = do _ ← stop runner; pure tt

  unfoldable pub is_running : CmdRunner → M (Bool × CmdRunner)
  unfolding ask
  is_running runner = if leb_ℤ runner.pid (pos 0) then pure (false, runner) else (do
    ret ← ask (λ n. os.waitpid n runner.pid)
    pure (
        if eq_ℤ ret runner.pid
        then (false, record runner { pid = negsuc 0 })
        else if ltb_ℤ ret (pos 0)
        then (false, record runner { pid = negsuc 0 })
        else (true, runner)))
