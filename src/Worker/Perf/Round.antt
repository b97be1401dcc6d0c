-- ===== src/Worker/Perf/Round.antt =====
-- One round of `worker_loop` of worker/src/diagnose/perf_diagnoser.cpp.
use perf_monitor.Prelude.{ℕ, ◌+◌, Bool, true, false, List, [], ◌∷◌, ◌++◌, ltb, ◌==◌, if◌then◌else◌}
use perf_monitor.Prelude.Int.{ℤ, pos, ◌+ℤ◌, leb_ℤ, ltb_ℤ}
use perf_monitor.Text.{Bytes, codes, ◌<<◌}
use perf_monitor.Text.Decimal.{to_string, to_string_ℕ}
use perf_monitor.Double.{Double}
use perf_monitor.Table.{insert, bytes_eq, number_eq}
use perf_monitor.Worker.Monitor.{sub_u64}
use perf_monitor.Worker.Perf.{read_pid_by_name, cleanup_files}
use perf_monitor.Worker.System.{System, M, pure, ◌>>=◌, ◌>>◌, ask}
use perf_monitor.Worker.Runner.{new_runner, start, destroy, is_running}
use perf_monitor.Worker.Event.{CppDiagnoseEvent}
use perf_monitor.Worker.Bpf.Cycle.{has_data, is_nil}
use perf_monitor.Worker.Perf.{
  ProcSample, PerfDiagnoser, Probe, read_proc_cpu_pct, refresh, sample_at, timer_at, has_tag,
  event_of,
}

module _ {D : Type 0} ⦃d : Double D⦄ (os : System) (probe : Probe) where
  open d use {of_ℕ, of_ℤ, mul, div, lt, le}

  -- `cleanup_files("perf_")`
  unfoldable pub clean : PerfDiagnoser D → M (Unit {0})
  clean self w =
      let unlink : Bytes → Bool = os.unlink w.calls in
      (
        tt,
        record w {
          dir = cleanup_files unlink self.limit_file_num (codes "perf_") w.dir;
          calls = w.calls + 1;
        },
      )

  unfoldable pub emit_pending : PerfDiagnoser D → M (PerfDiagnoser D)
  unfolding clean ask
  emit_pending self =
      if self.pending_ev.pending
      then (do
        size ← ask (λ n. os.stat_size n self.pending_ev.file_path)
        let emitted : List (CppDiagnoseEvent D) =
            if has_data size then self.events ++ event_of self.pending_ev ∷ [] else self.events
        clean self
        pure (record self {
          events = emitted;
          pending_ev = record self.pending_ev { pending = false };
        }))
      else pure self

  -- What the round does first: the end of the tool allows new ones.
  unfoldable pub finish : PerfDiagnoser D → M (PerfDiagnoser D)
  unfolding emit_pending
  finish self = if is_nil self.triggered_tags then pure self else (do
    (alive, runner) ← is_running os self.perf_runner
    let asked : PerfDiagnoser D = record self { perf_runner = runner }
    if alive
        then pure asked
        else (do after ← emit_pending asked; pure (record after { triggered_tags = [] })))

  -- `CmdRunner runner;` and the `if` below it, to the end of the block, where the runner is
  -- destroyed.
  unfoldable pub run_perf : PerfDiagnoser D → Bytes → Bytes → ℕ → D → M (PerfDiagnoser D)
  unfolding ask
  run_perf self proc_name tag pid cpu_pct = do
    stamp ← ask os.time
    let out_file : Bytes =
        self.output_dir
        << codes "/perf_"
        << proc_name
        << codes "_"
        << to_string stamp
        << codes ".data"
    let args : List Bytes =
        codes "record"
        ∷ codes "-g"
        ∷ codes "-p"
        ∷ to_string_ℕ pid
        ∷ codes "-o"
        ∷ out_file
        ∷ codes "--"
        ∷ codes "sleep"
        ∷ codes "5"
        ∷ []
    (started, runner) ← start os new_runner self.perf_bin args []
    if started
        then (do
          now ← ask os.time
          destroy os runner
          pure (record self {
            perf_runner = runner;
            triggered_tags = tag ∷ self.triggered_tags;
            pending_ev = record {
              pending = true;
              type = codes "perf";
              process_name = proc_name;
              file_path = out_file;
              timestamp = now;
              cpu_percent = cpu_pct;
            };
          }))
        else (do destroy os runner; pure self)

  -- The body of the scan, from `if (cpu_pct < 0) continue;` on.
  unfoldable pub judge : PerfDiagnoser D → Bytes → Bytes → ℕ → D → M (PerfDiagnoser D)
  unfolding run_perf
  judge self proc_name tag pid cpu_pct =
      if lt cpu_pct (of_ℕ 0)
      then pure self
      else (let scaled : D =
            if ltb_ℤ (pos 0) probe.clk_tck
            then div (mul cpu_pct (of_ℕ 1000)) (of_ℤ probe.clk_tck)
            else cpu_pct in
          let seconds : ℤ =
            if le (of_ℤ self.cpu_threshold_pct) scaled
            then timer_at self.overflow_timers tag +ℤ pos 5
            else pos 0 in
          let timed : PerfDiagnoser D = record self {
            overflow_timers = insert tag seconds self.overflow_timers;
          } in
          if leb_ℤ self.overflow_duration_s seconds
          then (do
            after ← run_perf timed proc_name tag pid scaled
            pure (record after { overflow_timers = insert tag (pos 0) after.overflow_timers }))
          else pure timed)

  -- One turn of the scan.
  unfoldable pub scan_one : PerfDiagnoser D → ℕ → Bytes → M (PerfDiagnoser D)
  unfolding judge read_proc_cpu_pct refresh ask
  scan_one self delta_ms proc_name =
      let tag : Bytes = proc_name << codes "_proc" in
      if has_tag tag self.triggered_tags then pure self else (do
        pid ← ask (λ n. read_pid_by_name (os.proc n) proc_name)
        if pid == 0 then pure self else (do
          let prev : ProcSample = sample_at self.prev_samples pid
          text ← ask (λ n. probe.stat n pid)
          again ← ask (λ n. probe.stat n pid)
          let cpu_pct : D = read_proc_cpu_pct text prev delta_ms
          let sampled : PerfDiagnoser D = record self {
            prev_samples = insert pid (refresh prev again) self.prev_samples;
          }
          judge sampled proc_name tag pid cpu_pct))

  unfoldable pub scan : PerfDiagnoser D → ℕ → List Bytes → M (PerfDiagnoser D)
  unfolding scan_one
  scan self delta_ms [] = pure self
  scan self delta_ms (proc_name ∷ rest) = do
    after ← scan_one self delta_ms proc_name
    scan after delta_ms rest

  -- One round of `worker_loop`
  unfoldable pub round : PerfDiagnoser D → M (PerfDiagnoser D)
  unfolding scan finish ask
  round self = do
    now_wall ← ask probe.steady_ms
    let delta_ms : ℕ = if ltb 0 self.prev_wall then sub_u64 now_wall self.prev_wall else 5000
    after ← finish (record self { prev_wall = now_wall })
    scan after delta_ms after.target_processes
