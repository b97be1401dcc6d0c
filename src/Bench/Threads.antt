-- ===== src/Bench/Threads.antt =====
-- `run_thread` of benchmarks/manager_fake_worker.cpp, and the threads that `main` starts. A call is
-- the pair of the worker and the iteration that `make_report` is given. `int` arithmetic is taken
-- without overflow, which C++ leaves undefined; the pauses between two iterations leave no trace.
pub mod Interleaving
pub mod Sums
pub mod Once
pub mod Complete
use perf_monitor.Prelude.{
  ℕ, zero, suc, ◌+◌, ◌-◌, ◌%◌, ◌^◌, Bool, ◌&&◌, List, [], ◌∷◌, ◌++◌, map, if◌then◌else◌, ltb, ◌==◌,
}
use perf_monitor.Prelude.Int.{ℤ, pos, negsuc, pos_part, ltb_ℤ}
use perf_monitor.Bench.{Options}

abbrev pub Call : Type 0
Call = ℕ × ℕ

-- `for (worker = thread_index; worker < workers; worker += concurrency)`, on fuel
unfoldable pub strided : ℕ → ℕ → ℕ → ℕ → List ℕ
strided zero concurrency workers worker = []
strided (suc fuel) concurrency workers worker =
    let rest = strided fuel concurrency workers (worker + concurrency) in
    if ltb worker workers then worker ∷ rest else []

-- The calls of one iteration; no thread makes more turns than there are workers.
unfoldable pub round_calls : Options → ℕ → ℕ → List Call
round_calls o thread_index iteration =
    let workers = pos_part o.workers in
    map (λ worker. (worker, iteration))
      (strided workers (pos_part o.concurrency) workers thread_index)

-- The loop over the iterations, from one on, with the number that is left
unfoldable pub rounds : Options → ℕ → ℕ → ℕ → List Call
rounds o thread_index iteration zero = []
rounds o thread_index iteration (suc left) =
    round_calls o thread_index iteration ++ rounds o thread_index (iteration + 1) left

unfoldable pub run_thread : Options → ℕ → List Call
run_thread o thread_index = rounds o thread_index 0 (pos_part o.iterations)

-- `std::min(options.concurrency, options.workers)`
unfoldable pub thread_count : Options → ℤ
thread_count o = if ltb_ℤ o.workers o.concurrency then o.workers else o.concurrency

-- The loop of `main` that starts the threads, from one on, with the number that is left
unfoldable pub start_threads : Options → ℕ → ℕ → List (List Call)
start_threads o i zero = []
start_threads o i (suc left) = run_thread o i ∷ start_threads o (i + 1) left

unfoldable pub threads : Options → List (List Call)
threads o = start_threads o 0 (pos_part (thread_count o))

-- A `std::atomic<int>` wraps around; it is kept as its residue.
abbrev pub count_up : ℕ → ℕ → ℕ
count_up n by = (n + by) % 2 ^ 32

-- The `int` of a residue
abbrev pub to_int : ℕ → ℤ
to_int n = if ltb n (2 ^ 31) then pos n else negsuc (2 ^ 32 - 1 - n)

-- What the manager returns to a call, and how long that took
pub record Answer (D : Type 0) : Type 0 where
  pub status_ok : Bool
  pub response_ok : Bool
  pub elapsed_ms : D

pub record Metrics (D : Type 0) : Type 0 where
  pub latencies_ms : List D
  pub ok : ℕ
  pub failed : ℕ

abbrev pub no_metrics : {D : Type 0} → Metrics D
no_metrics = record { latencies_ms = []; ok = 0; failed = 0 }

module _ {D : Type 0} where
  abbrev pub accepted : Answer D → Bool
  accepted a = a.status_ok && a.response_ok

  -- What follows a call. The list is locked and the counters are atomic.
  unfoldable pub note : Metrics D → Answer D → Metrics D
  note m a = record m {
    latencies_ms = m.latencies_ms ++ a.elapsed_ms ∷ [];
    ok = count_up m.ok (if accepted a then 1 else 0);
    failed = count_up m.failed (if accepted a then 0 else 1);
  }

  -- What the threads leave behind, where their calls come in one order
  unfoldable pub note_all : (Call → Answer D) → Metrics D → List Call → Metrics D
  note_all answer m [] = m
  note_all answer m (c ∷ calls) = note_all answer (note m (answer c)) calls

  -- `return metrics.failed.load() == 0 ? 0 : 1`
  unfoldable pub exit_status : Metrics D → ℕ
  exit_status m = if m.failed == 0 then 0 else 1
