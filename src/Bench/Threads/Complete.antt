-- ===== src/Bench/Threads/Complete.antt =====
-- What a run of the benchmark has done when all its threads have ended.
use perf_monitor.Prelude.{
  ℕ, ◌+◌, ◌*◌, ◌^◌, ◌<◌, ◌≡◌, refl, ◌∙◌, ◌↔◌, Bool, true, ◌&&◌, Option, List, [], ◌∷◌, arith, ltb,
  ◌==◌, if◌then◌else◌, length, length-append,
}
use perf_monitor.Prelude.Int.{ℤ, pos_part}
use perf_monitor.Text.{Bytes}
use perf_monitor.Bench.{Options, default_options, parsed, parse_args}
use perf_monitor.Bench.Arguments.{HasCounts, read_args-HasCounts}
use perf_monitor.Bench.Threads.{
  Call, threads, Answer, Metrics, no_metrics, accepted, note, note_all, exit_status,
}
use perf_monitor.Bench.Threads.Interleaving.{Interleaving, sum_of}
use perf_monitor.Bench.Threads.Once.{below, sum_of-calls}
use perf_monitor.Bench.Threads.Sums.{
  sum_range, sum_range_zero, sum_range_zero_each, sum_range_spike, sum_range_const, sum_range_shift,
}

-- How often a call is made
abbrev is_call : ℕ → ℕ → Call → Bool
is_call worker iteration c = c.0 == worker && c.1 == iteration

abbrev pub times : ℕ → ℕ → List Call → ℕ
times worker iteration = sum_of (λ c. if is_call worker iteration c then 1 else 0)

-- The calls that a run is for
abbrev pub is_planned : Options → ℕ → ℕ → Bool
is_planned o worker iteration =
    ltb worker (pos_part o.workers) && ltb iteration (pos_part o.iterations)

iteration_times :
    (n worker iteration i : ℕ)
    → sum_range (below n (λ w. if is_call worker iteration (w, i) then 1 else 0)) 0 n
      ≡ (if i == iteration then (if ltb worker n then 1 else 0) else 0)
iteration_times n worker iteration i =
    let v : ℕ = if ltb worker n && i == iteration then 1 else 0 in
    sum_range_shift _ (λ w. if w == worker then v else 0) 0 0 n (λ w. ground arith)
    ∙ sum_range_spike worker v 0 n
    ∙ ground arith

-- Whatever the arguments and in whatever order the threads run, each report of each worker is sent
-- once, and no other.
each_once :
    (stoi : Bytes → Option ℤ) (args : List Bytes) (o : Options) (calls : List Call)
    (worker iteration : ℕ)
    → parse_args stoi args ≡ parsed o
    → Interleaving (threads o) calls
    → times worker iteration calls ≡ (if is_planned o worker iteration then 1 else 0)
unfolding parse_args
each_once stoi args o calls worker iteration h order =
    let n = pos_part o.workers in
    let m = pos_part o.iterations in
    let v : ℕ = if ltb worker n then 1 else 0 in
    sum_of-calls o _ calls (read_args-HasCounts stoi args default_options o h) order
    ∙ sum_range_shift _ (λ i. if i == iteration then v else 0) 0 0 m
        (λ i. iteration_times n worker iteration (0 + i))
    ∙ sum_range_spike iteration v 0 m
    ∙ ground arith

sum_of_ones : (calls : List Call) → sum_of (λ c. 1) calls ≡ length calls
sum_of_ones [] = refl
sum_of_ones (c ∷ calls) = omega (arith, sum_of_ones calls)

length-calls :
    (o : Options) (calls : List Call)
    → HasCounts o
    → Interleaving (threads o) calls
    → length calls ≡ pos_part o.iterations * pos_part o.workers
length-calls o calls h order =
    let n = pos_part o.workers in
    let inner : sum_range (below n (λ w. 1)) 0 n ≡ n * 1 =
      sum_range_const _ 1 0 n (λ i k l. ground arith) in
    let outer =
      sum_range_const (λ i. sum_range (below n (λ w. 1)) 0 n) n 0 (pos_part o.iterations)
        (λ i k l. omega (arith, inner)) in
    omega (arith, sum_of_ones calls, sum_of-calls o (λ c. 1) calls h order, outer)

module _ {D : Type 0} (answer : Call → Answer D) where
  abbrev failures : Call → ℕ
  failures c = if accepted (answer c) then 0 else 1

  note_all_counts :
      (m : Metrics D) (calls : List Call)
      → m.ok + m.failed + length calls < 2 ^ 32
      → let after = note_all answer m calls in
        (after.failed ≡ m.failed + sum_of failures calls)
        × (after.ok + after.failed ≡ m.ok + m.failed + length calls)
        × (length after.latencies_ms ≡ length m.latencies_ms + length calls)
  unfolding note_all note
  note_all_counts m [] h = (omega arith, omega arith, omega arith)
  note_all_counts m (c ∷ calls) h =
      let next = note m (answer c) in
      let both : next.ok + next.failed ≡ m.ok + m.failed + 1 = ground arith in
      let (bad, sum, size) = note_all_counts next calls (omega (arith, both)) in
      let one = length-append m.latencies_ms ((answer c).elapsed_ms ∷ []) in
      (ground (arith, bad), ground (arith, sum), ground (arith, size, one))

  -- What `run_thread` counts as failed is none just if all planned calls are accepted.
  failures_zero :
      (o : Options) (calls : List Call)
      → HasCounts o
      → Interleaving (threads o) calls
      → (sum_of failures calls ≡ 0) ↔ (
          (worker iteration : ℕ)
          → worker < pos_part o.workers
          → iteration < pos_part o.iterations
          → accepted (answer (worker, iteration)) ≡ true)
  failures_zero o calls h order =
      let n = pos_part o.workers in
      let m = pos_part o.iterations in
      let column = λ (i : ℕ). below n (λ w. failures (w, i)) in
      let grid = sum_of-calls o failures calls h order in
      (
        λ zeroes worker iteration small early.
            let turn =
              sum_range_zero_each (λ i. sum_range (column i) 0 n) 0 m iteration
                (omega (arith, grid, zeroes)) (omega arith) (omega arith) in
            let one =
              sum_range_zero_each (column iteration) 0 n worker turn (omega arith) (omega arith) in
            ground (arith, one),
        λ all.
            grid
            ∙ sum_range_zero (λ i. sum_range (column i) 0 n) 0 m
                (λ i k early.
                  sum_range_zero (column i) 0 n
                    (λ w l small. ground (arith, all w i (omega arith) (omega arith)))),
      )

  -- Whatever the arguments, if `workers * iterations` fits an `int`, as `main` computes it, and
  -- whatever the order and the answers: each report of each worker is sent once, and
  -- no other; every call is counted once, as accepted or as failed, and timed once; and the program
  -- returns 0 just if every report of every worker was accepted.
  pub run_complete :
      (stoi : Bytes → Option ℤ) (args : List Bytes) (o : Options) (calls : List Call)
      → parse_args stoi args ≡ parsed o
      → Interleaving (threads o) calls
      → pos_part o.iterations * pos_part o.workers < 2 ^ 31
      → let m = note_all answer no_metrics calls in
        let total = pos_part o.iterations * pos_part o.workers in
        ((worker iteration : ℕ)
          → times worker iteration calls ≡ (if is_planned o worker iteration then 1 else 0))
        × (m.ok + m.failed ≡ total)
        × (length m.latencies_ms ≡ total)
        × ((exit_status m ≡ 0) ↔ (
            (worker iteration : ℕ)
            → worker < pos_part o.workers
            → iteration < pos_part o.iterations
            → accepted (answer (worker, iteration)) ≡ true))
  unfolding parse_args exit_status
  run_complete stoi args o calls h order fits =
      let counts = read_args-HasCounts stoi args default_options o h in
      let total = length-calls o calls counts order in
      let (bad, sum, size) = note_all_counts no_metrics calls (omega (arith, total)) in
      let zero = failures_zero o calls counts order in
      (
        λ worker iteration. each_once stoi args o calls worker iteration h order,
        omega (arith, sum, total),
        omega (arith, size, total),
        (λ status. zero.0 (ground (arith, bad)), λ all. ground (arith, bad, zero.1 all)),
      )
