-- ===== src/Bench/Summary.antt =====
-- `percentile` and `main` of benchmarks/manager_fake_worker.cpp. The order in which the calls of the
-- threads come, the answers and the clock are arguments; so are the cast of a double to
-- `std::size_t`, and `ostream <<` with `std::fixed` and three digits.
use perf_monitor.Prelude.{ℕ, zero, suc, Option, none, some, List, [], ◌∷◌, if◌then◌else◌, length}
use perf_monitor.Prelude.Int.{ℤ, ◌*ℤ◌}
use perf_monitor.Text.{Bytes, codes, ◌<<◌}
use perf_monitor.Text.Decimal.{to_string}
use perf_monitor.Double.{Double}
use perf_monitor.Bench.{Options, Failure, Parsed, parsed, exits, throws, parse_args}
use perf_monitor.Bench.Threads.{
  Call, threads, thread_count, Answer, Metrics, no_metrics, note_all, exit_status, to_int,
}

-- `values[index]`; out of range the behaviour is undefined.
abbrev at {ℓ} : {A : Type ℓ} → List A → ℕ → Option A
at [] i = none
at (x ∷ xs) zero = some x
at (x ∷ xs) (suc i) = at xs i

-- How `main` ends: with a text and a status, or by the handler, which returns 2.
pub data Outcome : Type 0 where
  prints : Bytes → ℕ → Outcome
  helps : Outcome
  fails : Failure → ℕ → Outcome

module _ {D : Type 0} ⦃d : Double D⦄ (to_size : D → ℕ) (show_fixed : D → Bytes) where
  open d use {of_ℕ, of_ℤ, add, mul, div, lt}

  -- `std::sort`
  unfoldable pub insert_sorted : D → List D → List D
  insert_sorted x [] = x ∷ []
  insert_sorted x (y ∷ ys) = if lt y x then y ∷ insert_sorted x ys else x ∷ y ∷ ys

  unfoldable pub sort : List D → List D
  unfolding insert_sorted
  sort [] = []
  sort (x ∷ xs) = insert_sorted x (sort xs)

  -- `none` is an access out of range.
  unfoldable pub percentile : List D → D → Option D
  unfolding sort
  percentile [] pct = some (of_ℕ 0)
  percentile (x ∷ xs) pct = at (sort (x ∷ xs)) (to_size (mul (of_ℕ (length xs)) pct))

  unfoldable pub total_ms : D → List D → D
  total_ms sum [] = sum
  total_ms sum (x ∷ xs) = total_ms (add sum x) xs

  unfoldable pub average : List D → D
  unfolding total_ms
  average [] = of_ℕ 0
  average (x ∷ xs) = div (total_ms (of_ℕ 0) (x ∷ xs)) (of_ℕ (length (x ∷ xs)))

  -- `std::max_element`, with the largest so far
  unfoldable pub largest : D → List D → D
  largest best [] = best
  largest best (x ∷ xs) = largest (if lt best x then x else best) xs

  abbrev max_ms : List D → D
  max_ms [] = of_ℕ 0
  max_ms (x ∷ xs) = largest x xs

  -- `pct` hundredths
  abbrev hundredths : ℕ → D
  hundredths n = div (of_ℕ n) (of_ℕ 100)

  abbrev show_percentile : Option D → Bytes
  show_percentile none = []
  show_percentile (some x) = show_fixed x

  unfoldable pub summary : Options → Metrics D → D → Bytes
  unfolding percentile average largest thread_count
  summary o m elapsed_s =
      let total = o.workers *ℤ o.iterations in
      let ms = m.latencies_ms in
      let rate = if lt (of_ℕ 0) elapsed_s then div (of_ℤ total) elapsed_s else of_ℕ 0 in
      codes "{\n"
      << codes "  \"addr\": \""
      << o.addr
      << codes "\",\n"
      << codes "  \"workers\": "
      << to_string o.workers
      << codes ",\n"
      << codes "  \"iterations\": "
      << to_string o.iterations
      << codes ",\n"
      << codes "  \"concurrency\": "
      << to_string (thread_count o)
      << codes ",\n"
      << codes "  \"total_reports\": "
      << to_string total
      << codes ",\n"
      << codes "  \"ok\": "
      << to_string (to_int m.ok)
      << codes ",\n"
      << codes "  \"failed\": "
      << to_string (to_int m.failed)
      << codes ",\n"
      << codes "  \"elapsed_s\": "
      << show_fixed elapsed_s
      << codes ",\n"
      << codes "  \"reports_per_s\": "
      << show_fixed rate
      << codes ",\n"
      << codes "  \"avg_ms\": "
      << show_fixed (average ms)
      << codes ",\n"
      << codes "  \"p50_ms\": "
      << show_percentile (percentile ms (hundredths 50))
      << codes ",\n"
      << codes "  \"p95_ms\": "
      << show_percentile (percentile ms (hundredths 95))
      << codes ",\n"
      << codes "  \"p99_ms\": "
      << show_percentile (percentile ms (hundredths 99))
      << codes ",\n"
      << codes "  \"max_ms\": "
      << show_fixed (max_ms ms)
      << codes "\n"
      << codes "}\n"

  -- What follows `parse_args`
  unfoldable pub finish : (List (List Call) → List Call) → (Call → Answer D) → D → Parsed → Outcome
  unfolding threads note_all summary exit_status
  finish schedule answer elapsed_s exits = helps
  finish schedule answer elapsed_s (throws failure) = fails failure 2
  finish schedule answer elapsed_s (parsed o) =
      let m = note_all answer no_metrics (schedule (threads o)) in
      prints (summary o m elapsed_s) (exit_status m)

  unfoldable pub main :
      (Bytes → Option ℤ)
      → (List (List Call) → List Call)
      → (Call → Answer D)
      → D
      → List Bytes
      → Outcome
  unfolding finish
  main stoi schedule answer elapsed_s args = finish schedule answer elapsed_s (parse_args stoi args)
