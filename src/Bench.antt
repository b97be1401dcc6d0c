-- ===== src/Bench.antt =====
-- benchmarks/manager_fake_worker.cpp: a program that plays many workers against one manager. Here
-- are its options; `std::stoi`, which can throw, is an argument.
pub mod Arguments
pub mod Report
pub mod Threads
pub mod Summary
pub mod Delivered
use perf_monitor.Prelude.{
  ◌≡◌, refl, Bool, ◌||◌, Option, none, some, List, [], ◌∷◌, ◌++◌, if◌then◌else◌,
}
use perf_monitor.Prelude.Int.{ℤ, pos, ltb_ℤ}
use perf_monitor.Text.{Bytes, codes, str_eq}

pub record Options : Type 0 where
  pub addr : Bytes
  pub workers : ℤ
  pub iterations : ℤ
  pub concurrency : ℤ
  pub interval_ms : ℤ
  pub timeout_ms : ℤ

abbrev pub default_options : Options
default_options = record {
  addr = codes "127.0.0.1:50051";
  workers = pos 100;
  iterations = pos 10;
  concurrency = pos 8;
  interval_ms = pos 0;
  timeout_ms = pos 1000;
}

-- What is thrown; `bad_number` is the exception of `std::stoi`.
pub data Failure : Type 0 where
  missing_value : Bytes → Failure
  unknown_argument : Bytes → Failure
  bad_number : Failure

-- How `parse_args` ends: with options, by `std::exit(0)` or by an exception.
pub data Parsed : Type 0 where
  parsed : Options → Parsed
  exits : Parsed
  throws : Failure → Parsed

-- `std::max(1, n)`
abbrev pub at_least_one : ℤ → ℤ
at_least_one n = if ltb_ℤ (pos 1) n then n else pos 1

unfoldable pub normalised : Options → Options
normalised o = record o {
  workers = at_least_one o.workers;
  iterations = at_least_one o.iterations;
  concurrency = at_least_one o.concurrency;
}

-- The member that an option sets to a number, if it is one of those.
unfoldable pub number_option : Bytes → Option (Options → ℤ → Options)
number_option arg =
    if str_eq arg (codes "--workers")
    then some (λ o n. record o { workers = n })
    else if str_eq arg (codes "--iterations")
    then some (λ o n. record o { iterations = n })
    else if str_eq arg (codes "--concurrency")
    then some (λ o n. record o { concurrency = n })
    else if str_eq arg (codes "--interval-ms")
    then some (λ o n. record o { interval_ms = n })
    else if str_eq arg (codes "--timeout-ms")
    then some (λ o n. record o { timeout_ms = n })
    else none

-- An argument that takes no value
unfoldable pub other_argument : Bytes → Parsed
other_argument arg =
    if str_eq arg (codes "--help") || str_eq arg (codes "-h")
    then exits
    else throws (unknown_argument arg)

-- `options.x = std::stoi(...)` and what follows
abbrev pub with_number : Option ℤ → (ℤ → Parsed) → Parsed
with_number none next = throws bad_number
with_number (some n) next = next n

-- The last argument has no value behind it.
unfoldable pub last_argument : Bytes → Parsed
last_argument arg =
    if str_eq arg (codes "--addr") then throws (missing_value arg) else elim (number_option arg) [
      | none ↦ other_argument arg
      | some put ↦ throws (missing_value arg)
    ]

module _ (stoi : Bytes → Option ℤ) where
  unfoldable pub read_args : List Bytes → Options → Parsed
  read_args [] o = parsed (normalised o)
  read_args (arg ∷ []) o = last_argument arg
  read_args (arg ∷ value ∷ rest) o =
      if str_eq arg (codes "--addr")
      then read_args rest (record o { addr = value })
      else elim (number_option arg) [
        | none ↦ other_argument arg
        | some put ↦ with_number (stoi value) (λ n. read_args rest (put o n))
      ]

  unfoldable pub parse_args : List Bytes → Parsed
  unfolding read_args normalised
  parse_args args = read_args args default_options
