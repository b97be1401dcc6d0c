-- ===== src/Bench/Arguments.antt =====
-- What `parse_args` of benchmarks/manager_fake_worker.cpp returns.
use perf_monitor.Prelude.{
  ◌<◌, ◌≡◌, ◌≢◌, Option, List, [], ◌∷◌, arith, Bool-cases, Option-cases, inl, inr,
}
use mathlib.Core.Path.{subst}
use perf_monitor.Prelude.Int.{ℤ, pos_part}
use perf_monitor.Text.{Bytes, str_eq, codes}
use perf_monitor.Bench.{
  Options, parsed, at_least_one, normalised, number_option, other_argument, last_argument,
  read_args,
}

-- The options that `parse_args` returns
pub record HasCounts (o : Options) : Type 0 where
  pub workers : 0 < pos_part o.workers
  pub iterations : 0 < pos_part o.iterations
  pub concurrency : 0 < pos_part o.concurrency

at_least_one_pos : (n : ℤ) → 0 < pos_part (at_least_one n)
at_least_one_pos n = ground arith

normalised-HasCounts : (o : Options) → HasCounts (normalised o)
unfolding normalised
normalised-HasCounts o = record {
  workers = at_least_one_pos o.workers;
  iterations = at_least_one_pos o.iterations;
  concurrency = at_least_one_pos o.concurrency;
}

other_argument-ne-parsed : (arg : Bytes) (o : Options) → other_argument arg ≢ parsed o
unfolding other_argument
other_argument-ne-parsed arg o h = ground arith

last_argument-ne-parsed : (arg : Bytes) (o : Options) → last_argument arg ≢ parsed o
unfolding last_argument
last_argument-ne-parsed arg o h = elim (Bool-cases (str_eq arg (codes "--addr"))) [
  | inl addr ↦ cc (rw addr at h)
  | inr other ↦ elim (Option-cases (number_option arg)) [
    | inl e ↦ other_argument-ne-parsed arg o (rw (other, e) at h)
    | inr (put, e) ↦ cc (rw (other, e) at h)
  ]
]

-- Options that are returned have at least one worker, iteration and thread.
pub read_args-HasCounts :
    (stoi : Bytes → Option ℤ) (args : List Bytes) (start o : Options)
    → read_args stoi args start ≡ parsed o
    → HasCounts o
unfolding read_args
read_args-HasCounts stoi [] start o h = subst HasCounts (cc) (normalised-HasCounts start)
read_args-HasCounts stoi (arg ∷ []) start o h = absurd (last_argument-ne-parsed arg o h)
read_args-HasCounts stoi (arg ∷ value ∷ rest) start o h =
    elim (Bool-cases (str_eq arg (codes "--addr"))) [
      | inl addr ↦ read_args-HasCounts stoi rest (record start { addr = value }) o (rw addr at h)
      | inr other ↦ elim (Option-cases (number_option arg)) [
        | inl e ↦ absurd (other_argument-ne-parsed arg o (rw (other, e) at h))
        | inr (put, e) ↦ elim (Option-cases (stoi value)) [
          | inl bad ↦ absurd (cc (rw (other, e, bad) at h))
          | inr (n, good) ↦ read_args-HasCounts stoi rest (put start n) o (rw (other, e, good) at h)
        ]
      ]
    ]
