-- ===== src/Double/Exact.antt =====
-- Doubles that are whole numbers, computed without rounding: a value at which the laws hold.
use perf_monitor.Prelude.{◌/◌, arith}
use perf_monitor.Prelude.Int.{ℤ, pos, ◌+ℤ◌, ◌-ℤ◌, ◌*ℤ◌, ltb_ℤ, leb_ℤ, pos_part}
use perf_monitor.Text.Decimal.{to_string}
use perf_monitor.Double.{Double, IsOrdered}

-- Division of a whole number that is not negative, rounded down.
abbrev pub quotient : ℤ → ℤ → ℤ
quotient a b = pos (pos_part a / pos_part b)

instance abbrev pub exact_double : Double ℤ
exact_double = record {
  of_ℕ = pos;
  of_ℤ = λ x. x;
  add = ◌+ℤ◌;
  sub = ◌-ℤ◌;
  mul = ◌*ℤ◌;
  div = quotient;
  lt = ltb_ℤ;
  le = leb_ℤ;
  show = to_string;
}

pub exact-IsOrdered : IsOrdered ℤ
unfolding ◌+ℤ◌ ◌-ℤ◌ ◌*ℤ◌
exact-IsOrdered = record {
  le_of_lt = λ x y h. ground arith;
  of_ℕ_le = λ m n l h. ground arith;
  of_ℕ_lt = λ m n l h. ground arith;
  sub_le = λ x y n l h k. ground arith;
  sub_nonneg = λ x y h. ground arith;
  mul_nonneg = λ x n p l h. grind arith;
  of_ℕ-sub = λ m n l h. ground arith;
  of_ℕ-add = λ m n l. ground arith;
}
