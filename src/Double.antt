-- ===== src/Double.antt =====
-- The `double` of the sources: the operations that they call, and the laws of IEEE 754 arithmetic
-- that the theorems rely on. The arithmetic itself is the machine's.
pub mod Exact
use perf_monitor.Prelude.{ℕ, ◌+◌, ◌-◌, ◌*◌, ◌^◌, ◌≤◌, ◌<◌, ◌≡◌, Bool, true}
use perf_monitor.Prelude.Int.{ℤ}
use perf_monitor.Text.{Bytes}

pub record Double (D : Type 0) : Type 0 where
  -- The conversion of a `uint64_t` and that of an `int64_t`; an integer literal is a case of them.
  pub of_ℕ : ℕ → D
  pub of_ℤ : ℤ → D
  pub add : D → D → D
  pub sub : D → D → D
  pub mul : D → D → D
  pub div : D → D → D
  pub lt : D → D → Bool
  pub le : D → D → Bool
  -- `ostream <<` at the default precision
  pub show : D → Bytes

-- Integers below this bound are converted without rounding.
abbrev pub exact_limit : ℕ
exact_limit = 2 ^ 53

-- `x <= y`; a NaN is not `<=` anything.
infix 4 ◌≼◌
abbrev pub ◌≼◌ : {D : Type 0} ⦃d : Double D⦄ → D → D → Type 0
◌≼◌ ⦃d⦄ x y = d.le x y ≡ true

pub record IsOrdered (D : Type 0) ⦃d : Double D⦄ : Type 0 where
  pub le_of_lt : (x y : D) → d.lt x y ≡ true → x ≼ y
  pub of_ℕ_le : (m n : ℕ) → n < exact_limit → m ≤ n → d.of_ℕ m ≼ d.of_ℕ n
  pub of_ℕ_lt : (m n : ℕ) → n < exact_limit → m < n → d.lt (d.of_ℕ m) (d.of_ℕ n) ≡ true
  -- Subtracting what is not negative does not go above a bound, unless it makes a NaN.
  pub sub_le :
      (x y : D) (n : ℕ) → n < exact_limit → x ≼ d.of_ℕ n → d.of_ℕ 0 ≼ y → d.sub x y ≼ d.of_ℕ n
  pub sub_nonneg : (x y : D) → d.lt y x ≡ true → d.of_ℕ 0 ≼ d.sub x y
  pub mul_nonneg :
      (x : D) (n : ℕ) → 0 < n → n < exact_limit → d.of_ℕ 0 ≼ x → d.of_ℕ 0 ≼ d.mul x (d.of_ℕ n)
  pub of_ℕ-sub : (m n : ℕ) → m < exact_limit → n ≤ m → d.sub (d.of_ℕ m) (d.of_ℕ n) ≡ d.of_ℕ (m - n)
  pub of_ℕ-add : (m n : ℕ) → m + n < exact_limit → d.add (d.of_ℕ m) (d.of_ℕ n) ≡ d.of_ℕ (m + n)
