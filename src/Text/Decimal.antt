-- ===== src/Text/Decimal.antt =====
-- `std::to_string` on integers.
use perf_monitor.Prelude.{ℕ, zero, suc, ◌+◌, ◌/◌, ◌%◌, ◌≡◌, refl, [], ◌∷◌, ltb, if◌then◌else◌}
use perf_monitor.Prelude.Int.{ℤ, pos, negsuc}
use perf_monitor.Text.{Bytes}

-- The digits of `n`, most significant first, in front of `rest`; the fuel is above `n`.
unfoldable pub digits_onto : ℕ → ℕ → Bytes → Bytes
digits_onto zero n rest = rest
digits_onto (suc f) n rest =
    let digit = b'0' + n % 10 in
    let more = digits_onto f (n / 10) (digit ∷ rest) in if ltb n 10 then digit ∷ rest else more

unfoldable pub to_string_ℕ : ℕ → Bytes
unfolding digits_onto
to_string_ℕ n = digits_onto (suc n) n []

unfoldable pub to_string : ℤ → Bytes
unfolding to_string_ℕ
to_string (pos n) = to_string_ℕ n
to_string (negsuc n) = b'-' ∷ to_string_ℕ (suc n)

twelve : to_string_ℕ 1203 ≡ b'1' ∷ b'2' ∷ b'0' ∷ b'3' ∷ []
unfolding to_string_ℕ
twelve = refl
