-- ===== src/Host/Tail.antt =====
-- The bounded tail that `Update` keeps of the diagnose events.
use perf_monitor.Prelude.{
  ℕ, ◌+◌, ◌-◌, ◌≤◌, ◌≡◌, sym, ap, ◌∙◌, List, ◌++◌, arith, ltb, length, drop, length-append,
  length-drop, drop-drop, drop-append_le, Bool-cases, inl, inr,
}
use perf_monitor.Host.{keep_last}

module _ {ℓ} {A : Type ℓ} where
  pub length-keep_last : (n : ℕ) (xs : List A) → length (keep_last n xs) ≤ n
  unfolding keep_last
  length-keep_last n xs = ground (arith, length-drop (length xs - n) xs)

  pub keep_last_short : (n : ℕ) (xs : List A) → length xs ≤ n → keep_last n xs ≡ xs
  unfolding keep_last
  keep_last_short n xs h = ground arith

  pub keep_last-drop : (n : ℕ) (xs : List A) → keep_last n xs ≡ drop (length xs - n) xs
  unfolding keep_last
  keep_last-drop n xs = elim (Bool-cases (ltb n (length xs))) [
    | inl long ↦ rw long
    | inr short ↦ let e : length xs - n ≡ 0 = ground arith in rw (short, e)
  ]

  -- Truncating early loses nothing that the last truncation would keep.
  pub keep_last-append :
      (n : ℕ) (xs ys : List A) → keep_last n (keep_last n xs ++ ys) ≡ keep_last n (xs ++ ys)
  keep_last-append n xs ys = elim (Bool-cases (ltb n (length xs))) [
    | inl long ↦
        let k : ℕ = length xs - n in
        let zs : List A = xs ++ ys in
        let lengths : length zs ≡ length xs + length ys = length-append xs ys in
        let last : k + (length (drop k zs) - n) ≡ length zs - n =
          ground (arith, length-drop k zs) in
        rw (keep_last-drop n xs, ← drop-append_le k xs ys (ground arith))
          (keep_last-drop n (drop k zs)
            ∙ drop-drop (length (drop k zs) - n) k zs
            ∙ ap (λ m. drop m zs) last
            ∙ sym (keep_last-drop n zs))
    | inr short ↦ rw (keep_last_short n xs (ground arith))
  ]
