-- ===== src/Text/Stream/Printed.antt =====
-- Numbers that are printed and then extracted from a stream.
use perf_monitor.Prelude.{
  ℕ, zero, suc, ◌+◌, ◌/◌, ◌%◌, ◌^◌, ◌<◌, ◌≡◌, ◌≢◌, refl, ap, sym, ◌∙◌, true, false, List, [], ◌∷◌,
  ◌++◌, arith, ltb, ◌==◌, append_assoc, append-nil, Bool-cases, inl, inr, lt→ltb,
}
use mathlib.Core.Path.{subst}
use perf_monitor.Text.{Bytes, is_empty}
use perf_monitor.Text.Search.{Avoids}
use perf_monitor.Text.Decimal.{to_string_ℕ, digits_onto}
use perf_monitor.Text.Stream.{
  stream, skip_space, is_decimal, digits_value, starts_decimal, extract_digits, extract_number,
  extract, lines, lines_onto,
}

digits_value-digits :
    (f n : ℕ) (rest : Bytes) → n < f → digits_value 0 (digits_onto f n rest) ≡ digits_value n rest
unfolding digits_value digits_onto
digits_value-digits zero n rest h = elim h [ ]
digits_value-digits (suc f) n rest h =
    ground (arith, digits_value-digits f (n / 10) ((b'0' + n % 10) ∷ rest))

digits_onto-append :
    (f n : ℕ) (xs ys : Bytes) → digits_onto f n (xs ++ ys) ≡ digits_onto f n xs ++ ys
unfolding digits_onto
digits_onto-append zero n xs ys = refl
digits_onto-append (suc f) n xs ys =
    ground (arith, digits_onto-append f (n / 10) ((b'0' + n % 10) ∷ xs) ys)

digits_onto-starts :
    (f n d : ℕ) (rest : Bytes)
    → is_decimal d ≡ true
    → starts_decimal (digits_onto f n (d ∷ rest)) ≡ true
unfolding digits_onto
digits_onto-starts zero n d rest h = h
digits_onto-starts (suc f) n d rest h =
    ground (arith, digits_onto-starts f (n / 10) (b'0' + n % 10) (d ∷ rest))

to_string-append : (n : ℕ) (rest : Bytes) → to_string_ℕ n ++ rest ≡ digits_onto (suc n) n rest
unfolding to_string_ℕ
to_string-append n rest = sym (digits_onto-append (suc n) n [] rest)

to_string-starts : (n : ℕ) (rest : Bytes) → starts_decimal (digits_onto (suc n) n rest) ≡ true
unfolding digits_onto
to_string-starts n rest = ground (arith, digits_onto-starts n (n / 10) (b'0' + n % 10) rest)

skip_space-decimal : (s : Bytes) → starts_decimal s ≡ true → skip_space s ≡ s
unfolding skip_space
skip_space-decimal [] h = absurd (cc)
skip_space-decimal (c ∷ s) h = ground arith

extract_number-decimal :
    (s : Bytes) → starts_decimal s ≡ true → extract_number s ≡ extract_digits false s
unfolding extract_digits
extract_number-decimal [] h = absurd (cc)
extract_number-decimal (c ∷ s) h = ground arith

not_empty : (s : Bytes) → starts_decimal s ≡ true → is_empty s ≡ false
not_empty [] h = absurd (cc)
not_empty (c ∷ s) h = refl

extract-decimal :
    (old : ℕ) (s : Bytes)
    → starts_decimal s ≡ true
    → extract old (stream (b' ' ∷ s)) ≡ extract_digits false s
unfolding extract
extract-decimal old s h = rw (skip_space-decimal s h, not_empty s h) (extract_number-decimal s h)

digits_value-end :
    (n c : ℕ) (s : Bytes) → is_decimal c ≡ false → digits_value n (c ∷ s) ≡ (n, c ∷ s)
unfolding digits_value
digits_value-end n c s h = rw h refl

extract_digits-value :
    (s rest : Bytes) (n : ℕ)
    → starts_decimal s ≡ true
    → digits_value 0 s ≡ (n, rest)
    → n < 2 ^ 64
    → extract_digits false s ≡ (n, record { failed = false; rest = rest })
unfolding extract_digits
extract_digits-value s rest n h e small = rw (h, e, lt→ltb n (2 ^ 64) small) refl

-- A number below 2^64 that stands behind a space, and in front of what is no digit, is extracted.
pub extract-printed :
    (old n c : ℕ) (rest : Bytes)
    → n < 2 ^ 64
    → is_decimal c ≡ false
    → extract old (stream (b' ' ∷ (to_string_ℕ n ++ c ∷ rest)))
      ≡ (n, record { failed = false; rest = c ∷ rest })
extract-printed old n c rest small h =
    let text = digits_onto (suc n) n (c ∷ rest) in
    let starts = to_string-starts n (c ∷ rest) in
    ap (λ s. extract old (stream (b' ' ∷ s))) (to_string-append n (c ∷ rest))
    ∙ extract-decimal old text starts
    ∙ extract_digits-value text (c ∷ rest) n starts
        (digits_value-digits (suc n) n (c ∷ rest) (omega arith) ∙ digits_value-end n c rest h) small

digits_onto-Avoids :
    (f n c : ℕ) (rest : Bytes)
    → is_decimal c ≡ false
    → Avoids c rest
    → Avoids c (digits_onto f n rest)
unfolding digits_onto
digits_onto-Avoids zero n c rest h a = a
digits_onto-Avoids (suc f) n c rest h a =
    let own : b'0' + n % 10 ≢ c = ground arith in
    elim (Bool-cases (ltb n 10)) [
      | inl last ↦ rw last (own, a)
      | inr more ↦ rw more (digits_onto-Avoids f (n / 10) c ((b'0' + n % 10) ∷ rest) h (own, a))
    ]

-- The line that `getline` gives is what stands before the first line break.
lines_onto-line :
    (line s rest : Bytes)
    → Avoids b'\n' s
    → lines_onto line (s ++ b'\n' ∷ rest) ≡ (line ++ s) ∷ lines rest
unfolding lines_onto
lines_onto-line line [] rest a = rw append-nil refl
lines_onto-line line (c ∷ s) rest a =
    let other : (c == b'\n') ≡ false = ground arith in
    rw other (
      lines_onto-line (line ++ c ∷ []) s rest a.1
      ∙ ap (λ l. l ∷ lines rest) (append_assoc line (c ∷ []) s))

pub lines-line : (s rest : Bytes) → Avoids b'\n' s → lines (s ++ b'\n' ∷ rest) ≡ s ∷ lines rest
lines-line s rest a = lines_onto-line [] s rest a

-- Numbers, each behind a space
abbrev pub spaced : List ℕ → Bytes → Bytes
spaced [] rest = rest
spaced (n ∷ ns) rest = b' ' ∷ (to_string_ℕ n ++ spaced ns rest)

pub spaced-Avoids : (ns : List ℕ) (rest : Bytes) → Avoids b'\n' rest → Avoids b'\n' (spaced ns rest)
spaced-Avoids [] rest a = a
spaced-Avoids (n ∷ ns) rest a = (
  ground arith,
  subst (Avoids b'\n') (sym (to_string-append n (spaced ns rest)))
      (digits_onto-Avoids (suc n) n b'\n' (spaced ns rest) refl (spaced-Avoids ns rest a)),
)

pub digits_value-to_string :
    (n c : ℕ) (rest : Bytes)
    → is_decimal c ≡ false
    → digits_value 0 (to_string_ℕ n ++ c ∷ rest) ≡ (n, c ∷ rest)
digits_value-to_string n c rest h =
    ap (digits_value 0) (to_string-append n (c ∷ rest))
    ∙ digits_value-digits (suc n) n (c ∷ rest) (omega arith)
    ∙ digits_value-end n c rest h

pub to_string-Avoids : (n c : ℕ) → is_decimal c ≡ false → Avoids c (to_string_ℕ n)
unfolding to_string_ℕ
to_string-Avoids n c h = digits_onto-Avoids (suc n) n c [] h tt
