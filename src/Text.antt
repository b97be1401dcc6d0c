-- ===== src/Text.antt =====
-- `std::string` as a list of bytes, with the member functions that the sources call.
pub mod Search
pub mod Decimal
pub mod Stream
use Prim.Native.Char.{code}
use Prim.Native.String.{String}
use perf_monitor.Prelude.{
  ℕ, zero, suc, ◌+◌, ◌≡◌, refl, ◌↔◌, Bool, true, false, ◌&&◌, List, [], ◌∷◌, ◌++◌, Option, none,
  some, arith, ◌==◌, if◌then◌else◌, length, drop, ==_iff,
}

abbrev pub Bytes : Type 0
Bytes = List ℕ

-- The bytes of a literal, which is ASCII throughout the sources.
unfoldable pub codes : String → Bytes
codes String.[] = []
codes (String.◌∷◌ c s) = code c ∷ codes s

-- `a == b`
unfoldable pub str_eq : Bytes → Bytes → Bool
str_eq [] [] = true
str_eq [] (_ ∷ _) = false
str_eq (_ ∷ _) [] = false
str_eq (a ∷ s) (b ∷ t) = a == b && str_eq s t

pub str_eq_refl : (s : Bytes) → str_eq s s ≡ true
unfolding str_eq
str_eq_refl [] = refl
str_eq_refl (a ∷ s) = ground (arith, str_eq_refl s)

str_eq_sound : (s t : Bytes) → str_eq s t ≡ true → s ≡ t
unfolding str_eq
str_eq_sound [] [] h = refl
str_eq_sound [] (_ ∷ _) h = cc
str_eq_sound (_ ∷ _) [] h = cc
str_eq_sound (a ∷ s) (b ∷ t) h = ground (arith, str_eq_sound s t)

pub str_eq_iff : (s t : Bytes) → (str_eq s t ≡ true) ↔ (s ≡ t)
str_eq_iff s t = (str_eq_sound s t, λ e. cc (str_eq_refl s))

-- `s.rfind(p, 0) == 0`, which the sources also write `s.find(p) == 0` and `s.compare(0, n, p) == 0`.
unfoldable pub starts_with : Bytes → Bytes → Bool
starts_with s [] = true
starts_with [] (_ ∷ _) = false
starts_with (a ∷ s) (b ∷ p) = a == b && starts_with s p

-- `s.find(c)`; `none` is `npos`.
unfoldable pub find_char : Bytes → ℕ → Option ℕ
find_char [] c = none
find_char (a ∷ s) c =
    if a == c then some 0 else elim (find_char s c) [ none ↦ none | some i ↦ some (suc i) ]

-- `s.rfind(c)`
unfoldable pub rfind_char : Bytes → ℕ → Option ℕ
rfind_char [] c = none
rfind_char (a ∷ s) c = elim (rfind_char s c) [
  | none ↦ if a == c then some 0 else none
  | some i ↦ some (suc i)
]

-- `s.find(p)`
unfoldable pub find : Bytes → Bytes → Option ℕ
unfolding starts_with
find [] p = if starts_with [] p then some 0 else none
find (a ∷ s) p =
    if starts_with (a ∷ s) p
    then some 0
    else elim (find s p) [ none ↦ none | some i ↦ some (suc i) ]

-- `s.find(c, from)`, with `from` no greater than the size.
unfoldable pub find_char_from : Bytes → ℕ → ℕ → Option ℕ
unfolding find_char
find_char_from s c from = elim (find_char (drop from s) c) [
  | none ↦ none
  | some i ↦ some (from + i)
]

abbrev pub has_char : Bytes → ℕ → Bool
has_char s c = elim (find_char s c) [ none ↦ false | some _ ↦ true ]

abbrev pub has : Bytes → Bytes → Bool
has s p = elim (find s p) [ none ↦ false | some _ ↦ true ]

abbrev pub is_empty : Bytes → Bool
is_empty [] = true
is_empty (_ ∷ _) = false

-- `std::string(buf)` on a `char` buffer stops at the first NUL.
unfoldable pub until_nul : Bytes → Bytes
until_nul [] = []
until_nul (c ∷ s) = let rest = until_nul s in if c == 0 then [] else c ∷ rest

-- What a stream holds after `stream << a << b`.
infixr 64 ◌<<◌
abbrev pub ◌<<◌ : Bytes → Bytes → Bytes
a << b = a ++ b
