-- ===== src/Text/Search.antt =====
-- What the searches of `std::string` find.
use perf_monitor.Prelude.{ℕ, ◌≡◌, refl, ◌≢◌, true, [], ◌∷◌, ◌++◌, none, some, arith, length, All}
use perf_monitor.Text.{Bytes, until_nul, starts_with, find_char, rfind_char}

-- No byte of the text is `c`.
abbrev pub Avoids : ℕ → Bytes → Type 0
Avoids c = All λ a. a ≢ c

pub find_char-Avoids : (s : Bytes) (c : ℕ) → Avoids c s → find_char s c ≡ none
unfolding find_char
find_char-Avoids [] c h = refl
find_char-Avoids (a ∷ s) c h = ground (arith, find_char-Avoids s c h.1)

pub Avoids-find_char : (s : Bytes) (c : ℕ) → find_char s c ≡ none → Avoids c s
unfolding find_char
Avoids-find_char [] c h = tt
Avoids-find_char (a ∷ s) c h = (ground arith, Avoids-find_char s c (ground arith))

-- The first occurrence.
pub find_char-append :
    (s t : Bytes) (c : ℕ) → Avoids c s → find_char (s ++ c ∷ t) c ≡ some (length s)
unfolding find_char
find_char-append [] t c h = ground arith
find_char-append (a ∷ s) t c h = ground (arith, find_char-append s t c h.1)

pub rfind_char-Avoids : (s : Bytes) (c : ℕ) → Avoids c s → rfind_char s c ≡ none
unfolding rfind_char
rfind_char-Avoids [] c h = refl
rfind_char-Avoids (a ∷ s) c h = ground (arith, rfind_char-Avoids s c h.1)

-- The last occurrence.
pub rfind_char-append :
    (s t : Bytes) (c : ℕ) → Avoids c t → rfind_char (s ++ c ∷ t) c ≡ some (length s)
unfolding rfind_char
rfind_char-append [] t c h = ground (arith, rfind_char-Avoids t c h)
rfind_char-append (a ∷ s) t c h = ground (arith, rfind_char-append s t c h)

pub starts_with-append : (p s : Bytes) → starts_with (p ++ s) p ≡ true
unfolding starts_with
starts_with-append [] [] = refl
starts_with-append [] (a ∷ s) = refl
starts_with-append (a ∷ p) s = ground (arith, starts_with-append p s)

pub starts_with-split : (s p : Bytes) → starts_with s p ≡ true → (r : Bytes) × (s ≡ p ++ r)
unfolding starts_with
starts_with-split s [] h = (s, refl)
starts_with-split [] (b ∷ p) h = ([], cc)
starts_with-split (a ∷ s) (b ∷ p) h =
    let rest = starts_with-split s p (ground arith) in (rest.0, ground (arith, rest.1))

pub until_nul-append : (s t : Bytes) → Avoids 0 s → until_nul (s ++ t) ≡ s ++ until_nul t
unfolding until_nul
until_nul-append [] t h = refl
until_nul-append (c ∷ s) t h = ground (arith, until_nul-append s t h.1)
