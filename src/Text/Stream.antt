-- ===== src/Text/Stream.antt =====
-- `std::getline` on a text, and `>>` on a `std::istringstream`.
pub mod Printed
use perf_monitor.Prelude.{
  ℕ, ◌+◌, ◌-◌, ◌*◌, ◌%◌, ◌^◌, Bool, true, false, ◌&&◌, ◌||◌, List, [], ◌∷◌, ◌++◌, ltb, leb, ◌==◌,
  if◌then◌else◌,
}
use perf_monitor.Text.{Bytes, is_empty}

-- What the calls of `getline` give until one fails: nothing follows the last line break.
unfoldable pub lines_onto : Bytes → Bytes → List Bytes
lines_onto line [] = if is_empty line then [] else line ∷ []
lines_onto line (c ∷ s) =
    let ended = lines_onto [] s in
    let longer = lines_onto (line ++ c ∷ []) s in if c == b'\n' then line ∷ ended else longer

abbrev pub lines : Bytes → List Bytes
lines = lines_onto []

-- A stream whose `failbit` is `failed`.
pub record Stream : Type 0 where
  pub failed : Bool
  pub rest : Bytes

abbrev pub stream : Bytes → Stream
stream s = record { failed = false; rest = s }

abbrev pub is_space : ℕ → Bool
is_space c = c == b' ' || leb 9 c && leb c 13

unfoldable pub skip_space : Bytes → Bytes
skip_space [] = []
skip_space (c ∷ s) = let rest = skip_space s in if is_space c then rest else c ∷ s

abbrev pub is_decimal : ℕ → Bool
is_decimal c = leb b'0' c && leb c b'9'

-- The number that the digits at the front of a text make, on top of `n`, and the text behind.
unfoldable pub digits_value : ℕ → Bytes → ℕ × Bytes
digits_value n [] = (n, [])
digits_value n (c ∷ s) =
    let more = digits_value (n * 10 + (c - b'0')) s in if is_decimal c then more else (n, c ∷ s)

abbrev pub starts_decimal : Bytes → Bool
starts_decimal [] = false
starts_decimal (c ∷ _) = is_decimal c

-- The digits behind the sign: none make 0 and a failure, too large a number its bound and a failure.
unfoldable pub extract_digits : Bool → Bytes → ℕ × Stream
unfolding digits_value
extract_digits negative s =
    let (value, rest) = digits_value 0 s in
    if starts_decimal s
    then (if ltb value (2 ^ 64)
        then (
          if negative then (2 ^ 64 - value) % 2 ^ 64 else value,
          record { failed = false; rest = rest },
        )
        else (2 ^ 64 - 1, record { failed = true; rest = rest }))
    else (0, record { failed = true; rest = rest })

abbrev pub extract_number : Bytes → ℕ × Stream
extract_number [] = extract_digits false []
extract_number (c ∷ s) =
    if c == b'-'
    then extract_digits true s
    else if c == b'+'
    then extract_digits false s
    else extract_digits false (c ∷ s)

-- `ls >> x` on a `uint64_t`: where nothing is left to read, or the stream has failed before, `x`
-- keeps its value.
unfoldable pub extract : ℕ → Stream → ℕ × Stream
unfolding extract_digits skip_space
extract old s =
    let text = skip_space s.rest in
    if s.failed || is_empty text
    then (old, record { failed = true; rest = text })
    else extract_number text

-- `ls >> word` on a `std::string`, which a failure before leaves as it was.
unfoldable pub word_onto : Bytes → Bytes → Bytes × Bytes
word_onto word [] = (word, [])
word_onto word (c ∷ s) =
    let more = word_onto (word ++ c ∷ []) s in if is_space c then (word, c ∷ s) else more

unfoldable pub extract_word : Bytes → Stream → Bytes × Stream
unfolding word_onto skip_space
extract_word old s =
    let text = skip_space s.rest in
    let (word, rest) = word_onto [] text in
    if s.failed || is_empty text
    then (old, record { failed = true; rest = text })
    else (word, record { failed = false; rest = rest })
