-- ===== src/Exporter/Pipeline.antt =====
-- `run_pipeline` of manager/src/rpc/metrics_exporter.cpp. What `popen` gives is an argument: nothing,
-- or the whole output of the command.
use perf_monitor.Prelude.{
  ℕ, zero, suc, ◌≤◌, ◌≡◌, refl, sym, ap, ◌∙◌, Option, none, some, [], ◌∷◌, ◌++◌, arith,
  if◌then◌else◌, ◌==◌, length, append_assoc, append-nil, All-append_left, All-append_right,
}
use mathlib.Core.Path.{subst}
use perf_monitor.Text.{Bytes, until_nul}
use perf_monitor.Text.Search.{Avoids}

-- What one `fgets` of at most so many bytes puts into the buffer, and what it leaves: it stops
-- behind a line break.
unfoldable pub fgets : ℕ → Bytes → Bytes × Bytes
fgets zero s = ([], s)
fgets (suc n) [] = ([], [])
fgets (suc n) (c ∷ s) =
    let (line, rest) = fgets n s in if c == b'\n' then (c ∷ [], s) else (c ∷ line, rest)

-- The room in `char buf[4096]`, of which one byte stays a NUL
abbrev pub line_size : ℕ
line_size = 4095

-- `while (fgets(...)) out += buf`, on fuel; the end of the output ends it.
unfoldable pub read_lines : ℕ → Bytes → Bytes → Bytes
read_lines zero out s = out
read_lines (suc fuel) out [] = out
read_lines (suc fuel) out (c ∷ s) =
    let (line, rest) = fgets line_size (c ∷ s) in read_lines fuel (out ++ until_nul line) rest

unfoldable pub run_pipeline : (Bytes → Option Bytes) → Bytes → Bytes
unfolding read_lines
run_pipeline popen cmd = elim (popen cmd) [
  | none ↦ []
  | some output ↦ read_lines (length output) [] output
]

fgets-append : (n : ℕ) (s : Bytes) → (fgets n s).0 ++ (fgets n s).1 ≡ s
unfolding fgets
fgets-append zero s = refl
fgets-append (suc n) [] = refl
fgets-append (suc n) (c ∷ s) = ground (arith, fgets-append n s)

fgets-le : (n : ℕ) (s : Bytes) → length (fgets n s).1 ≤ length s
unfolding fgets
fgets-le zero s = omega arith
fgets-le (suc n) [] = omega arith
fgets-le (suc n) (c ∷ s) = ground (arith, fgets-le n s)

-- A read with room takes a byte.
fgets-lt : (n c : ℕ) (s : Bytes) → length (fgets (suc n) (c ∷ s)).1 ≤ length s
unfolding fgets
fgets-lt n c s = ground (arith, fgets-le n s)

until_nul_all : (s : Bytes) → Avoids 0 s → until_nul s ≡ s
unfolding until_nul
until_nul_all [] h = refl
until_nul_all (c ∷ s) h = ground (arith, until_nul_all s h.1)

read_lines_fuel :
    (f g : ℕ) (out s : Bytes)
    → length s ≤ f
    → length s ≤ g
    → read_lines f out s ≡ read_lines g out s
unfolding read_lines
read_lines_fuel zero zero out s h k = refl
read_lines_fuel zero (suc g) out [] h k = refl
read_lines_fuel zero (suc g) out (c ∷ s) h k = absurd (omega arith)
read_lines_fuel (suc f) zero out [] h k = refl
read_lines_fuel (suc f) zero out (c ∷ s) h k = absurd (omega arith)
read_lines_fuel (suc f) (suc g) out [] h k = refl
read_lines_fuel (suc f) (suc g) out (c ∷ s) h k =
    let (line, rest) = fgets line_size (c ∷ s) in
    let shorter : length rest ≤ length s = fgets-lt 4094 c s in
    read_lines_fuel f g (out ++ until_nul line) rest (omega (arith, shorter))
      (omega (arith, shorter))

read_lines-whole :
    (f : ℕ) (out s : Bytes) → length s ≤ f → Avoids 0 s → read_lines f out s ≡ out ++ s
unfolding read_lines
read_lines-whole zero out [] h a = sym (append-nil out)
read_lines-whole zero out (c ∷ s) h a = absurd (omega arith)
read_lines-whole (suc f) out [] h a = sym (append-nil out)
read_lines-whole (suc f) out (c ∷ s) h a =
    let (line, rest) = fgets line_size (c ∷ s) in
    let whole : line ++ rest ≡ c ∷ s = fgets-append line_size (c ∷ s) in
    let shorter : length rest ≤ length s = fgets-lt 4094 c s in
    let clean : Avoids 0 (line ++ rest) = subst (Avoids 0) (sym whole) a in
    let text = until_nul_all line (All-append_left _ line rest clean) in
    read_lines-whole f (out ++ until_nul line) rest (omega (arith, shorter))
      (All-append_right _ line rest clean)
    ∙ ap (λ t. (out ++ t) ++ rest) text
    ∙ append_assoc out line rest
    ∙ ap (λ t. out ++ t) whole

run_pipeline-read_lines :
    (popen : Bytes → Option Bytes) (cmd output : Bytes)
    → popen cmd ≡ some output
    → run_pipeline popen cmd ≡ read_lines (length output) [] output
unfolding run_pipeline
run_pipeline-read_lines popen cmd output e = rw (e, run_pipeline) refl

-- A command that can be started and whose output has no NUL bytes: the loop ends, as rounds beyond
-- the length of the output change nothing, and the output is returned whole, however long its lines.
pub run_pipeline-whole :
    (popen : Bytes → Option Bytes) (cmd output : Bytes) (fuel : ℕ)
    → popen cmd ≡ some output
    → Avoids 0 output
    → length output ≤ fuel
    → (run_pipeline popen cmd ≡ output) × (read_lines fuel [] output ≡ run_pipeline popen cmd)
run_pipeline-whole popen cmd output fuel e a h =
    let start = run_pipeline-read_lines popen cmd output e in
    (
      start ∙ read_lines-whole (length output) [] output (omega arith) a,
      read_lines_fuel fuel (length output) [] output h (omega arith) ∙ sym start,
    )
