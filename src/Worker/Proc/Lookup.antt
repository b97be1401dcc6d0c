-- ===== src/Worker/Proc/Lookup.antt =====
-- Which process a name is resolved to.
use perf_monitor.Prelude.{
  ℕ, zero, suc, ◌+◌, ◌/◌, ◌%◌, ◌≤◌, ◌<◌, ◌≡◌, refl, sym, ap, ◌∙◌, true, false, List, [], ◌∷◌, ◌++◌,
  some, arith, length, take, take_all, length-append, All, All-append, append-nil,
}
use perf_monitor.Text.{Bytes, until_nul, is_empty, str_eq_refl}
use perf_monitor.Text.Search.{Avoids, until_nul-append}
use perf_monitor.Text.Decimal.{digits_onto, to_string_ℕ}
use perf_monitor.Worker.Proc.{
  strtoul_onto, is_digit, ProcEntry, ProcFs, strtoul, begins_with_digit, drop_newline, comm_text,
  matches, read_by_name, read_pid_by_name, read_in,
}

drop_newline-append : (s : Bytes) → drop_newline (s ++ b'\n' ∷ []) ≡ s
unfolding drop_newline
drop_newline-append [] = refl
drop_newline-append (a ∷ []) = refl
drop_newline-append (a ∷ b ∷ s) = ap (◌∷◌ a) (drop_newline-append (b ∷ s))

-- The kernel ends the name with a line break.
comm_text-line :
    (name : Bytes) → Avoids 0 name → length name < 255 → comm_text (name ++ b'\n' ∷ []) ≡ name
unfolding comm_text until_nul
comm_text-line name h l =
    let line : Bytes = name ++ b'\n' ∷ [] in
    let clear : Avoids 0 line = All-append _ name (b'\n' ∷ []) h (omega arith) in
    let fits : length line ≤ 255 = omega (arith, length-append name (b'\n' ∷ [])) in
    let whole : take 255 line ≡ line = take_all 255 line fits in
    ap drop_newline (
      ap until_nul whole
      ∙ ap until_nul (sym (append-nil line))
      ∙ until_nul-append line [] clear
      ∙ append-nil line)
    ∙ drop_newline-append name

strtoul_onto-digits :
    (f n : ℕ) (rest : Bytes) → n < f → strtoul_onto 0 (digits_onto f n rest) ≡ strtoul_onto n rest
unfolding strtoul_onto digits_onto
strtoul_onto-digits zero n rest h = elim h [ ]
strtoul_onto-digits (suc f) n rest h =
    ground (arith, strtoul_onto-digits f (n / 10) ((b'0' + n % 10) ∷ rest))

-- Printing a number and reading it back gives the number.
pub strtoul-to_string : (n : ℕ) → strtoul (to_string_ℕ n) ≡ n
unfolding to_string_ℕ strtoul_onto
strtoul-to_string n = strtoul_onto-digits (suc n) n [] (omega arith)

digits_onto-digit :
    (f n d : ℕ) (rest : Bytes)
    → is_digit d ≡ true
    → begins_with_digit (digits_onto f n (d ∷ rest)) ≡ true
unfolding digits_onto
digits_onto-digit zero n d rest h = h
digits_onto-digit (suc f) n d rest h =
    ground (arith, digits_onto-digit f (n / 10) (b'0' + n % 10) (d ∷ rest))

to_string-digit : (n : ℕ) → begins_with_digit (to_string_ℕ n) ≡ true
unfolding to_string_ℕ digits_onto
to_string-digit n = ground (arith, digits_onto-digit n (n / 10) (b'0' + n % 10) [])

-- The directory entry of a process: its number in decimal, and its name behind a line break.
abbrev pub entry_of : ℕ → Bytes → ProcEntry
entry_of pid name = record { d_name = to_string_ℕ pid; comm = some (name ++ b'\n' ∷ []) }

not_empty-line : (name : Bytes) → is_empty (name ++ b'\n' ∷ []) ≡ false
not_empty-line [] = refl
not_empty-line (_ ∷ _) = refl

matches-entry_of :
    (pid : ℕ) (name : Bytes)
    → Avoids 0 name
    → length name < 255
    → matches name (entry_of pid name) ≡ true
unfolding matches
matches-entry_of pid name h l =
    ground
      (arith, to_string-digit pid, not_empty-line name, comm_text-line name h l, str_eq_refl name)

abbrev pub NoMatch : Bytes → List ProcEntry → Type 0
NoMatch name = All λ e. matches name e ≡ false

read_by_name-first :
    (name : Bytes) (before after : List ProcEntry) (e : ProcEntry)
    → NoMatch name before
    → matches name e ≡ true
    → read_by_name (before ++ e ∷ after) name ≡ strtoul e.d_name
unfolding read_by_name
read_by_name-first name [] after e n m = rw m
read_by_name-first name (b ∷ before) after e n m =
    rw n.0 (read_by_name-first name before after e n.1 m)

read_by_name-none :
    (name : Bytes) (entries : List ProcEntry) → NoMatch name entries → read_by_name entries name ≡ 0
unfolding read_by_name
read_by_name-none name [] n = refl
read_by_name-none name (e ∷ rest) n = rw n.0 (read_by_name-none name rest n.1)

-- A name of fewer than 255 bytes is resolved to the process that carries it and stands first in the
-- directory, and to 0 if no entry carries it.
read_pid_by_name-first :
    (proc : ProcFs) (name : Bytes) (before after : List ProcEntry) (pid : ℕ)
    → Avoids 0 name
    → length name < 255
    → NoMatch name before
    → proc.root ≡ some (before ++ entry_of pid name ∷ after)
    → (read_pid_by_name proc name ≡ pid)
      × (read_pid_by_name (record proc { root = some before }) name ≡ 0)
unfolding read_pid_by_name
read_pid_by_name-first proc name before after pid h l n e = (
  ap (λ o. read_in o name) e
      ∙ read_by_name-first name before after (entry_of pid name) n (matches-entry_of pid name h l)
      ∙ strtoul-to_string pid,
  read_by_name-none name before n,
)
