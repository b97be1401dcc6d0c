-- ===== src/Worker/Proc.antt =====
-- `read_pid_by_name` and `read_tid_by_name` of worker/src/diagnose/bpf_diagnoser.cpp (the first is
-- also in perf_diagnoser.cpp). A directory is the list of what `readdir` returns, each name with
-- the bytes that reading its `comm` file gives; `none` is a failing `open` or `read`.
pub mod Lookup
use perf_monitor.Prelude.{
  ℕ, ◌+◌, ◌-◌, ◌*◌, ◌≡◌, refl, ◌↔◌, Bool, true, false, not, ◌&&◌, ◌||◌, List, [], ◌∷◌, ◌++◌, Option,
  none, some, arith, ltb, leb, ◌==◌, if◌then◌else◌, take, Bool-cases, inl, inr, All,
}
use perf_monitor.Text.{Bytes, str_eq, is_empty, until_nul}

pub record ProcEntry : Type 0 where
  pub d_name : Bytes
  pub comm : Option Bytes

abbrev pub is_digit : ℕ → Bool
is_digit c = leb b'0' c && leb c b'9'

-- `strtoul(s, nullptr, 10)` on a text that begins with a digit
unfoldable pub strtoul_onto : ℕ → Bytes → ℕ
strtoul_onto n [] = n
strtoul_onto n (c ∷ s) =
    let rest = strtoul_onto (n * 10 + (c - b'0')) s in if is_digit c then rest else n

abbrev pub strtoul : Bytes → ℕ
strtoul = strtoul_onto 0

abbrev pub begins_with_digit : Bytes → Bool
begins_with_digit [] = false
begins_with_digit (c ∷ _) = is_digit c

-- `if (!comm.empty() && comm.back() == '\n') comm.pop_back();`
unfoldable pub drop_newline : Bytes → Bytes
drop_newline [] = []
drop_newline (c ∷ []) = if c == b'\n' then [] else c ∷ []
drop_newline (c ∷ b ∷ s) = c ∷ drop_newline (b ∷ s)

-- The name in a `comm` file: at most 255 bytes are read, and a NUL ends the text.
unfoldable pub comm_text : Bytes → Bytes
unfolding drop_newline
comm_text bytes = drop_newline (until_nul (take 255 bytes))

-- The test of the loop: the entry is a number, its file can be read and is not empty, and the name
-- in it is the one that is looked for.
unfoldable pub matches : Bytes → ProcEntry → Bool
matches name e = elim e.comm [
  | none ↦ false
  | some bytes ↦ begins_with_digit e.d_name && not (is_empty bytes) && str_eq (comm_text bytes) name
]

unfoldable pub read_by_name : List ProcEntry → Bytes → ℕ
read_by_name [] name = 0
read_by_name (e ∷ rest) name = if matches name e then strtoul e.d_name else read_by_name rest name

-- The directories that the two functions open; `none` is a failing `opendir`.
pub record ProcFs : Type 0 where
  pub root : Option (List ProcEntry)
  pub task : ℕ → Option (List ProcEntry)

unfoldable pub read_in : Option (List ProcEntry) → Bytes → ℕ
unfolding read_by_name
read_in none name = 0
read_in (some entries) name = read_by_name entries name

unfoldable pub read_pid_by_name : ProcFs → Bytes → ℕ
unfolding read_in
read_pid_by_name proc pname = read_in proc.root pname

unfoldable pub read_tid_by_name : ProcFs → Bytes → Bytes → ℕ
unfolding read_pid_by_name
read_tid_by_name proc pname tname =
    let pid = read_pid_by_name proc pname in if pid == 0 then 0 else read_in (proc.task pid) tname
