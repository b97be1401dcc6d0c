-- ===== src/Worker/Files.antt =====
-- `cleanup_files` of worker/src/diagnose/bpf_diagnoser.cpp and perf_diagnoser.cpp: the rotation of
-- the tools' output files.
pub mod Rotation
pub mod Others
pub mod Order
use perf_monitor.Prelude.{
  ℕ, ◌+◌, ◌-◌, ◌<◌, Bool, true, false, not, ◌&&◌, ◌||◌, List, [], ◌∷◌, ◌++◌, Option, none, some,
  ltb, leb, ◌==◌, if◌then◌else◌, length, take,
}
use perf_monitor.Prelude.Int.{ℤ, pos, negsuc, ltb_ℤ, leb_ℤ}
use perf_monitor.Text.{Bytes, str_eq, starts_with}

-- A directory entry, in the order of `readdir`: its name, and the time that `stat` gives, if it does.
pub record DirEntry : Type 0 where
  pub name : Bytes
  pub mtime : Option ℤ

-- The order of `std::string`.
unfoldable pub str_lt : Bytes → Bytes → Bool
str_lt s [] = false
str_lt [] (_ ∷ _) = true
str_lt (a ∷ s) (b ∷ t) = ltb a b || (a == b && str_lt s t)

-- The order of `std::pair<time_t, std::string>`. All paths share the directory, so that they
-- compare as their names.
unfoldable pub older : ℤ × Bytes → ℤ × Bytes → Bool
unfolding str_lt
older (t, n) (u, m) = ltb_ℤ t u || (leb_ℤ t u && str_lt n m)

unfoldable pub is_hidden : Bytes → Bool
is_hidden [] = false
is_hidden (c ∷ _) = c == b'.'

-- The loop over the directory.
unfoldable pub candidates : Bytes → List DirEntry → List (ℤ × Bytes)
unfolding is_hidden
candidates prefix [] = []
candidates prefix (e ∷ rest) =
    let more = candidates prefix rest in
    if is_hidden e.name || not (starts_with e.name prefix)
    then more
    else elim e.mtime [ none ↦ more | some t ↦ (t, e.name) ∷ more ]

-- `std::sort`: the result is the sorted arrangement, whatever the algorithm.
unfoldable pub place : ℤ × Bytes → List (ℤ × Bytes) → List (ℤ × Bytes)
place f [] = f ∷ []
place f (g ∷ rest) = if older g f then g ∷ place f rest else f ∷ g ∷ rest

unfoldable pub sort : List (ℤ × Bytes) → List (ℤ × Bytes)
unfolding place
sort [] = []
sort (f ∷ rest) = place f (sort rest)

unfoldable pub has_name : Bytes → List (ℤ × Bytes) → Bool
has_name name [] = false
has_name name ((t, n) ∷ rest) = str_eq n name || has_name name rest

-- `unlink` on each of the files, whose result is dropped: a file whose `unlink` fails stays.
unfoldable pub unlink_all : (Bytes → Bool) → List (ℤ × Bytes) → List DirEntry → List DirEntry
unfolding has_name
unlink_all unlink victims [] = []
unlink_all unlink victims (e ∷ rest) =
    let kept = unlink_all unlink victims rest in
    if has_name e.name victims && unlink e.name then kept else e ∷ kept

-- The number of files to keep, which the code reads as an `int`.
unfoldable pub limit_of : ℤ → ℕ
limit_of (pos n) = n
limit_of (negsuc n) = 0

-- The files that are unlinked: the oldest, beyond the limit.
unfoldable pub victims_of : ℕ → List (ℤ × Bytes) → List (ℤ × Bytes)
victims_of limit files =
    if leb (length files) limit then [] else take (length files - limit) (sort files)

-- `none` is a directory that cannot be opened.
unfoldable pub cleanup_files :
    (Bytes → Bool) → ℤ → Bytes → Option (List DirEntry) → Option (List DirEntry)
unfolding limit_of victims_of
cleanup_files unlink limit prefix none = none
cleanup_files unlink limit prefix (some dir) =
    if leb (limit_of limit) 0
    then some dir
    else some (unlink_all unlink (victims_of (limit_of limit) (candidates prefix dir)) dir)
