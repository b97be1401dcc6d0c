-- ===== src/Worker/Files/Others.antt =====
-- What the rotation leaves alone.
use perf_monitor.Prelude.{
  ℕ, ◌≡◌, refl, Bool, true, false, not, ◌||◌, List, [], ◌∷◌, some, arith, leb, if◌then◌else◌,
  length, All, All-take, Bool-cases, inl, inr,
}
use perf_monitor.Prelude.Int.{ℤ}
use perf_monitor.Text.{Bytes, str_eq_iff, starts_with}
use perf_monitor.Worker.Files.{
  DirEntry, is_hidden, candidates, place, sort, has_name, unlink_all, limit_of, victims_of,
  cleanup_files,
}

-- An entry that the rotation does not concern: it is hidden, or has another prefix.
abbrev pub is_other : Bytes → DirEntry → Bool
is_other prefix e = is_hidden e.name || not (starts_with e.name prefix)

abbrev pub others : Bytes → List DirEntry → List DirEntry
others prefix [] = []
others prefix (e ∷ rest) =
    let more = others prefix rest in if is_other prefix e then e ∷ more else more

abbrev IsOurs : Bytes → ℤ × Bytes → Type 0
IsOurs prefix f = (is_hidden f.1 || not (starts_with f.1 prefix)) ≡ false

candidates-IsOurs :
    (prefix : Bytes) (dir : List DirEntry) → All (IsOurs prefix) (candidates prefix dir)
unfolding candidates
candidates-IsOurs prefix [] = tt
candidates-IsOurs prefix (e ∷ rest) = ground (arith, candidates-IsOurs prefix rest)

place-IsOurs :
    (prefix : Bytes) (f : ℤ × Bytes) (rest : List (ℤ × Bytes))
    → IsOurs prefix f
    → All (IsOurs prefix) rest
    → All (IsOurs prefix) (place f rest)
unfolding place
place-IsOurs prefix f [] h a = (h, tt)
place-IsOurs prefix f (g ∷ rest) h a = ground (arith, place-IsOurs prefix f rest h a.1)

sort-IsOurs :
    (prefix : Bytes) (files : List (ℤ × Bytes))
    → All (IsOurs prefix) files
    → All (IsOurs prefix) (sort files)
unfolding sort
sort-IsOurs prefix [] a = tt
sort-IsOurs prefix (f ∷ rest) a =
    place-IsOurs prefix f (sort rest) a.0 (sort-IsOurs prefix rest a.1)

victims-IsOurs :
    (limit : ℕ) (prefix : Bytes) (dir : List DirEntry)
    → All (IsOurs prefix) (victims_of limit (candidates prefix dir))
unfolding victims_of
victims-IsOurs limit prefix dir =
    let files = candidates prefix dir in
    elim (Bool-cases (leb (length files) limit)) [
      | inl few ↦ rw few tt
      | inr many ↦
          rw many
            (All-take _ _ (sort files) (sort-IsOurs prefix files (candidates-IsOurs prefix dir)))
    ]

not_ours :
    (prefix : Bytes) (victims : List (ℤ × Bytes)) (e : DirEntry)
    → All (IsOurs prefix) victims
    → is_other prefix e ≡ true
    → has_name e.name victims ≡ false
unfolding has_name
not_ours prefix [] e a h = refl
not_ours prefix (f ∷ rest) e a h =
    ground (arith, str_eq_iff f.1 e.name, not_ours prefix rest e a.1 h)

others-unlink_all :
    (unlink : Bytes → Bool) (prefix : Bytes) (victims : List (ℤ × Bytes)) (dir : List DirEntry)
    → All (IsOurs prefix) victims
    → others prefix (unlink_all unlink victims dir) ≡ others prefix dir
unfolding unlink_all
others-unlink_all unlink prefix victims [] a = refl
others-unlink_all unlink prefix victims (e ∷ rest) a =
    ground (arith, not_ours prefix victims e a, others-unlink_all unlink prefix victims rest a)

-- With any limit, a rotation leaves the hidden files and those of other prefixes as they were.
rotation_others :
    (unlink : Bytes → Bool) (limit : ℤ) (prefix : Bytes) (dir dir' : List DirEntry)
    → cleanup_files unlink limit prefix (some dir) ≡ some dir'
    → others prefix dir' ≡ others prefix dir
unfolding cleanup_files
rotation_others unlink limit prefix dir dir' e =
    let victims = victims_of (limit_of limit) (candidates prefix dir) in
    let same =
      others-unlink_all unlink prefix victims dir (victims-IsOurs (limit_of limit) prefix dir) in
    ground (arith, same)
