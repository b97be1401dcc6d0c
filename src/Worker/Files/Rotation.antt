-- ===== src/Worker/Files/Rotation.antt =====
-- What the rotation deletes and what it keeps.
use perf_monitor.Prelude.{
  ℕ, zero, suc, ◌-◌, ◌<◌, ◌≡◌, refl, sym, ap, ◌∙◌, Bool, true, false, ◌||◌, List, [], ◌∷◌, some,
  arith, leb, if◌then◌else◌, length, take, drop, length-drop, All, All-drop, Bool-cases, inl, inr,
}
use Prim.Native.Nat.{min}
use mathlib.Core.Option.{some-injective}
use perf_monitor.Prelude.Int.{ℤ, pos}
use perf_monitor.Text.{Bytes, str_eq, str_eq_iff, str_eq_refl}
use perf_monitor.Worker.Files.{
  DirEntry, candidates, place, sort, has_name, unlink_all, victims_of, cleanup_files,
}
use perf_monitor.Worker.Files.Order.{NotAfter, IsSorted, sort-IsSorted}

-- The files whose names are not among the victims'.
abbrev pub spared : List (ℤ × Bytes) → List (ℤ × Bytes) → List (ℤ × Bytes)
spared victims [] = []
spared victims (f ∷ rest) =
    if has_name f.1 victims then spared victims rest else f ∷ spared victims rest

candidates-unlink_all :
    (unlink : Bytes → Bool) (prefix : Bytes) (victims : List (ℤ × Bytes)) (dir : List DirEntry)
    → ((name : Bytes) → has_name name victims ≡ true → unlink name ≡ true)
    → candidates prefix (unlink_all unlink victims dir) ≡ spared victims (candidates prefix dir)
unfolding candidates unlink_all
candidates-unlink_all unlink prefix victims [] works = refl
candidates-unlink_all unlink prefix victims (e ∷ rest) works =
    ground (arith, works e.name, candidates-unlink_all unlink prefix victims rest works)

spared-place :
    (victims : List (ℤ × Bytes)) (f : ℤ × Bytes) (rest : List (ℤ × Bytes))
    → length (spared victims (place f rest)) ≡ length (spared victims (f ∷ rest))
unfolding place
spared-place victims f [] = refl
spared-place victims f (g ∷ rest) = ground (arith, spared-place victims f rest)

spared-sort :
    (victims files : List (ℤ × Bytes))
    → length (spared victims (sort files)) ≡ length (spared victims files)
unfolding sort
spared-sort victims [] = refl
spared-sort victims (f ∷ rest) =
    ground (arith, spared-place victims f (sort rest), spared-sort victims rest)

-- No name stands twice.
abbrev Distinct : List (ℤ × Bytes) → Type 0
Distinct [] = Unit
Distinct (f ∷ rest) = (has_name f.1 rest ≡ false) × Distinct rest

has_name-place :
    (name : Bytes) (f : ℤ × Bytes) (rest : List (ℤ × Bytes))
    → has_name name (place f rest) ≡ str_eq f.1 name || has_name name rest
unfolding place has_name
has_name-place name f [] = refl
has_name-place name f (g ∷ rest) = ground (arith, has_name-place name f rest)

has_name-sort :
    (name : Bytes) (files : List (ℤ × Bytes)) → has_name name (sort files) ≡ has_name name files
unfolding sort has_name
has_name-sort name [] = refl
has_name-sort name (f ∷ rest) =
    has_name-place name f (sort rest) ∙ ap (◌||◌ (str_eq f.1 name)) (has_name-sort name rest)

str_eq_comm : (s t : Bytes) → str_eq s t ≡ str_eq t s
str_eq_comm s t = ground (arith, str_eq_iff s t, str_eq_iff t s)

place-Distinct :
    (f : ℤ × Bytes) (rest : List (ℤ × Bytes))
    → has_name f.1 rest ≡ false
    → Distinct rest
    → Distinct (place f rest)
unfolding place has_name
place-Distinct f [] h d = (refl, tt)
place-Distinct f (g ∷ rest) h d =
    ground (arith, str_eq_comm f.1 g.1, has_name-place g.1 f rest, place-Distinct f rest)

sort-Distinct : (files : List (ℤ × Bytes)) → Distinct files → Distinct (sort files)
unfolding sort
sort-Distinct [] d = tt
sort-Distinct (f ∷ rest) d =
    place-Distinct f (sort rest) (has_name-sort f.1 rest ∙ d.0) (sort-Distinct rest d.1)

spared-cons :
    (f : ℤ × Bytes) (victims files : List (ℤ × Bytes))
    → has_name f.1 files ≡ false
    → spared (f ∷ victims) files ≡ spared victims files
unfolding has_name
spared-cons f victims [] h = refl
spared-cons f victims (g ∷ rest) h = ground (arith, str_eq_comm f.1 g.1, spared-cons f victims rest)

spared-nil : (files : List (ℤ × Bytes)) → spared [] files ≡ files
unfolding has_name
spared-nil [] = refl
spared-nil (f ∷ rest) = ap (◌∷◌ f) (spared-nil rest)

-- Of distinct files, all but the first ones are left.
spared-take :
    (n : ℕ) (files : List (ℤ × Bytes)) → Distinct files → spared (take n files) files ≡ drop n files
unfolding has_name
spared-take zero files d = spared-nil files
spared-take (suc n) [] d = refl
spared-take (suc n) (f ∷ rest) d =
    ground (arith, str_eq_refl f.1, spared-cons f (take n rest) rest d.0, spared-take n rest d.1)

length-place : (f : ℤ × Bytes) (rest : List (ℤ × Bytes)) → length (place f rest) ≡ suc (length rest)
unfolding place
length-place f [] = refl
length-place f (g ∷ rest) = ground (arith, length-place f rest)

length-sort : (files : List (ℤ × Bytes)) → length (sort files) ≡ length files
unfolding sort
length-sort [] = refl
length-sort (f ∷ rest) = length-place f (sort rest) ∙ ap suc (length-sort rest)

-- A directory holds no name twice.
abbrev pub has_entry : Bytes → List DirEntry → Bool
has_entry name [] = false
has_entry name (e ∷ rest) = str_eq e.name name || has_entry name rest

abbrev pub IsDirectory : List DirEntry → Type 0
IsDirectory [] = Unit
IsDirectory (e ∷ rest) = (has_entry e.name rest ≡ false) × IsDirectory rest

has_name-candidates :
    (name prefix : Bytes) (dir : List DirEntry)
    → has_entry name dir ≡ false
    → has_name name (candidates prefix dir) ≡ false
unfolding candidates has_name
has_name-candidates name prefix [] h = refl
has_name-candidates name prefix (e ∷ rest) h = ground (arith, has_name-candidates name prefix rest)

candidates-Distinct :
    (prefix : Bytes) (dir : List DirEntry) → IsDirectory dir → Distinct (candidates prefix dir)
unfolding candidates
candidates-Distinct prefix [] h = tt
candidates-Distinct prefix (e ∷ rest) h =
    ground (arith, has_name-candidates e.name prefix rest h.0, candidates-Distinct prefix rest h.1)

-- The directory after a rotation that runs, which is one with a positive limit.
abbrev pub rotated : (Bytes → Bool) → ℕ → Bytes → List DirEntry → List DirEntry
rotated unlink limit prefix dir = unlink_all unlink (victims_of limit (candidates prefix dir)) dir

pub cleanup_files-rotated :
    (unlink : Bytes → Bool) (limit : ℕ) (prefix : Bytes) (dir : List DirEntry)
    → 0 < limit
    → cleanup_files unlink (pos limit) prefix (some dir) ≡ some (rotated unlink limit prefix dir)
unfolding cleanup_files
cleanup_files-rotated unlink limit prefix dir h = ground arith

-- After a rotation with a positive limit in which every `unlink` of a file that is chosen works,
-- exactly as many files of the prefix are left as the limit allows, or all of them if there were
-- fewer.
pub rotation_count :
    (unlink : Bytes → Bool) (limit : ℕ) (prefix : Bytes) (dir dir' : List DirEntry)
    → 0 < limit
    → IsDirectory dir
    → ((name : Bytes)
        → has_name name (victims_of limit (candidates prefix dir)) ≡ true
        → unlink name ≡ true)
    → cleanup_files unlink (pos limit) prefix (some dir) ≡ some dir'
    → length (candidates prefix dir') ≡ min limit (length (candidates prefix dir))
unfolding victims_of
rotation_count unlink limit prefix dir dir' h d works e =
    let files = candidates prefix dir in
    let over = length files - limit in
    let victims = victims_of limit files in
    let whole : dir' ≡ rotated unlink limit prefix dir =
      some-injective _ _ (sym e ∙ cleanup_files-rotated unlink limit prefix dir h) in
    rw (whole, candidates-unlink_all unlink prefix victims dir works)
      (ground (
        arith,
        spared-nil files,
        spared-sort (take over (sort files)) files,
        spared-take over (sort files) (sort-Distinct files (candidates-Distinct prefix dir d)),
        length-drop over (sort files),
        length-sort files,
      ))

All-spared :
    (P : ℤ × Bytes → Type 0) (victims files : List (ℤ × Bytes))
    → All P files
    → All P (spared victims files)
All-spared P victims [] a = tt
All-spared P victims (f ∷ rest) a = elim (Bool-cases (has_name f.1 victims)) [
  | inl gone ↦ rw gone (All-spared P victims rest a.1)
  | inr kept ↦ rw kept (a.0, All-spared P victims rest a.1)
]

take-before-drop :
    (n : ℕ) (files : List (ℤ × Bytes))
    → IsSorted files
    → All (λ f. All (NotAfter f) (drop n files)) (take n files)
take-before-drop zero files s = tt
take-before-drop (suc n) [] s = tt
take-before-drop (suc n) (f ∷ rest) s =
    (All-drop (NotAfter f) n rest s.0, take-before-drop n rest s.1)

-- None of the files that a rotation chooses to delete is newer, by time and then by name, than one of
-- the prefix that it does not choose.
pub rotation_oldest :
    (limit : ℕ) (prefix : Bytes) (dir : List DirEntry)
    → IsDirectory dir
    → let files = candidates prefix dir in
      let victims = victims_of limit files in
      All (λ f. All (NotAfter f) (spared victims (sort files))) victims
unfolding victims_of
rotation_oldest limit prefix dir d =
    let files = candidates prefix dir in
    let over = length files - limit in
    let sorted = sort-Distinct files (candidates-Distinct prefix dir d) in
    elim (Bool-cases (leb (length files) limit)) [
      | inl few ↦ rw few tt
      | inr many ↦
          rw (many, spared-take over (sort files) sorted)
            (take-before-drop over (sort files) (sort-IsSorted files))
    ]
