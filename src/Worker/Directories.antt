-- ===== src/Worker/Directories.antt =====
-- `Init` of worker/src/diagnose/bpf_diagnoser.cpp and of perf_diagnoser.cpp: the loop that makes the
-- output directory and those above it. `mkdir` is the system's, with whatever it leaves; its result
-- is dropped.
use perf_monitor.Prelude.{
  ℕ, ◌≡◌, refl, ◌∙◌, Bool, List, [], ◌∷◌, ◌++◌, ◌==◌, map, if◌then◌else◌, Bool-cases, inl, inr,
  append_assoc, append-nil,
}
use perf_monitor.Text.{Bytes}

abbrev is_slash : ℕ → Bool
is_slash c = c == b'/'

-- A file system, and what `mkdir` of a path makes of it.
pub record Directories (F : Type 0) : Type 0 where
  pub mkdir : F → Bytes → F

-- The beginnings of a text that end before a slash, from the shortest on, and the text itself
abbrev pub heads : Bytes → List Bytes
heads [] = [] ∷ []
heads (c ∷ rest) = (if is_slash c then [] ∷ [] else []) ++ map (λ head. c ∷ head) (heads rest)

-- The directories that a path leads through, down to itself. The root is none of them.
abbrev pub ancestors : Bytes → List Bytes
ancestors [] = []
ancestors (c ∷ rest) = map (λ head. c ∷ head) (heads rest)

-- The paths under `made`, which now ends in `c`
behind :
    (made : Bytes) (c : ℕ) (paths : List Bytes)
    → map (λ head. (made ++ c ∷ []) ++ head) paths
      ≡ map (λ head. made ++ head) (map (λ head. c ∷ head) paths)
behind made c [] = refl
behind made c (p ∷ paths) = rw (append_assoc made (c ∷ []) p, behind made c paths) refl

module _ {F : Type 0} ⦃d : Directories F⦄ where
  -- The loop from a position: `made` is the path before it, `rest` from it on.
  unfoldable pub make_from : Bytes → Bytes → F → F
  make_from made [] fs = d.mkdir fs made
  make_from made (c ∷ rest) fs =
      make_from (made ++ c ∷ []) rest (if is_slash c then d.mkdir fs made else fs)

  -- It starts at position 1.
  unfoldable pub make_dirs : Bytes → F → F
  make_dirs [] fs = fs
  make_dirs (c ∷ rest) fs = make_from (c ∷ []) rest fs

  -- `mkdir` of each of the paths, in order
  abbrev pub mkdirs : List Bytes → F → F
  mkdirs [] fs = fs
  mkdirs (p ∷ ps) fs = mkdirs ps (d.mkdir fs p)

  pub mkdirs-append :
      (ps qs : List Bytes) (fs : F) → mkdirs (ps ++ qs) fs ≡ mkdirs qs (mkdirs ps fs)
  mkdirs-append [] qs fs = refl
  mkdirs-append (p ∷ ps) qs fs = mkdirs-append ps qs (d.mkdir fs p)

  make_from-heads :
      (made rest : Bytes) (fs : F)
      → make_from made rest fs ≡ mkdirs (map (λ head. made ++ head) (heads rest)) fs
  unfolding make_from
  make_from-heads made [] fs = rw append-nil refl
  make_from-heads made (c ∷ rest) fs = elim (Bool-cases (is_slash c)) [
    | inl slash ↦ rw slash (
        make_from-heads (made ++ c ∷ []) rest (d.mkdir fs made)
        ∙ rw (behind made c (heads rest), append-nil) refl)
    | inr other ↦
        rw other (make_from-heads (made ++ c ∷ []) rest fs ∙ rw (behind made c (heads rest)) refl)
  ]

  -- The loop makes each directory above the path, and then the path.
  pub make_dirs-ancestors : (path : Bytes) (fs : F) → make_dirs path fs ≡ mkdirs (ancestors path) fs
  unfolding make_dirs
  make_dirs-ancestors [] fs = refl
  make_dirs-ancestors (c ∷ rest) fs = make_from-heads (c ∷ []) rest fs
