-- ===== src/Worker/Files/Order.antt =====
-- The order in which the rotation sorts the files.
use perf_monitor.Prelude.{
  ◌≡◌, refl, true, false, List, [], ◌∷◌, arith, All, All-imp, Bool-cases, inl, inr,
}
use perf_monitor.Prelude.Int.{ℤ}
use perf_monitor.Text.{Bytes}
use perf_monitor.Worker.Files.{str_lt, older, place, sort}

str_lt_asym : (s t : Bytes) → str_lt s t ≡ true → str_lt t s ≡ false
unfolding str_lt
str_lt_asym s [] h = cc
str_lt_asym [] (b ∷ t) h = refl
str_lt_asym (a ∷ s) (b ∷ t) h = ground (arith, str_lt_asym s t)

str_ge_trans : (s t u : Bytes) → str_lt t s ≡ false → str_lt u t ≡ false → str_lt u s ≡ false
unfolding str_lt
str_ge_trans [] t u h k = refl
str_ge_trans (a ∷ s) [] u h k = cc
str_ge_trans (a ∷ s) (b ∷ t) [] h k = cc
str_ge_trans (a ∷ s) (b ∷ t) (c ∷ u) h k = ground (arith, str_ge_trans s t u)

older_asym : (f g : ℤ × Bytes) → older f g ≡ true → older g f ≡ false
unfolding older
older_asym (t, n) (u, m) h = ground (arith, str_lt_asym n m)

-- `f` is not after `g`.
abbrev pub NotAfter : ℤ × Bytes → ℤ × Bytes → Type 0
NotAfter f g = older g f ≡ false

pub NotAfter-trans : (f g h : ℤ × Bytes) → NotAfter f g → NotAfter g h → NotAfter f h
unfolding older
NotAfter-trans (t, n) (u, m) (v, l) p q = ground (arith, str_ge_trans n m l)

abbrev pub IsSorted : List (ℤ × Bytes) → Type 0
IsSorted [] = Unit
IsSorted (f ∷ rest) = All (NotAfter f) rest × IsSorted rest

NotAfter-place :
    (f g : ℤ × Bytes) (rest : List (ℤ × Bytes))
    → NotAfter f g
    → All (NotAfter f) rest
    → All (NotAfter f) (place g rest)
unfolding place
NotAfter-place f g [] h a = (h, tt)
NotAfter-place f g (x ∷ rest) h a = elim (Bool-cases (older x g)) [
  | inl before ↦ rw before (a.0, NotAfter-place f g rest h a.1)
  | inr after ↦ rw after (h, a)
]

place-IsSorted : (f : ℤ × Bytes) (rest : List (ℤ × Bytes)) → IsSorted rest → IsSorted (place f rest)
unfolding place
place-IsSorted f [] s = (tt, tt)
place-IsSorted f (g ∷ rest) s = elim (Bool-cases (older g f)) [
  | inl before ↦
      rw before (NotAfter-place g f rest (older_asym g f before) s.0, place-IsSorted f rest s.1)
  | inr after ↦
      rw after (
        (after, All-imp (NotAfter g) (NotAfter f) (λ x h. NotAfter-trans f g x after h) rest s.0),
        s,
      )
]

pub sort-IsSorted : (files : List (ℤ × Bytes)) → IsSorted (sort files)
unfolding sort
sort-IsSorted [] = tt
sort-IsSorted (f ∷ rest) = place-IsSorted f (sort rest) (sort-IsSorted rest)
