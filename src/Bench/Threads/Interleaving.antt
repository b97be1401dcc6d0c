-- ===== src/Bench/Threads/Interleaving.antt =====
-- The orders in which the calls of several threads can come.
use perf_monitor.Prelude.{ℕ, ◌+◌, ◌≡◌, refl, ap, List, [], ◌∷◌, ◌++◌, arith}

-- The third list has the entries of the other two, each of these in its order.
pub data Shuffle {A : Type 0} : List A → List A → List A → Type 0 where
  done : Shuffle [] [] []
  left : {x : A} {xs ys zs : List A} → Shuffle xs ys zs → Shuffle (x ∷ xs) ys (x ∷ zs)
  right : {y : A} {xs ys zs : List A} → Shuffle xs ys zs → Shuffle xs (y ∷ ys) (y ∷ zs)

module _ {A : Type 0} where
  -- An order of the calls of all threads
  abbrev pub Interleaving : List (List A) → List A → Type 0
  Interleaving [] calls = calls ≡ []
  Interleaving (thread ∷ rest) calls =
      (others : List A) × Interleaving rest others × Shuffle thread others calls

  abbrev pub sum_of : (A → ℕ) → List A → ℕ
  sum_of g [] = 0
  sum_of g (x ∷ xs) = g x + sum_of g xs

  abbrev pub sums_of : (A → ℕ) → List (List A) → ℕ
  sums_of g [] = 0
  sums_of g (thread ∷ rest) = sum_of g thread + sums_of g rest

  sum_of-Shuffle :
      (g : A → ℕ) {xs ys zs : List A} → Shuffle xs ys zs → sum_of g zs ≡ sum_of g xs + sum_of g ys
  sum_of-Shuffle g done = refl
  sum_of-Shuffle g (left s) = omega (arith, sum_of-Shuffle g s)
  sum_of-Shuffle g (right s) = omega (arith, sum_of-Shuffle g s)

  -- A sum over all calls does not depend on their order.
  pub sum_of-Interleaving :
      (g : A → ℕ) (threads : List (List A)) (calls : List A)
      → Interleaving threads calls
      → sum_of g calls ≡ sums_of g threads
  sum_of-Interleaving g [] calls e = ap (sum_of g) e
  sum_of-Interleaving g (thread ∷ rest) calls (others, h, s) =
      omega (arith, sum_of-Interleaving g rest others h, sum_of-Shuffle g s)

  pub sum_of-append : (g : A → ℕ) (xs ys : List A) → sum_of g (xs ++ ys) ≡ sum_of g xs + sum_of g ys
  sum_of-append g [] ys = omega arith
  sum_of-append g (x ∷ xs) ys = omega (arith, sum_of-append g xs ys)
