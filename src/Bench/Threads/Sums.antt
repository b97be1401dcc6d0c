-- ===== src/Bench/Threads/Sums.antt =====
-- Sums over ranges of numbers.
use perf_monitor.Prelude.{
  ℕ, zero, suc, ◌+◌, ◌*◌, ◌≤◌, ◌<◌, ◌≡◌, refl, sym, ap, ◌∙◌, arith, ltb, ◌==◌, if◌then◌else◌, ◌&&◌,
  leb, Bool-cases, inl, inr,
}

-- `f start + … + f (start + count - 1)`
abbrev pub sum_range : (ℕ → ℕ) → ℕ → ℕ → ℕ
sum_range f start zero = 0
sum_range f start (suc count) = f start + sum_range f (start + 1) count

pub sum_range-add_fun :
    (f g h : ℕ → ℕ) (start count : ℕ)
    → ((i : ℕ) → h i ≡ f i + g i)
    → sum_range h start count ≡ sum_range f start count + sum_range g start count
sum_range-add_fun f g h start zero e = refl
sum_range-add_fun f g h start (suc count) e =
    omega (arith, e start, sum_range-add_fun f g h (start + 1) count e)

pub sum_range_split :
    (f : ℕ → ℕ) (start m n : ℕ)
    → sum_range f start (m + n) ≡ sum_range f start m + sum_range f (start + m) n
sum_range_split f start zero n =
    let e : 0 + n ≡ n = omega arith in
    let e' : start + 0 ≡ start = omega arith in rw (e, e') (omega arith)
sum_range_split f start (suc m) n =
    let e : suc m + n ≡ suc (m + n) = omega arith in
    let e' : start + suc m ≡ start + 1 + m = omega arith in
    rw (e, e') (omega (arith, sum_range_split f (start + 1) m n))

pub sum_range_shift :
    (f g : ℕ → ℕ) (start start' count : ℕ)
    → ((i : ℕ) → f (start + i) ≡ g (start' + i))
    → sum_range f start count ≡ sum_range g start' count
sum_range_shift f g start start' zero e = refl
sum_range_shift f g start start' (suc count) e =
    let first : f start ≡ g start' = ap f (omega arith) ∙ e 0 ∙ ap g (omega arith) in
    let next : (i : ℕ) → f (start + 1 + i) ≡ g (start' + 1 + i) =
      λ i. ap f (omega arith) ∙ e (suc i) ∙ ap g (omega arith) in
    omega (arith, first, sum_range_shift f g (start + 1) (start' + 1) count next)

pub sum_range_zero :
    (f : ℕ → ℕ) (start count : ℕ)
    → ((i : ℕ) → start ≤ i → i < start + count → f i ≡ 0)
    → sum_range f start count ≡ 0
sum_range_zero f start zero e = refl
sum_range_zero f start (suc count) e =
    let first = e start (omega arith) (omega arith) in
    omega
      (arith, first, sum_range_zero f (start + 1) count (λ i h k. e i (omega arith) (omega arith)))

-- The sums may be taken in either order.
pub sum_range_swap :
    (f : ℕ → ℕ → ℕ) (s m t n : ℕ)
    → sum_range (λ i. sum_range (f i) t n) s m ≡ sum_range (λ j. sum_range (λ i. f i j) s m) t n
sum_range_swap f s zero t n = sym (sum_range_zero (λ j. 0) t n (λ j h k. refl))
sum_range_swap f s (suc m) t n =
    ap (λ k. sum_range (f s) t n + k) (sum_range_swap f (s + 1) m t n)
    ∙ sym (sum_range-add_fun (f s) _ _ t n (λ j. refl))

pub sum_range_zero_each :
    (f : ℕ → ℕ) (start count i : ℕ)
    → sum_range f start count ≡ 0
    → start ≤ i
    → i < start + count
    → f i ≡ 0
sum_range_zero_each f start zero i e h k = absurd (omega arith)
sum_range_zero_each f start (suc count) i e h k = elim (Bool-cases (i == start)) [
  | inl first ↦ let same : i ≡ start = ground arith in rw same (omega arith)
  | inr later ↦ sum_range_zero_each f (start + 1) count i (omega arith) (ground arith) (omega arith)
]

-- The sum of what is zero but at one place
pub sum_range_spike :
    (k v start count : ℕ)
    → sum_range (λ i. if i == k then v else 0) start count
      ≡ (if leb start k && ltb k (start + count) then v else 0)
sum_range_spike k v start zero = ground arith
sum_range_spike k v start (suc count) = ground (arith, sum_range_spike k v (start + 1) count)

pub sum_range_const :
    (f : ℕ → ℕ) (v start count : ℕ)
    → ((i : ℕ) → start ≤ i → i < start + count → f i ≡ v)
    → sum_range f start count ≡ count * v
sum_range_const f v start zero e = omega arith
sum_range_const f v start (suc count) e =
    let first = e start (omega arith) (omega arith) in
    let rest = sum_range_const f v (start + 1) count (λ i h k. e i (omega arith) (omega arith)) in
    grind (arith, first, rest)
