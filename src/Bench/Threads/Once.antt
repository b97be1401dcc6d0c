-- ===== src/Bench/Threads/Once.antt =====
-- Which calls the threads make between them.
use perf_monitor.Prelude.{
  ℕ, zero, suc, ◌+◌, ◌-◌, ◌*◌, ◌≤◌, ◌<◌, ◌≡◌, refl, sym, ap, ◌∙◌, arith, ltb, if◌then◌else◌, List,
  [], ◌∷◌, map, Bool-cases, inl, inr,
}
use perf_monitor.Prelude.Int.{ℤ, pos_part, ltb_ℤ}
use perf_monitor.Bench.Arguments.{HasCounts}
use perf_monitor.Bench.{Options}
use perf_monitor.Bench.Threads.{
  Call, strided, round_calls, rounds, run_thread, thread_count, start_threads, threads,
}
use perf_monitor.Bench.Threads.Interleaving.{
  Interleaving, sum_of, sums_of, sum_of-Interleaving, sum_of-append,
}
use perf_monitor.Bench.Threads.Sums.{
  sum_range, sum_range-add_fun, sum_range_split, sum_range_shift, sum_range_zero, sum_range_swap,
}

-- The numbers below `n` count, no others.
abbrev pub below : ℕ → (ℕ → ℕ) → ℕ → ℕ
below n g w = if ltb w n then g w else 0

strided_end : (f c n w : ℕ) → n ≤ w → strided f c n w ≡ []
unfolding strided
strided_end zero c n w h = refl
strided_end (suc f) c n w h = ground arith

strided_step :
    (g : ℕ → ℕ) (f c n w : ℕ)
    → sum_of g (strided (suc f) c n w) ≡ below n g w + sum_of g (strided f c n (w + c))
unfolding strided
strided_step g f c n w = elim (Bool-cases (ltb w n)) [
  | inl more ↦ rw more refl
  | inr last ↦ rw (last, strided_end f c n (w + c) (ground arith)) refl
]

-- `c` loops that start at neighbours and take steps of `c` meet every number once.
blocks :
    (g : ℕ → ℕ) (f c n w : ℕ)
    → sum_range (λ t. sum_of g (strided f c n (w + t))) 0 c ≡ sum_range (below n g) w (f * c)
unfolding strided
blocks g zero c n w =
    let e : 0 * c ≡ 0 = omega arith in
    sum_range_zero _ 0 c (λ i h k. refl) ∙ sym (ap (sum_range (below n g) w) e)
blocks g (suc f) c n w =
    let e : suc f * c ≡ c + f * c = grind arith in
    let first = λ (t : ℕ). below n g (w + t) in
    let later = λ (t : ℕ). sum_of g (strided f c n (w + c + t)) in
    let one : (t : ℕ) → sum_of g (strided (suc f) c n (w + t)) ≡ first t + later t = λ t.
      strided_step g f c n (w + t) ∙ ap (λ k. first t + sum_of g (strided f c n k)) (omega arith) in
    let sums = sum_range-add_fun first later _ 0 c one in
    let block = sum_range_shift first (below n g) 0 w c (λ i. ap (below n g) (omega arith)) in
    let split = sum_range_split (below n g) w c (f * c) in
    rw e (omega (arith, sums, block, blocks g f c n (w + c), split))

-- A range may be cut to where the sum ends.
range_cut :
    (f : ℕ → ℕ) (m n : ℕ) → n ≤ m → ((i : ℕ) → n ≤ i → f i ≡ 0) → sum_range f 0 m ≡ sum_range f 0 n
range_cut f m n h e =
    let size : m ≡ n + (m - n) = omega arith in
    let rest = sum_range_zero f (0 + n) (m - n) (λ i k l. e i (omega arith)) in
    ap (sum_range f 0) size ∙ omega (arith, sum_range_split f 0 n (m - n), rest)

-- The first threads, as many as there are workers and no more than the stride, meet every worker.
strides :
    (g : ℕ → ℕ) (c n : ℕ)
    → 0 < c
    → sum_range (λ t. sum_of g (strided n c n t)) 0 (if ltb n c then n else c)
      ≡ sum_range (below n g) 0 n
strides g c n h =
    let turns = λ (t : ℕ). sum_of g (strided n c n t) in
    let all : sum_range turns 0 c ≡ sum_range (below n g) 0 n =
      sum_range_shift turns (λ t. sum_of g (strided n c n (0 + t))) 0 0 c
        (λ i. ap turns (omega arith))
      ∙ blocks g n c n 0
      ∙ range_cut (below n g) (n * c) n (grind arith) (λ i k. ground arith) in
    elim (Bool-cases (ltb n c)) [
      | inl few ↦ rw few (
          sym (range_cut turns c n (ground arith) (λ t k. ap (sum_of g) (strided_end n c n t k)))
          ∙ all)
      | inr many ↦ rw many all
    ]

sum_of-map :
    {A : Type 0} (g : Call → ℕ) (f : A → Call) (xs : List A)
    → sum_of g (map f xs) ≡ sum_of (λ x. g (f x)) xs
sum_of-map g f [] = refl
sum_of-map g f (x ∷ xs) = omega (arith, sum_of-map g f xs)

-- The sum over one iteration of one thread
abbrev turn_sum : Options → (Call → ℕ) → ℕ → ℕ → ℕ
turn_sum o g t i =
    let n = pos_part o.workers in sum_of (λ w. g (w, i)) (strided n (pos_part o.concurrency) n t)

sum_of-rounds :
    (o : Options) (g : Call → ℕ) (t i left : ℕ)
    → sum_of g (rounds o t i left) ≡ sum_range (turn_sum o g t) i left
unfolding rounds round_calls
sum_of-rounds o g t i zero = refl
sum_of-rounds o g t i (suc left) =
    let n = pos_part o.workers in
    let turn = strided n (pos_part o.concurrency) n t in
    sum_of-append g (map (λ w. (w, i)) turn) (rounds o t (i + 1) left)
    ∙ omega (arith, sum_of-map g (λ w. (w, i)) turn, sum_of-rounds o g t (i + 1) left)

sums_of-start_threads :
    (o : Options) (g : Call → ℕ) (t left : ℕ)
    → sums_of g (start_threads o t left)
      ≡ sum_range (λ t. sum_range (turn_sum o g t) 0 (pos_part o.iterations)) t left
unfolding start_threads run_thread
sums_of-start_threads o g t zero = refl
sums_of-start_threads o g t (suc left) =
    omega
      (arith, sum_of-rounds o g t 0 (pos_part o.iterations), sums_of-start_threads o g (t + 1) left)

min_parts :
    (a b : ℤ)
    → 0 < pos_part a
    → 0 < pos_part b
    → pos_part (if ltb_ℤ a b then a else b)
      ≡ (if ltb (pos_part a) (pos_part b) then pos_part a else pos_part b)
min_parts a b h k = ground arith

thread_count_lem :
    (o : Options)
    → HasCounts o
    → let n = pos_part o.workers in
      let c = pos_part o.concurrency in pos_part (thread_count o) ≡ (if ltb n c then n else c)
unfolding thread_count
thread_count_lem o h = min_parts o.workers o.concurrency h.workers h.concurrency

-- Whatever the order, a sum over the calls is the sum over all workers and all iterations.
pub sum_of-calls :
    (o : Options) (g : Call → ℕ) (calls : List Call)
    → HasCounts o
    → Interleaving (threads o) calls
    → let n = pos_part o.workers in
      sum_of g calls
      ≡ sum_range (λ i. sum_range (below n (λ w. g (w, i))) 0 n) 0 (pos_part o.iterations)
unfolding threads
sum_of-calls o g calls h order =
    let n = pos_part o.workers in
    let c = pos_part o.concurrency in
    let m = pos_part o.iterations in
    let count = pos_part (thread_count o) in
    sum_of-Interleaving g (threads o) calls order
    ∙ sums_of-start_threads o g 0 count
    ∙ ap (sum_range (λ t. sum_range (turn_sum o g t) 0 m) 0) (thread_count_lem o h)
    ∙ sum_range_swap (turn_sum o g) 0 (if ltb n c then n else c) 0 m
    ∙ sum_range_shift _ _ 0 0 m (λ i. strides (λ w. g (w, 0 + i)) c n h.concurrency)
