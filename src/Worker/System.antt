-- ===== src/Worker/System.antt =====
-- The operating system as the worker meets it. What a call returns may change from call to call:
-- each answer is asked for by the number of the calls made before. What the worker does to other
-- processes is kept as a list of acts, newest first.
use perf_monitor.Prelude.{ℕ, ◌+◌, Bool, List, ◌∷◌, Option}
use perf_monitor.Prelude.Int.{ℤ}
use perf_monitor.Text.{Bytes}
use perf_monitor.Worker.Proc.{ProcFs}
use perf_monitor.Worker.Files.{DirEntry}

-- `grows n`: `push_back` on a vector of `n` elements moves them to a new array.
pub record System : Type 0 where
  pub fork : ℕ → ℤ
  pub waitpid : ℕ → ℤ → ℤ
  pub time : ℕ → ℤ
  pub stat_size : ℕ → Bytes → Option ℕ
  pub unlink : ℕ → Bytes → Bool
  pub proc : ℕ → ProcFs
  pub grows : ℕ → Bool

pub data Act : Type 0 where
  exec : ℤ → Bytes → List Bytes → Act
  sigterm : ℤ → Act

pub record World : Type 0 where
  pub calls : ℕ
  pub acts : List Act
  -- the directory of the output files, if it can be opened
  pub dir : Option (List DirEntry)

abbrev pub M : Type 0 → Type 0
M A = World → A × World

abbrev pub pure : {A : Type 0} → A → M A
pure a w = (a, w)

infixl 5 ◌>>=◌ ◌>>◌
abbrev pub ◌>>=◌ : {A B : Type 0} → M A → (A → M B) → M B
◌>>=◌ m f w = let r = m w in f r.0 r.1

abbrev pub ◌>>◌ : {B : Type 0} → M (Unit {0}) → M B → M B
m >> k = m >>= λ _. k

-- The answer of one call.
unfoldable pub ask : {A : Type 0} → (ℕ → A) → M A
ask answer w = (answer w.calls, record w { calls = w.calls + 1 })

unfoldable pub note : Act → M (Unit {0})
note act w = (tt, record w { acts = act ∷ w.acts })
