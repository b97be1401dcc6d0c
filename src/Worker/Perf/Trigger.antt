-- ===== src/Worker/Perf/Trigger.antt =====
-- When `perf record` is not started.
use perf_monitor.Prelude.{
  ℕ, ◌+◌, ◌<◌, ◌≡◌, ◌∙◌, ap, sym, refl, Bool, Option, none, some, true, false, arith, List, [], ◌∷◌,
  if◌then◌else◌, Bool-cases, inl, inr,
}
use mathlib.Core.Path.{subst}
use perf_monitor.Prelude.Int.{ℤ, pos, ◌+ℤ◌, leb_ℤ, ltb_ℤ}
use perf_monitor.Text.{Bytes, str_eq_refl}
use perf_monitor.Double.{Double}
use perf_monitor.Table.{Table, lookup, insert, bytes_eq, lookup-insert}
use perf_monitor.Worker.System.{System, World, M, pure, ◌>>=◌}
use perf_monitor.Worker.Perf.{PerfDiagnoser, Probe, timer_at}
use perf_monitor.Worker.Perf.Round.{judge}

five_later : (t d : ℕ) → t + 5 < d → leb_ℤ (pos d) (pos t +ℤ pos 5) ≡ false
unfolding ◌+ℤ◌
five_later t d h = ground arith

five_more : (t : ℕ) → pos t +ℤ pos 5 ≡ pos (t + 5)
unfolding ◌+ℤ◌
five_more t = ground arith

not_yet : (d : ℕ) → 0 < d → leb_ℤ (pos d) (pos 0) ≡ false
not_yet d h = ground arith

held_after :
    (tag : Bytes) (s : ℤ) (timers : Table Bytes ℤ) → lookup tag (insert tag s timers) ≡ some s
held_after tag s timers =
    lookup-insert tag tag s timers
    ∙ ap (λ b. if b then some s else lookup tag timers) (str_eq_refl tag)

module _ {D : Type 0} ⦃d : Double D⦄ (os : System) (probe : Probe) where
  open d use {of_ℕ, of_ℤ, mul, div, lt, le}

  -- The usage in per cent, of what the ticks of the clock give.
  abbrev pub scaled : D → D
  scaled cpu_pct =
      if ltb_ℤ (pos 0) probe.clk_tck
      then div (mul cpu_pct (of_ℕ 1000)) (of_ℤ probe.clk_tck)
      else cpu_pct

  abbrev pub is_over : ℤ → D → Bool
  is_over threshold cpu_pct = le (of_ℤ threshold) (scaled cpu_pct)

  judge-over :
      (self : PerfDiagnoser D) (name tag : Bytes) (pid : ℕ) (x : D) (w : World) (t limit : ℕ)
      → timer_at self.overflow_timers tag ≡ pos t
      → self.overflow_duration_s ≡ pos limit
      → lt x (of_ℕ 0) ≡ false
      → is_over self.cpu_threshold_pct x ≡ true
      → t + 5 < limit
      → judge os probe self name tag pid x w
        ≡ (record self { overflow_timers = insert tag (pos (t + 5)) self.overflow_timers }, w)
  unfolding judge
  judge-over self name tag pid x w t limit a b c e h =
      rw (c, e, a, b, five_later t limit h, five_more t) refl

  judge-under :
      (self : PerfDiagnoser D) (name tag : Bytes) (pid : ℕ) (x : D) (w : World) (limit : ℕ)
      → self.overflow_duration_s ≡ pos limit
      → lt x (of_ℕ 0) ≡ false
      → is_over self.cpu_threshold_pct x ≡ false
      → 0 < limit
      → judge os probe self name tag pid x w
        ≡ (record self { overflow_timers = insert tag (pos 0) self.overflow_timers }, w)
  unfolding judge
  judge-under self name tag pid x w limit b c e h = rw (c, e, b, not_yet limit h) refl

  judge-negative :
      (self : PerfDiagnoser D) (name tag : Bytes) (pid : ℕ) (x : D) (w : World)
      → lt x (of_ℕ 0) ≡ true
      → judge os probe self name tag pid x w ≡ (self, w)
  unfolding judge
  judge-negative self name tag pid x w c = rw c refl

  -- The usages that the scan finds for one process, round after round.
  unfoldable pub judges : Bytes → Bytes → ℕ → PerfDiagnoser D → List D → M (PerfDiagnoser D)
  judges name tag pid self [] = pure self
  judges name tag pid self (x ∷ xs) = do
    after ← judge os probe self name tag pid x
    judges name tag pid after xs

  -- The seconds that the usage was over the threshold without a break: a round counts five, one
  -- without a sample does not count.
  abbrev pub seconds : ℤ → ℕ → D → ℕ
  seconds threshold t x = if lt x (of_ℕ 0) then t else if is_over threshold x then t + 5 else 0

  abbrev pub seconds_after : ℤ → ℕ → List D → ℕ
  seconds_after threshold t [] = t
  seconds_after threshold t (x ∷ xs) = seconds_after threshold (seconds threshold t x) xs

  -- After no round they reach the limit.
  abbrev pub IsShort : ℕ → ℤ → ℕ → List D → Type 0
  IsShort limit threshold t [] = Unit
  IsShort limit threshold t (x ∷ xs) =
      (seconds threshold t x < limit) × IsShort limit threshold (seconds threshold t x) xs

  timer_at-insert :
      (tag : Bytes) (s : ℤ) (self : PerfDiagnoser D)
      → timer_at (insert tag s self.overflow_timers) tag ≡ s
  timer_at-insert tag s self =
      ap (λ (o : Option ℤ). elim o [ none ↦ pos 0 | some held ↦ held ])
        (held_after tag s self.overflow_timers)

  -- As long as the usage of a process has not been over the threshold, without a break, for the
  -- whole duration, no process is started or ended on its account, and its timer holds the seconds
  -- of the break-free time so far.
  pub judges-quiet :
      (name tag : Bytes) (pid : ℕ) (self : PerfDiagnoser D) (xs : List D) (w : World) (t limit : ℕ)
      → timer_at self.overflow_timers tag ≡ pos t
      → self.overflow_duration_s ≡ pos limit
      → IsShort limit self.cpu_threshold_pct t xs
      → let (after, w1) = judges name tag pid self xs w in
        (w1.acts ≡ w.acts)
        × (timer_at after.overflow_timers tag ≡ pos (seconds_after self.cpu_threshold_pct t xs))
  unfolding judges
  judges-quiet name tag pid self [] w t limit a b h = (refl, a)
  judges-quiet name tag pid self (x ∷ xs) w t limit a b h =
      let threshold = self.cpu_threshold_pct in
      let Goal : PerfDiagnoser D × World → ℕ → Type 0 = λ r s.
        let (after, w1) = judges name tag pid r.0 xs r.1 in
        (w1.acts ≡ w.acts)
        × (timer_at after.overflow_timers tag ≡ pos (seconds_after threshold s xs)) in
      let timed : ℕ → PerfDiagnoser D =
        λ s. record self { overflow_timers = insert tag (pos s) self.overflow_timers } in
      let go : (s : ℕ) → IsShort limit threshold s xs → Goal (timed s, w) s = λ s.
        judges-quiet name tag pid (timed s) xs w s limit (timer_at-insert tag (pos s) self) b in
      elim (Bool-cases (lt x (of_ℕ 0))) [
        | inl unread ↦ rw unread (
            subst (λ r. Goal r t) (sym (judge-negative self name tag pid x w unread))
              (judges-quiet name tag pid self xs w t limit a b (rw unread at h.1)))
        | inr read ↦ elim (Bool-cases (is_over threshold x)) [
          | inl over ↦
              let below : t + 5 < limit = rw (read, over) at h.0 in
              rw (read, over)
                (subst (λ r. Goal r (t + 5))
                  (sym (judge-over self name tag pid x w t limit a b read over below))
                  (go (t + 5) (rw (read, over) at h.1)))
          | inr under ↦
              let below : 0 < limit = rw (read, under) at h.0 in
              rw (read, under)
                (subst (λ r. Goal r 0)
                  (sym (judge-under self name tag pid x w limit b read under below))
                  (go 0 (rw (read, under) at h.1)))
        ]
      ]
