-- ===== src/Worker/Monitor/Shares.antt =====
-- The CPU percentages from the text of /proc/stat on: worker/src/monitor/cpu_stat_monitor.cpp.
use perf_monitor.Prelude.{ℕ, ◌^◌, ◌<◌, ◌≡◌, refl, ap, ◌∙◌, List, [], ◌∷◌, ◌++◌, arith}
use perf_monitor.Text.{Bytes, codes}
use perf_monitor.Text.Search.{Avoids, starts_with-append}
use perf_monitor.Text.Decimal.{to_string_ℕ}
use perf_monitor.Text.Stream.{stream, extract, lines}
use perf_monitor.Text.Stream.Printed.{extract-printed, lines-line, spaced, spaced-Avoids}
use perf_monitor.Double.{Double}
use perf_monitor.Worker.Monitor.CpuStat.{
  CpuStatRaw, CpuStatMonitor, no_raw, read_counters, read_stat, collect_raw, collect,
}
use perf_monitor.Worker.Monitor.Percent.{Ticks, advance, elapsed, Fits, share, collect-share}

-- The counters in the order of the line
abbrev pub values : CpuStatRaw → List ℕ
values r = r.user ∷ r.nice ∷ r.system ∷ r.idle ∷ r.iowait ∷ r.irq ∷ r.softirq ∷ r.steal ∷ []

-- /proc/stat as the kernel prints it: the line of all processors, with the two counters for guests
-- behind those that are read, and other lines.
abbrev pub proc_stat : CpuStatRaw → ℕ → ℕ → Bytes → Bytes
proc_stat r guest guest_nice rest =
    (codes "cpu " ++ spaced (values r) (spaced (guest ∷ guest_nice ∷ []) [])) ++ b'\n' ∷ rest

-- The counters fit `uint64_t`.
pub record FitsU64 (r : CpuStatRaw) : Type 0 where
  pub user : r.user < 2 ^ 64
  pub nice : r.nice < 2 ^ 64
  pub system : r.system < 2 ^ 64
  pub idle : r.idle < 2 ^ 64
  pub iowait : r.iowait < 2 ^ 64
  pub irq : r.irq < 2 ^ 64
  pub softirq : r.softirq < 2 ^ 64
  pub steal : r.steal < 2 ^ 64

-- A number in front of others
extract-next :
    (old n m : ℕ) (ms : List ℕ) (rest : Bytes)
    → n < 2 ^ 64
    → extract old (stream (spaced (n ∷ m ∷ ms) rest)) ≡ (n, stream (spaced (m ∷ ms) rest))
extract-next old n m ms rest h = extract-printed old n b' ' (to_string_ℕ m ++ spaced ms rest) h refl

read_counters-printed :
    (old r : CpuStatRaw) (guest : ℕ) (rest : Bytes)
    → FitsU64 r
    → read_counters old (spaced (values r) (spaced (guest ∷ []) rest)) ≡ r
unfolding read_counters
read_counters-printed old r guest rest f =
    rw
      (extract-next old.user r.user r.nice
        (r.system ∷ r.idle ∷ r.iowait ∷ r.irq ∷ r.softirq ∷ r.steal ∷ guest ∷ []) rest f.user)
      (rw
        (extract-next old.nice r.nice r.system
          (r.idle ∷ r.iowait ∷ r.irq ∷ r.softirq ∷ r.steal ∷ guest ∷ []) rest f.nice)
        (rw
          (extract-next old.system r.system r.idle
            (r.iowait ∷ r.irq ∷ r.softirq ∷ r.steal ∷ guest ∷ []) rest f.system)
          (rw
            (extract-next old.idle r.idle r.iowait (r.irq ∷ r.softirq ∷ r.steal ∷ guest ∷ []) rest
              f.idle)
            (rw
              (extract-next old.iowait r.iowait r.irq (r.softirq ∷ r.steal ∷ guest ∷ []) rest
                f.iowait)
              (rw (extract-next old.irq r.irq r.softirq (r.steal ∷ guest ∷ []) rest f.irq) (
                rw (extract-next old.softirq r.softirq r.steal (guest ∷ []) rest f.softirq)
                  (rw (extract-next old.steal r.steal guest ([]) rest f.steal) (refl))))))))

cpu_line-Avoids : (s : Bytes) → Avoids b'\n' s → Avoids b'\n' (codes "cpu " ++ s)
unfolding codes
cpu_line-Avoids s a = (ground arith, (ground arith, (ground arith, (ground arith, a))))

-- The loop finds the counters in the first line.
read_stat-proc_stat :
    (old r : CpuStatRaw) (guest guest_nice : ℕ) (rest : Bytes)
    → FitsU64 r
    → read_stat old (lines (proc_stat r guest guest_nice rest)) ≡ r
unfolding read_stat codes
read_stat-proc_stat old r guest guest_nice rest f =
    let counters = spaced (values r) (spaced (guest ∷ guest_nice ∷ []) []) in
    let avoids = cpu_line-Avoids counters (
      spaced-Avoids (values r) (spaced (guest ∷ guest_nice ∷ []) [])
        (spaced-Avoids (guest ∷ guest_nice ∷ []) [] tt)) in
    ap (read_stat old) (lines-line (codes "cpu " ++ counters) rest avoids)
    ∙ rw (starts_with-append (codes "cpu ") counters)
        (read_counters-printed old r guest (spaced (guest_nice ∷ []) []) f)

module _ {D : Type 0} ⦃d : Double D⦄ where
  -- Where /proc/stat shows counters of 64 bits, and those that a percentage is made of fit
  -- `int64_t`, and some time has passed, a round of `Collect` reads the text so that each percentage
  -- is that counter's share of the ticks since the last round, all eight kinds of ticks counted, even
  -- if the total wraps around; and it keeps the counters of the text for the next round.
  pub collect-proc_stat :
      (self : CpuStatMonitor D) (t : Ticks) (guest guest_nice : ℕ) (rest : Bytes)
      → FitsU64 (advance self.prev t)
      → Fits (advance self.prev t)
      → 0 < elapsed t
      → elapsed t < 2 ^ 64
      → collect self (proc_stat (advance self.prev t) guest guest_nice rest) ≡ record {
        pct = record {
          user = share t.user (elapsed t);
          system = share t.system (elapsed t);
          idle = share t.idle (elapsed t);
          iowait = share t.iowait (elapsed t);
          steal = share t.steal (elapsed t);
          softirq = share t.softirq (elapsed t);
        };
        prev = advance self.prev t;
      }
  unfolding collect
  collect-proc_stat self t guest guest_nice rest f g h k =
      let cur = advance self.prev t in
      ap (collect_raw self) (read_stat-proc_stat no_raw cur guest guest_nice rest f)
      ∙ collect-share self t g h k
