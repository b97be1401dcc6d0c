-- ===== src/Worker/Monitor/Percent.antt =====
-- What the CPU percentages are.
use perf_monitor.Prelude.{ℕ, ◌+◌, ◌^◌, ◌<◌, ◌≡◌, refl, false, arith, ◌==◌}
use perf_monitor.Prelude.Int.{pos, ◌-ℤ◌, to_i64}
use perf_monitor.Double.{Double}
use perf_monitor.Worker.Monitor.{sub_u64}
use perf_monitor.Worker.Monitor.CpuStat.{CpuStatRaw, CpuStatMonitor, total, calc, collect_raw}

-- What the eight counters were advanced by.
pub record Ticks : Type 0 where
  pub user : ℕ
  pub nice : ℕ
  pub system : ℕ
  pub idle : ℕ
  pub iowait : ℕ
  pub irq : ℕ
  pub softirq : ℕ
  pub steal : ℕ

abbrev pub advance : CpuStatRaw → Ticks → CpuStatRaw
advance r t = record {
  user = r.user + t.user;
  nice = r.nice + t.nice;
  system = r.system + t.system;
  idle = r.idle + t.idle;
  iowait = r.iowait + t.iowait;
  irq = r.irq + t.irq;
  softirq = r.softirq + t.softirq;
  steal = r.steal + t.steal;
}

abbrev pub elapsed : Ticks → ℕ
elapsed t = t.user + t.nice + t.system + t.idle + t.iowait + t.irq + t.softirq + t.steal

-- The counters that percentages are made of stay within `int64_t`; their sum may not.
pub record Fits (r : CpuStatRaw) : Type 0 where
  pub user : r.user < 2 ^ 63
  pub system : r.system < 2 ^ 63
  pub idle : r.idle < 2 ^ 63
  pub iowait : r.iowait < 2 ^ 63
  pub steal : r.steal < 2 ^ 63
  pub softirq : r.softirq < 2 ^ 63

-- The difference of two totals does not wrap where the totals do.
total-advance :
    (r : CpuStatRaw) (t : Ticks)
    → elapsed t < 2 ^ 64
    → sub_u64 (total (advance r t)) (total r) ≡ elapsed t
unfolding total
total-advance r t h = omega arith

difference :
    (prev ticks : ℕ) → prev + ticks < 2 ^ 63 → to_i64 (prev + ticks) -ℤ to_i64 prev ≡ pos ticks
unfolding to_i64 ◌-ℤ◌
difference prev ticks h = ground arith

module _ {D : Type 0} ⦃d : Double D⦄ where
  open d use {of_ℕ, of_ℤ, mul, div}

  -- A share of the ticks, in per cent.
  abbrev pub share : ℕ → ℕ → D
  share ticks whole = div (mul (of_ℕ 100) (of_ℤ (pos ticks))) (of_ℕ whole)

  calc-share :
      (whole prev ticks : ℕ)
      → prev + ticks < 2 ^ 63
      → calc whole (prev + ticks) prev ≡ share ticks whole
  unfolding calc
  calc-share whole prev ticks h = ground (arith, difference prev ticks h)

  -- While no counter that a percentage is made of leaves `int64_t`, and some time has passed, each
  -- percentage is that counter's share of the ticks since the last round, all eight kinds of ticks
  -- counted, even if the total wraps around; and the counters are kept for the next round.
  pub collect-share :
      (self : CpuStatMonitor D) (t : Ticks)
      → Fits (advance self.prev t)
      → 0 < elapsed t
      → elapsed t < 2 ^ 64
      → collect_raw self (advance self.prev t) ≡ record {
        pct = record {
          user = share t.user (elapsed t);
          system = share t.system (elapsed t);
          idle = share t.idle (elapsed t);
          iowait = share t.iowait (elapsed t);
          steal = share t.steal (elapsed t);
          softirq = share t.softirq (elapsed t);
        };
        prev = advance self.prev t;
      }
  unfolding collect_raw
  collect-share self t f h k =
      let not_zero : (elapsed t == 0) ≡ false = ground arith in
      rw (total-advance self.prev t k) (
        rw not_zero (
          rw
            (
              calc-share (elapsed t) self.prev.user t.user f.user,
              calc-share (elapsed t) self.prev.system t.system f.system,
              calc-share (elapsed t) self.prev.idle t.idle f.idle,
              calc-share (elapsed t) self.prev.iowait t.iowait f.iowait,
              calc-share (elapsed t) self.prev.steal t.steal f.steal,
              calc-share (elapsed t) self.prev.softirq t.softirq f.softirq,
            )
            refl))
