-- ===== src/Worker/Monitor/CpuStat.antt =====
-- worker/src/monitor/cpu_stat_monitor.cpp and the structs of worker/include/monitor.
use perf_monitor.Prelude.{ℕ, ◌+◌, ◌%◌, ◌^◌, List, [], ◌∷◌, ◌==◌, if◌then◌else◌, drop}
use perf_monitor.Prelude.Int.{pos, ◌-ℤ◌, ltb_ℤ, to_i64}
use perf_monitor.Text.{Bytes, codes, starts_with}
use perf_monitor.Text.Stream.{lines, stream, extract}
use perf_monitor.Double.{Double}
use perf_monitor.Worker.Monitor.{sub_u64}

pub record CpuStatRaw : Type 0 where
  pub user : ℕ
  pub nice : ℕ
  pub system : ℕ
  pub idle : ℕ
  pub iowait : ℕ
  pub irq : ℕ
  pub softirq : ℕ
  pub steal : ℕ

pub record CpuStatPct (D : Type 0) : Type 0 where
  pub user : D
  pub system : D
  pub idle : D
  pub iowait : D
  pub steal : D
  pub softirq : D

pub record CpuStatMonitor (D : Type 0) : Type 0 where
  pub pct : CpuStatPct D
  pub prev : CpuStatRaw

-- `CpuStatRaw cur;`
abbrev pub no_raw : CpuStatRaw
no_raw = record {
  user = 0;
  nice = 0;
  system = 0;
  idle = 0;
  iowait = 0;
  irq = 0;
  softirq = 0;
  steal = 0;
}

unfoldable pub total : CpuStatRaw → ℕ
total r = (r.user + r.nice + r.system + r.idle + r.iowait + r.irq + r.softirq + r.steal) % 2 ^ 64

-- `ls >> r.user >> r.nice >> ...`
unfoldable pub read_counters : CpuStatRaw → Bytes → CpuStatRaw
unfolding extract
read_counters r s =
    let (user, s1) = extract r.user (stream s) in
    let (nice, s2) = extract r.nice s1 in
    let (system, s3) = extract r.system s2 in
    let (idle, s4) = extract r.idle s3 in
    let (iowait, s5) = extract r.iowait s4 in
    let (irq, s6) = extract r.irq s5 in
    let (softirq, s7) = extract r.softirq s6 in
    let (steal, s8) = extract r.steal s7 in
    record {
      user = user;
      nice = nice;
      system = system;
      idle = idle;
      iowait = iowait;
      irq = irq;
      softirq = softirq;
      steal = steal;
    }

-- The loop over the lines, which ends at the first that begins with `cpu `.
unfoldable pub read_stat : CpuStatRaw → List Bytes → CpuStatRaw
unfolding read_counters
read_stat r [] = r
read_stat r (line ∷ rest) =
    let later = read_stat r rest in
    if starts_with line (codes "cpu ") then read_counters r (drop 4 line) else later

module _ {D : Type 0} ⦃d : Double D⦄ where
  open d use {of_ℕ, of_ℤ, mul, div}

  unfoldable pub init : CpuStatMonitor D → Bytes → CpuStatMonitor D
  unfolding read_stat
  init self content = record self { prev = read_stat self.prev (lines content) }

  -- `calc`, at the difference of the totals
  unfoldable pub calc : ℕ → ℕ → ℕ → D
  calc total_delta val prev =
      let diff = to_i64 val -ℤ to_i64 prev in
      if ltb_ℤ diff (pos 0) then of_ℕ 0 else div (mul (of_ℕ 100) (of_ℤ diff)) (of_ℕ total_delta)

  -- `Collect`, from the counters on
  unfoldable pub collect_raw : CpuStatMonitor D → CpuStatRaw → CpuStatMonitor D
  collect_raw self cur =
      let total_delta = sub_u64 (total cur) (total self.prev) in
      let calc_at : ℕ → ℕ → D = calc total_delta in
      if total_delta == 0 then self else record {
        pct = record {
          user = calc_at cur.user self.prev.user;
          system = calc_at cur.system self.prev.system;
          idle = calc_at cur.idle self.prev.idle;
          iowait = calc_at cur.iowait self.prev.iowait;
          steal = calc_at cur.steal self.prev.steal;
          softirq = calc_at cur.softirq self.prev.softirq;
        };
        prev = cur;
      }

  unfoldable pub collect : CpuStatMonitor D → Bytes → CpuStatMonitor D
  unfolding collect_raw read_stat
  collect self content = collect_raw self (read_stat no_raw (lines content))
