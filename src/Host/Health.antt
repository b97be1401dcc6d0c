-- ===== src/Host/Health.antt =====
-- The health score of manager/src/host_manager.cpp.
use perf_monitor.Prelude.{ℕ, ◌<◌, ◌≡◌, false, arith, if◌then◌else◌}
use perf_monitor.Double.{Double, IsOrdered, ◌≼◌, exact_limit}
use perf_monitor.Host.{HostSnapshot, penalise, compute_health}

module _ {D : Type 0} ⦃d : Double D⦄ (laws : IsOrdered D) where
  open d use {of_ℕ, sub, mul, lt}
  open laws use {le_of_lt, of_ℕ_le, of_ℕ_lt, sub_le, sub_nonneg, mul_nonneg}

  penalise-le :
      (score x : D) (limit weight : ℕ)
      → 0 < weight
      → weight < exact_limit
      → score ≼ of_ℕ 100
      → penalise score x limit weight ≼ of_ℕ 100
  unfolding penalise
  penalise-le score x limit weight p q h =
      let over = sub x (of_ℕ limit) in
      ground (
        arith,
        sub_nonneg x (of_ℕ limit),
        mul_nonneg over weight p q,
        sub_le score (mul over (of_ℕ weight)) 100,
      )

  floor_bounds :
      (score : D)
      → score ≼ of_ℕ 100
      → let kept = if lt (of_ℕ 0) score then score else of_ℕ 0 in
        (of_ℕ 0 ≼ kept) × (kept ≼ of_ℕ 100)
  floor_bounds score h = ground (
    arith,
    le_of_lt (of_ℕ 0) score,
    of_ℕ_le 0 0 (omega arith) (omega arith),
    of_ℕ_le 0 100 (omega arith) (omega arith),
  )

  drops-le :
      (score dropped : D)
      → score ≼ of_ℕ 100
      → (if lt (of_ℕ 100) dropped then sub score (of_ℕ 10) else score) ≼ of_ℕ 100
  drops-le score dropped h =
      ground (
        arith,
        sub_le score (of_ℕ 10) 100 (omega arith) h,
        of_ℕ_le 0 10 (omega arith) (omega arith),
      )

  -- The health score lies between 0 and 100, whatever the metrics are (a NaN, an infinity or a
  -- negative number included).
  pub compute_health_bounds :
      (snap : HostSnapshot D) → (of_ℕ 0 ≼ compute_health snap) × (compute_health snap ≼ of_ℕ 100)
  unfolding compute_health
  compute_health_bounds snap =
      let whole = of_ℕ_le 100 100 (omega arith) (omega arith) in
      let loaded = penalise-le (of_ℕ 100) snap.load_1m 8 5 (omega arith) (omega arith) whole in
      let busy = penalise-le _ snap.cpu_used_pct 90 2 (omega arith) (omega arith) loaded in
      let full = penalise-le _ snap.mem_used_pct 85 2 (omega arith) (omega arith) busy in
      floor_bounds _ (drops-le _ snap.net_rx_dropped full)

  -- No metric is above its threshold.
  pub record IsCalm (snap : HostSnapshot D) : Type 0 where
    pub load : lt (of_ℕ 8) snap.load_1m ≡ false
    pub cpu : lt (of_ℕ 90) snap.cpu_used_pct ≡ false
    pub mem : lt (of_ℕ 85) snap.mem_used_pct ≡ false
    pub drops : lt (of_ℕ 100) snap.net_rx_dropped ≡ false

  calm-health : (snap : HostSnapshot D) → IsCalm snap → compute_health snap ≡ of_ℕ 100
  unfolding compute_health penalise
  calm-health snap c = ground (arith, of_ℕ_lt 0 100 (omega arith) (omega arith))
