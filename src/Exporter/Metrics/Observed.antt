-- ===== src/Exporter/Metrics/Observed.antt =====
-- Where a host stands in the text of `prometheus_metrics`.
use perf_monitor.Prelude.{
  ◌≡◌, refl, sym, ap, ◌∙◌, List, [], ◌∷◌, ◌++◌, some, append_assoc, map, Bool-cases, inl, inr,
}
use perf_monitor.Text.{Bytes, str_eq}
use perf_monitor.Double.{Double}
use perf_monitor.Table.{lookup, bytes_eq}
use perf_monitor.Host.{HostSnapshot, Hosts, get_all}
use perf_monitor.Exporter.Metrics.{prometheus_metrics}
use perf_monitor.Exporter.Metrics.Exposition.{
  Gauge, exposition, exposition-append, observed_gauges, system_gauges, host_gauges, gauges,
  count_gauge, diagnose_gauge, prometheus_metrics-exposition,
}

regroup : (a s o m g : List Gauge) → a ++ ((s ++ (o ++ m)) ++ g) ≡ (a ++ s) ++ (o ++ (m ++ g))
regroup a s o m g = simp append_assoc

module _ {D : Type 0} ⦃d : Double D⦄ where
  get_all-split :
      (hosts : Hosts D) (name : Bytes) (snap : HostSnapshot D)
      → lookup name hosts ≡ some snap
      → (before : List (HostSnapshot D)) × (after : List (HostSnapshot D)) × (get_all hosts
          ≡ before ++ snap ∷ after)
  unfolding lookup get_all
  get_all-split [] name snap h = absurd (cc)
  get_all-split ((host, s) ∷ hosts) name snap h = elim (Bool-cases (str_eq host name)) [
    | inl same ↦
        let e : s ≡ snap = cc (rw same at h) in ([], get_all hosts, ap (λ x. x ∷ get_all hosts) e)
    | inr other ↦
        let (before, after, e) = get_all-split hosts name snap (rw other at h) in
        (s ∷ before, after, ap (λ l. s ∷ l) e)
  ]

  gauges-append : (xs ys : List (HostSnapshot D)) → gauges (xs ++ ys) ≡ gauges xs ++ gauges ys
  gauges-append [] ys = refl
  gauges-append (x ∷ xs) ys =
      ap (λ l. host_gauges x ++ l) (gauges-append xs ys)
      ∙ sym (append_assoc (host_gauges x) (gauges xs) (gauges ys))

  -- The page has the observe counters of every host that is there, one behind the other.
  pub prometheus_metrics-observed :
      (hosts : Hosts D) (name : Bytes) (snap : HostSnapshot D)
      → lookup name hosts ≡ some snap
      → (before : Bytes) × (after : Bytes) × (prometheus_metrics hosts
          ≡ before ++ (exposition (observed_gauges snap) ++ after))
  prometheus_metrics-observed hosts name snap h =
      let (xs, ys, e) = get_all-split hosts name snap h in
      let rest = map (diagnose_gauge snap.hostname) snap.diagnose_events ++ gauges ys in
      let before = count_gauge (get_all hosts) ∷ (gauges xs ++ system_gauges snap) in
      let observed = observed_gauges snap in
      let diagnosed = map (diagnose_gauge snap.hostname) snap.diagnose_events in
      let first = count_gauge (get_all hosts) in
      let parts : first ∷ gauges (get_all hosts) ≡ before ++ (observed ++ rest) =
        ap (λ l. first ∷ gauges l) e
        ∙ ap (λ l. first ∷ l)
            (gauges-append xs (snap ∷ ys)
              ∙ regroup (gauges xs) (system_gauges snap) observed diagnosed (gauges ys)) in
      (
        exposition before,
        exposition rest,
        prometheus_metrics-exposition hosts
            ∙ ap exposition parts
            ∙ exposition-append before (observed ++ rest)
            ∙ ap (λ t. exposition before ++ t) (exposition-append observed rest),
      )
