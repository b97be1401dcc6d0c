-- ===== src/Worker/Pusher/Scraped.antt =====
-- From the samples of the kernel to the page that Prometheus reads.
use perf_monitor.Prelude.{
  ℕ, ◌≡◌, refl, sym, ap, ◌∙◌, true, List, [], ◌∷◌, ◌++◌, Option, some, append_assoc, length,
}
use perf_monitor.Prelude.Int.{ℤ, pos}
use perf_monitor.Text.{Bytes, codes, str_eq, str_eq_refl, ◌<<◌}
use perf_monitor.Text.Decimal.{to_string, to_string_ℕ}
use perf_monitor.Text.Stream.{Stream}
use perf_monitor.Double.{Double}
use perf_monitor.Table.{lookup, bytes_eq, lookup-insert}
use perf_monitor.Message.{MonitorInfo}
use perf_monitor.Host.{HostSnapshot, Hosts, or_empty, renewed, get, update}
use perf_monitor.Rpc.{set_monitor_info, snapshot_of}
use perf_monitor.Rpc.Stored.{wrapped, sum_by}
use perf_monitor.Exporter.Metrics.{prometheus_metrics}
use perf_monitor.Exporter.Metrics.Exposition.{
  Gauge, exposition, exposition-append, braced, metric, observed_gauges,
}
use perf_monitor.Exporter.Metrics.Observed.{prometheus_metrics-observed}
use perf_monitor.Exporter.Request.{received, parse_request, serve}
use perf_monitor.Exporter.Request.Framing.{body_of, measured, page, serve-Frames}
use perf_monitor.Worker.Observe.{BpfFlowEvent, process_event_size, flow_event_size}
use perf_monitor.Worker.System.{System, World}
use perf_monitor.Worker.Pusher.{MonitorPusher, Readings, push}
use perf_monitor.Worker.Pusher.Delivered.{whole, starts, ends, IsCounted, delivered}

-- A counter of a host on the page
abbrev pub counter : Bytes → Bytes → Bytes → ℤ → Gauge
counter name help host n = record {
  name = name;
  help = help;
  labels = braced (codes "host=\"" << host << codes "\"");
  value = to_string n;
}

-- The counters of the samples that a worker read
abbrev pub counters : Bytes → Readings → List Gauge
counters host readings =
    let processes = whole process_event_size readings.processes in
    let flows = whole flow_event_size readings.flows in
    counter (codes "monitor_observe_proc_exec") (codes "Process exec events (cumulative)") host
      (pos (starts processes))
    ∷ counter (codes "monitor_observe_proc_exit") (codes "Process exit events (cumulative)") host
        (pos (ends processes))
    ∷ counter (codes "monitor_observe_tcp_flows") (codes "Active TCP flows tracked") host
        (pos (length flows))
    ∷ counter (codes "monitor_observe_tcp_bytes_sent") (codes "TCP bytes sent (cumulative)") host
        (wrapped (sum_by (λ (raw : BpfFlowEvent). raw.bytes_sent) flows))
    ∷ counter (codes "monitor_observe_tcp_bytes_recv") (codes "TCP bytes received (cumulative)")
        host (wrapped (sum_by (λ (raw : BpfFlowEvent). raw.bytes_recv) flows))
    ∷ []

module _ {D : Type 0} ⦃d : Double D⦄ where
  -- The host of a report is there, under its name.
  reported :
      (hosts : Hosts D) (now : ℤ) (info : MonitorInfo D)
      → let after = (set_monitor_info hosts now info).0 in
        (snap : HostSnapshot D) × (lookup info.hostname after ≡ some snap)
        × (snap.hostname ≡ info.hostname)
        × (get after info.hostname ≡ snap)
  unfolding set_monitor_info update renewed get
  reported hosts now info =
      let name = info.hostname in
      let snap = renewed (get hosts name) name (snapshot_of now info) in
      let found : lookup name (update hosts name (snapshot_of now info)) ≡ some snap =
        lookup-insert name name snap hosts ∙ rw (str_eq_refl name) refl in
      (snap, found, refl, ap or_empty found)

  observed-counters :
      (hosts : Hosts D) (now : ℤ) (info : MonitorInfo D) (readings : Readings)
      (snap : HostSnapshot D)
      → IsCounted hosts readings now info
      → snap.hostname ≡ info.hostname
      → get (set_monitor_info hosts now info).0 info.hostname ≡ snap
      → (last : Gauge) × (observed_gauges snap ≡ counters info.hostname readings ++ last ∷ [])
  observed-counters hosts now info readings snap c named same =
      let count = codes "monitor_diagnose_event_count" in
      let help = codes "Total diagnose records kept" in
      let last = metric count help snap (to_string_ℕ (length snap.diagnose_events)) in
      let exec = ap (λ s. s.proc_exec_count) (sym same) ∙ c.exec in
      let exit = ap (λ s. s.proc_exit_count) (sym same) ∙ c.exit in
      let flows = ap (λ s. s.tcp_flow_count) (sym same) ∙ c.flows in
      let out = ap (λ s. s.tcp_bytes_sent) (sym same) ∙ c.bytes_sent in
      let back = ap (λ s. s.tcp_bytes_recv) (sym same) ∙ c.bytes_recv in
      (last, rw (named, exec, exit, flows, out, back) refl)

module _ {D : Type 0} ⦃d : Double D⦄ (os : System) (extract_double : D → Stream → D × Stream)
    (inet_ntop : ℕ → Bytes) (stat : Bytes → Option ℕ) (run_pipeline : Bytes → Bytes) where
  page-metrics :
      (hosts : Hosts D) (path query : Bytes)
      → path ≡ codes "/metrics"
      → page stat run_pipeline hosts path query ≡ measured (prometheus_metrics hosts)
  unfolding codes str_eq
  page-metrics hosts path query e = rw e refl

  -- A connected worker whose buffers are empty makes a round. Once the manager has handled its
  -- message, the response to a request for /metrics has, in the body that a client finds in it, the
  -- five observe counters of the host, one behind the other: the process starts and ends, the flows
  -- and their bytes modulo 2^64, of the kernel's samples of that round that are not too short.
  pub scraped :
      (self : MonitorPusher D) (readings : Readings) (w : World) (hosts : Hosts D) (now : ℤ)
      (bytes : Bytes)
      → self.connected ≡ true
      → self.observer.process_events ≡ []
      → self.observer.flow_events ≡ []
      → (parse_request (received bytes)).0 ≡ codes "/metrics"
      → (info : MonitorInfo D) × ((push os extract_double inet_ntop self readings w).0.1
          ≡ some info)
        × (before : Bytes) × (after : Bytes) × (body_of
              (serve stat run_pipeline (set_monitor_info hosts now info).0 bytes)
            ≡ some (before ++ (exposition (counters info.hostname readings) ++ after)))
  scraped self readings w hosts now bytes connected p f path =
      let (info, message, counts, _, _) =
        delivered os extract_double inet_ntop self readings w hosts now connected p f in
      let after = (set_monitor_info hosts now info).0 in
      let (snap, found, named, same) = reported hosts now info in
      let (last, rows) = observed-counters hosts now info readings snap counts named same in
      let (before, rest, text) = prometheus_metrics-observed after info.hostname snap found in
      let (asked, query) = parse_request (received bytes) in
      let own = exposition (counters info.hostname readings) in
      let ordered =
        ap (λ l. exposition l ++ rest) rows
        ∙ ap (λ t. t ++ rest) (exposition-append (counters info.hostname readings) (last ∷ []))
        ∙ append_assoc own (exposition (last ∷ [])) rest in
      (
        info,
        message,
        before,
        exposition (last ∷ []) ++ rest,
        (serve-Frames stat run_pipeline after bytes).0
            ∙ ap (λ q. some q.0) (page-metrics after asked query path)
            ∙ ap some (text ∙ ap (λ t. before ++ t) ordered),
      )
