-- ===== src/Exporter/Metrics/Exposition.antt =====
-- The text of `prometheus_metrics` as samples in the exposition format.
use perf_monitor.Prelude.{◌≡◌, refl, sym, ap, ◌∙◌, List, [], ◌∷◌, ◌++◌, length, map, append_assoc}
use perf_monitor.Text.{Bytes, codes, ◌<<◌}
use perf_monitor.Text.Decimal.{to_string, to_string_ℕ}
use perf_monitor.Double.{Double}
use perf_monitor.Host.{DiagnoseRecord, HostSnapshot, Hosts, get_all}
use perf_monitor.Exporter.Metrics.{
  diagnose_label, diagnose_metrics, host_system, host_observed, host_metrics, all_metrics,
  prometheus_metrics,
}

-- One sample: the metric's name and help, the labels in braces, and the value.
pub record Gauge : Type 0 where
  pub name : Bytes
  pub help : Bytes
  pub labels : Bytes
  pub value : Bytes

-- A sample behind its HELP and TYPE lines.
abbrev pub gauge_text : Gauge → Bytes
gauge_text g =
    codes "# HELP "
    << g.name
    << codes " "
    << g.help
    << codes "\n# TYPE "
    << g.name
    << codes " gauge\n"
    << g.name
    << g.labels
    << codes " "
    << g.value
    << codes "\n"

abbrev pub exposition : List Gauge → Bytes
exposition [] = []
exposition (g ∷ gs) = gauge_text g ++ exposition gs

pub exposition-append :
    (gs hs : List Gauge) → exposition (gs ++ hs) ≡ exposition gs ++ exposition hs
exposition-append [] hs = refl
exposition-append (g ∷ gs) hs =
    ap (◌++◌ (gauge_text g)) (exposition-append gs hs)
    ∙ sym (append_assoc (gauge_text g) (exposition gs) (exposition hs))

abbrev pub braced : Bytes → Bytes
braced labels = codes "{" << labels << codes "}"

module _ {D : Type 0} ⦃d : Double D⦄ where
  open d use {show}

  abbrev pub host_label : HostSnapshot D → Bytes
  host_label h = codes "host=\"" << h.hostname << codes "\""

  abbrev pub metric : Bytes → Bytes → HostSnapshot D → Bytes → Gauge
  metric name help h value = record {
    name = name;
    help = help;
    labels = braced (host_label h);
    value = value;
  }

  abbrev pub system_gauges : HostSnapshot D → List Gauge
  system_gauges h =
      metric (codes "monitor_host_health_score") (codes "Host health score 0-100") h
        (show h.health_score)
      ∷ metric (codes "monitor_cpu_load_1m") (codes "CPU load 1-minute average") h (show h.load_1m)
      ∷ metric (codes "monitor_cpu_used_pct") (codes "CPU usage percentage") h (show h.cpu_used_pct)
      ∷ metric (codes "monitor_mem_used_pct") (codes "Memory usage percentage") h
          (show h.mem_used_pct)
      ∷ metric (codes "monitor_disk_iops") (codes "Disk IOPS") h (show h.disk_iops)
      ∷ metric (codes "monitor_net_rx_mbps") (codes "Network RX Mbps") h (show h.net_rx_mbps)
      ∷ metric (codes "monitor_net_tx_mbps") (codes "Network TX Mbps") h (show h.net_tx_mbps)
      ∷ []

  abbrev pub observed_gauges : HostSnapshot D → List Gauge
  observed_gauges h =
      metric (codes "monitor_observe_proc_exec") (codes "Process exec events (cumulative)") h
        (to_string h.proc_exec_count)
      ∷ metric (codes "monitor_observe_proc_exit") (codes "Process exit events (cumulative)") h
          (to_string h.proc_exit_count)
      ∷ metric (codes "monitor_observe_tcp_flows") (codes "Active TCP flows tracked") h
          (to_string h.tcp_flow_count)
      ∷ metric (codes "monitor_observe_tcp_bytes_sent") (codes "TCP bytes sent (cumulative)") h
          (to_string h.tcp_bytes_sent)
      ∷ metric (codes "monitor_observe_tcp_bytes_recv") (codes "TCP bytes received (cumulative)") h
          (to_string h.tcp_bytes_recv)
      ∷ metric (codes "monitor_diagnose_event_count") (codes "Total diagnose records kept") h
          (to_string_ℕ (length h.diagnose_events))
      ∷ []

  abbrev pub diagnose_gauge : Bytes → DiagnoseRecord D → Gauge
  diagnose_gauge hostname de = record {
    name = codes "monitor_diagnose_event";
    help = codes "Diagnose event CPU%% at trigger";
    labels = braced (diagnose_label hostname de);
    value = show de.cpu_percent;
  }

  host_system-gauges :
      (h : HostSnapshot D) (rest : Bytes)
      → host_system h (host_label h) rest ≡ exposition (system_gauges h) ++ rest
  unfolding host_system codes
  host_system-gauges h rest = simp append_assoc

  host_observed-gauges :
      (h : HostSnapshot D) (rest : Bytes)
      → host_observed h (host_label h) rest ≡ exposition (observed_gauges h) ++ rest
  unfolding host_observed codes
  host_observed-gauges h rest = simp append_assoc

  diagnose_metrics-gauges :
      (hostname : Bytes) (events : List (DiagnoseRecord D))
      → diagnose_metrics hostname events ≡ exposition (map (diagnose_gauge hostname) events)
  unfolding diagnose_metrics diagnose_label codes
  diagnose_metrics-gauges hostname [] = refl
  diagnose_metrics-gauges hostname (de ∷ rest) =
      simp (append_assoc, diagnose_metrics-gauges hostname rest)

  -- The samples of one host: a fixed table of its numbers, then one for each diagnose event.
  abbrev pub host_gauges : HostSnapshot D → List Gauge
  host_gauges h =
      system_gauges h ++ (observed_gauges h ++ map (diagnose_gauge h.hostname) h.diagnose_events)

  abbrev pub gauges : List (HostSnapshot D) → List Gauge
  gauges [] = []
  gauges (h ∷ hs) = host_gauges h ++ gauges hs

  host_metrics-gauges : (h : HostSnapshot D) → host_metrics h ≡ exposition (host_gauges h)
  unfolding host_metrics
  host_metrics-gauges h =
      let observed = observed_gauges h in
      let diagnosed = map (diagnose_gauge h.hostname) h.diagnose_events in
      host_system-gauges h _
      ∙ ap (◌++◌ (exposition (system_gauges h))) (
          host_observed-gauges h _
          ∙ ap (◌++◌ (exposition observed)) (diagnose_metrics-gauges h.hostname h.diagnose_events)
          ∙ sym (exposition-append observed diagnosed))
      ∙ sym (exposition-append (system_gauges h) (observed ++ diagnosed))

  all_metrics-gauges : (hs : List (HostSnapshot D)) → all_metrics hs ≡ exposition (gauges hs)
  unfolding all_metrics
  all_metrics-gauges [] = refl
  all_metrics-gauges (h ∷ hs) =
      ap (◌++◌ (host_metrics h)) (all_metrics-gauges hs)
      ∙ ap (λ t. t ++ exposition (gauges hs)) (host_metrics-gauges h)
      ∙ sym (exposition-append (host_gauges h) (gauges hs))

  abbrev pub count_gauge : List (HostSnapshot D) → Gauge
  count_gauge hs = record {
    name = codes "monitor_host_count";
    help = codes "Number of active hosts";
    labels = [];
    value = to_string_ℕ (length hs);
  }

  -- The metrics page is a list of samples in the exposition format, each behind HELP and TYPE lines
  -- with its own name: the number of hosts, and for each host its thirteen numbers under their
  -- names and one sample for each diagnose event that is kept.
  pub prometheus_metrics-exposition :
      (hosts : Hosts D)
      → let hs = get_all hosts in prometheus_metrics hosts ≡ exposition (count_gauge hs ∷ gauges hs)
  unfolding prometheus_metrics codes
  prometheus_metrics-exposition hosts = simp (append_assoc, all_metrics-gauges (get_all hosts))
