-- ===== src/Exporter/Metrics.antt =====
-- `prometheus_metrics` of manager/src/rpc/metrics_exporter.cpp.
pub mod Exposition
pub mod Observed
use perf_monitor.Prelude.{List, [], ◌∷◌, length}
use perf_monitor.Text.{Bytes, codes, ◌<<◌}
use perf_monitor.Text.Decimal.{to_string, to_string_ℕ}
use perf_monitor.Double.{Double}
use perf_monitor.Host.{DiagnoseRecord, HostSnapshot, Hosts, get_all}

module _ {D : Type 0} ⦃d : Double D⦄ where
  open d use {show}

  unfoldable pub diagnose_label : Bytes → DiagnoseRecord D → Bytes
  diagnose_label hostname de =
      codes "host=\""
      << hostname
      << codes "\",type=\""
      << de.type
      << codes "\",process=\""
      << de.process_name
      << codes "\",file=\""
      << de.file_path
      << codes "\""

  unfoldable pub diagnose_metrics : Bytes → List (DiagnoseRecord D) → Bytes
  unfolding diagnose_label
  diagnose_metrics hostname [] = []
  diagnose_metrics hostname (de ∷ rest) =
      codes "# HELP monitor_diagnose_event Diagnose event CPU%% at trigger\n"
      << codes "# TYPE monitor_diagnose_event gauge\n"
      << codes "monitor_diagnose_event{"
      << diagnose_label hostname de
      << codes "} "
      << show de.cpu_percent
      << codes "\n"
      << diagnose_metrics hostname rest

  -- The samples of the load, the processor, the memory, the disk and the network.
  unfoldable pub host_system : HostSnapshot D → Bytes → Bytes → Bytes
  host_system h label rest =
      codes "# HELP monitor_host_health_score Host health score 0-100\n"
      << codes "# TYPE monitor_host_health_score gauge\n"
      << codes "monitor_host_health_score{"
      << label
      << codes "} "
      << show h.health_score
      << codes "\n"
      << codes "# HELP monitor_cpu_load_1m CPU load 1-minute average\n"
      << codes "# TYPE monitor_cpu_load_1m gauge\n"
      << codes "monitor_cpu_load_1m{"
      << label
      << codes "} "
      << show h.load_1m
      << codes "\n"
      << codes "# HELP monitor_cpu_used_pct CPU usage percentage\n"
      << codes "# TYPE monitor_cpu_used_pct gauge\n"
      << codes "monitor_cpu_used_pct{"
      << label
      << codes "} "
      << show h.cpu_used_pct
      << codes "\n"
      << codes "# HELP monitor_mem_used_pct Memory usage percentage\n"
      << codes "# TYPE monitor_mem_used_pct gauge\n"
      << codes "monitor_mem_used_pct{"
      << label
      << codes "} "
      << show h.mem_used_pct
      << codes "\n"
      << codes "# HELP monitor_disk_iops Disk IOPS\n"
      << codes "# TYPE monitor_disk_iops gauge\n"
      << codes "monitor_disk_iops{"
      << label
      << codes "} "
      << show h.disk_iops
      << codes "\n"
      << codes "# HELP monitor_net_rx_mbps Network RX Mbps\n"
      << codes "# TYPE monitor_net_rx_mbps gauge\n"
      << codes "monitor_net_rx_mbps{"
      << label
      << codes "} "
      << show h.net_rx_mbps
      << codes "\n"
      << codes "# HELP monitor_net_tx_mbps Network TX Mbps\n"
      << codes "# TYPE monitor_net_tx_mbps gauge\n"
      << codes "monitor_net_tx_mbps{"
      << label
      << codes "} "
      << show h.net_tx_mbps
      << codes "\n"
      << rest

  -- The samples of the observe counters and of the diagnose events.
  unfoldable pub host_observed : HostSnapshot D → Bytes → Bytes → Bytes
  host_observed h label rest =
      codes "# HELP monitor_observe_proc_exec Process exec events (cumulative)\n"
      << codes "# TYPE monitor_observe_proc_exec gauge\n"
      << codes "monitor_observe_proc_exec{"
      << label
      << codes "} "
      << to_string h.proc_exec_count
      << codes "\n"
      << codes "# HELP monitor_observe_proc_exit Process exit events (cumulative)\n"
      << codes "# TYPE monitor_observe_proc_exit gauge\n"
      << codes "monitor_observe_proc_exit{"
      << label
      << codes "} "
      << to_string h.proc_exit_count
      << codes "\n"
      << codes "# HELP monitor_observe_tcp_flows Active TCP flows tracked\n"
      << codes "# TYPE monitor_observe_tcp_flows gauge\n"
      << codes "monitor_observe_tcp_flows{"
      << label
      << codes "} "
      << to_string h.tcp_flow_count
      << codes "\n"
      << codes "# HELP monitor_observe_tcp_bytes_sent TCP bytes sent (cumulative)\n"
      << codes "# TYPE monitor_observe_tcp_bytes_sent gauge\n"
      << codes "monitor_observe_tcp_bytes_sent{"
      << label
      << codes "} "
      << to_string h.tcp_bytes_sent
      << codes "\n"
      << codes "# HELP monitor_observe_tcp_bytes_recv TCP bytes received (cumulative)\n"
      << codes "# TYPE monitor_observe_tcp_bytes_recv gauge\n"
      << codes "monitor_observe_tcp_bytes_recv{"
      << label
      << codes "} "
      << to_string h.tcp_bytes_recv
      << codes "\n"
      << codes "# HELP monitor_diagnose_event_count Total diagnose records kept\n"
      << codes "# TYPE monitor_diagnose_event_count gauge\n"
      << codes "monitor_diagnose_event_count{"
      << label
      << codes "} "
      << to_string_ℕ (length h.diagnose_events)
      << codes "\n"
      << rest

  unfoldable pub host_metrics : HostSnapshot D → Bytes
  unfolding host_system host_observed
  host_metrics h =
      let label = codes "host=\"" << h.hostname << codes "\"" in
      host_system h label (host_observed h label (diagnose_metrics h.hostname h.diagnose_events))

  unfoldable pub all_metrics : List (HostSnapshot D) → Bytes
  all_metrics [] = []
  all_metrics (h ∷ rest) = host_metrics h << all_metrics rest

  unfoldable pub prometheus_metrics : Hosts D → Bytes
  prometheus_metrics hosts =
      let snapshots = get_all hosts in
      codes "# HELP monitor_host_count Number of active hosts\n"
      << codes "# TYPE monitor_host_count gauge\n"
      << codes "monitor_host_count "
      << to_string_ℕ (length snapshots)
      << codes "\n"
      << all_metrics snapshots
