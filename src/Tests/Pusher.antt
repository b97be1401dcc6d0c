-- ===== src/Tests/Pusher.antt =====
-- One round of a worker whose report goes to the manager.
use perf_monitor.Prelude.{ℕ, ◌≡◌, refl, true, false, [], ◌∷◌, ◌++◌, Option, none, some}
use perf_monitor.Prelude.Int.{ℤ, pos}
use perf_monitor.Text.{Bytes, codes, find, find_char, rfind_char, starts_with}
use perf_monitor.Text.Stream.{Stream}
use perf_monitor.Double.Exact.{exact_double}
use perf_monitor.Message.{MonitorInfo}
use perf_monitor.Tests.Manager.{web, held}
use perf_monitor.Rpc.{set_monitor_info}
use perf_monitor.Exporter.Request.{received, parse_request, serve}
use perf_monitor.Exporter.Request.Framing.{body_of}
use perf_monitor.Exporter.Metrics.Exposition.{exposition}
use perf_monitor.Worker.Pusher.Scraped.{counters, scraped}
use perf_monitor.Worker.Monitor.Collector.{MetricCollector}
use perf_monitor.Worker.Runner.{new_runner}
use perf_monitor.Worker.Perf.{PerfDiagnoser}
use perf_monitor.Worker.Observe.{BpfProcessEvent, BpfFlowEvent}
use perf_monitor.Worker.Pusher.{MonitorPusher, Readings, push}
use perf_monitor.Worker.Pusher.Delivered.{IsCounted, delivered}
use perf_monitor.Tests.Worker.{machine, bpf, quiet, cpu, net}

abbrev pub metrics : MetricCollector ℤ
metrics = record {
  host = record { hostname = web; ip = [] };
  cpu_load = record { load_1m = pos 1; load_5m = pos 1; load_15m = pos 1; nr_cores = pos 4 };
  cpu_stat = cpu;
  mem = record {
    total_gb = pos 8;
    used_gb = pos 2;
    free_gb = pos 4;
    available_gb = pos 5;
    cached_gb = pos 1;
    buffers_gb = pos 1;
    swap_total_gb = pos 0;
    swap_used_gb = pos 0;
    used_pct = pos 25;
  };
  disk = record { disks = []; prev_map = [] };
  net = net;
}

abbrev pub perf : PerfDiagnoser ℤ
perf = record {
  events = [];
  output_dir = b'/' ∷ b't' ∷ [];
  perf_bin = b'p' ∷ [];
  cpu_threshold_pct = pos 80;
  overflow_duration_s = pos 10;
  limit_file_num = pos 3;
  target_processes = web ∷ [];
  target_threads = [];
  perf_runner = new_runner;
  pending_ev = record {
    pending = false;
    type = [];
    process_name = [];
    file_path = [];
    timestamp = pos 0;
    cpu_percent = pos 0;
  };
  triggered_tags = [];
  overflow_timers = [];
  prev_samples = [];
  prev_wall = 0;
}

abbrev pub pusher : MonitorPusher ℤ
pusher = record {
  metrics = metrics;
  observer = record { process_events = []; flow_events = [] };
  bpf_diagnoser = bpf;
  perf_diagnoser = perf;
  connected = true;
}

abbrev process_of : ℕ → BpfProcessEvent
process_of kind = record {
  pid = 7;
  ppid = 1;
  comm = web;
  filename = [];
  event_type = kind;
  ts_ns = 5;
}

abbrev flow : BpfFlowEvent
flow = record {
  pid = 7;
  comm = web;
  ppid_comm = [];
  exe = [];
  saddr = 1;
  daddr = 2;
  sport = 80;
  dport = 81;
  family = 2;
  protocol = 6;
  state = 1;
  bytes_sent = 1000;
  bytes_recv = 24;
  connect_latency_ns = 0;
  start_ns = 1;
  last_ns = 2;
}

-- The third process sample is too short.
abbrev pub readings : Readings
readings = record {
  text = record { loadavg = []; stat = []; meminfo = []; diskstats = []; net_dev = [] };
  processes = (168, process_of 0) ∷ (168, process_of 1) ∷ (8, process_of 0) ∷ [];
  flows = (248, flow) ∷ [];
}

abbrev pub no_double : ℤ → Stream → ℤ × Stream
no_double old s = (old, s)

abbrev pub dotted : ℕ → Bytes
dotted n = b'1' ∷ []

delivered_example :
    let (after, message) = (push machine no_double dotted pusher readings quiet).0 in
    (info : MonitorInfo ℤ) × (message ≡ some info)
    × IsCounted held readings (pos 9) info
    × (after.observer.process_events ≡ [])
    × (after.observer.flow_events ≡ [])
delivered_example =
    delivered machine no_double dotted pusher readings quiet held (pos 9) refl refl refl

abbrev pub scrape : Bytes
scrape = codes "GET /metrics HTTP/1.1\r\n\r\n"

abbrev pub no_file : Bytes → Option ℕ
no_file name = none

abbrev pub silent : Bytes → Bytes
silent cmd = []

asked : (parse_request (received scrape)).0 ≡ codes "/metrics"
unfolding received parse_request codes find find_char rfind_char starts_with
asked = refl

scraped_example :
    (info : MonitorInfo ℤ) × ((push machine no_double dotted pusher readings quiet).0.1 ≡ some info)
    × (before : Bytes) × (after : Bytes) × (body_of
          (serve no_file silent (set_monitor_info held (pos 9) info).0 scrape)
        ≡ some (before ++ (exposition (counters info.hostname readings) ++ after)))
scraped_example =
    scraped machine no_double dotted no_file silent pusher readings quiet held (pos 9) scrape refl
      refl refl asked
