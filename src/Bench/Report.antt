-- ===== src/Bench/Report.antt =====
-- `make_report` of benchmarks/manager_fake_worker.cpp: the message of one fake worker. The numbers
-- of the worker and of the iteration are not negative; the two calls of `std::time(nullptr)` are
-- arguments. A decimal literal is the quotient of whole numbers that rounds to the same double.
use perf_monitor.Prelude.{ℕ, ◌+◌, ◌-◌, ◌*◌, ◌%◌, ◌^◌, [], ◌∷◌, ◌++◌, some, if◌then◌else◌, ◌==◌}
use perf_monitor.Prelude.Int.{ℤ, pos, to_u64, to_i64}
use perf_monitor.Text.{Bytes, codes}
use perf_monitor.Text.Decimal.{to_string_ℕ}
use perf_monitor.Double.{Double}
use perf_monitor.Message.{
  CpuLoad, CpuStat, MemInfo, DiskInfo, NetInfo, ProcessEvent, FlowEvent, MonitorInfo,
}

unfoldable pub hostname : ℕ → Bytes
hostname worker = codes "fake-worker-" ++ to_string_ℕ worker

unfoldable pub process_event : ℤ → ℕ → ℕ → ProcessEvent
process_event now worker iteration = record {
  comm = codes "fake-process";
  pid = 1000 + worker;
  ppid = 1;
  filename = codes "/usr/bin/fake-process";
  event = if iteration % 2 == 0 then codes "exec" else codes "exit";
  ts_ns = to_i64 (to_u64 now * 1000 * 1000 * 1000 % 2 ^ 64);
}

unfoldable pub flow_event : ℕ → ℕ → FlowEvent
flow_event worker iteration = record {
  pid = 1000 + worker;
  comm = codes "fake-process";
  ppid_comm = [];
  exe = [];
  src_ip = codes "10.0.0.1";
  src_port = 30000 + worker % 1000;
  dst_ip = codes "10.0.0.2";
  dst_port = 8080;
  bytes_sent = 1024 + iteration;
  bytes_recv = 2048 + iteration;
  connect_latency_ns = 1000000;
  state = codes "ESTABLISHED";
  start_ns = 0;
  last_ns = 0;
}

module _ {D : Type 0} ⦃d : Double D⦄ where
  open d use {of_ℕ, add, mul, div}

  -- `n / 10` written as a literal
  abbrev tenths : ℕ → D
  tenths n = div (of_ℕ n) (of_ℕ 10)

  unfoldable pub cpu_load : ℕ → CpuLoad D
  cpu_load worker = record {
    load_1m = add (tenths 2) (mul (of_ℕ (worker % 8)) (tenths 1));
    load_5m = tenths 3;
    load_15m = tenths 4;
    nr_cores = pos 8;
  }

  unfoldable pub cpu_stat : ℕ → CpuStat D
  cpu_stat iteration = record {
    user_pct = of_ℕ (10 + iteration % 20);
    system_pct = of_ℕ 5;
    idle_pct = of_ℕ (85 - iteration % 20);
    iowait_pct = of_ℕ 1;
    steal_pct = of_ℕ 0;
    softirq_pct = of_ℕ 1;
  }

  unfoldable pub mem_info : ℕ → MemInfo D
  mem_info worker = record {
    total_gb = of_ℕ 16;
    used_gb = of_ℕ (4 + worker % 4);
    free_gb = of_ℕ 8;
    available_gb = of_ℕ 10;
    cached_gb = of_ℕ 2;
    buffers_gb = of_ℕ 1;
    swap_total_gb = of_ℕ 0;
    swap_used_gb = of_ℕ 0;
    used_pct = of_ℕ (30 + worker % 20);
  }

  unfoldable pub disk_info : ℕ → ℕ → DiskInfo D
  disk_info worker iteration = record {
    device = codes "vda";
    read_mbps = of_ℕ (5 + iteration % 5);
    write_mbps = of_ℕ (3 + iteration % 3);
    iops = of_ℕ (100 + worker % 50);
    io_latency_ms = of_ℕ (2 + iteration % 4);
  }

  unfoldable pub net_info : ℕ → ℕ → NetInfo D
  net_info worker iteration = record {
    iface = codes "eth0";
    rx_mbps = of_ℕ (10 + worker % 10);
    tx_mbps = of_ℕ (6 + iteration % 10);
    rx_packets = 1000 + iteration;
    tx_packets = 900 + iteration;
    rx_dropped = if worker % 3 == 0 then 1 else 0;
    tx_dropped = 0;
    rx_errors = 0;
    tx_errors = 0;
  }

  unfoldable pub make_report : ℤ → ℤ → ℕ → ℕ → MonitorInfo D
  unfolding hostname process_event flow_event cpu_load cpu_stat mem_info disk_info net_info
  make_report now later worker iteration = record {
    hostname = hostname worker;
    ip = codes "10.0.0." ++ to_string_ℕ (worker % 250 + 1);
    timestamp = now;
    cpu_load = cpu_load worker;
    cpu_stat = cpu_stat iteration;
    mem = mem_info worker;
    disks = disk_info worker iteration ∷ [];
    nets = net_info worker iteration ∷ [];
    observe_batch = some (record {
      process_events = process_event later worker iteration ∷ [];
      flow_events = flow_event worker iteration ∷ [];
    });
    diagnose_events = [];
  }
