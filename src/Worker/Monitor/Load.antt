-- ===== src/Worker/Monitor/Load.antt =====
-- worker/src/monitor/cpu_load_monitor.cpp and host_info_monitor.cpp. `iss >> x` on a `double`, and
-- the calls that find the host's names, are arguments.
use perf_monitor.Prelude.{[], Option, none, some, if◌then◌else◌}
use perf_monitor.Prelude.Int.{ℤ, pos, ltb_ℤ}
use perf_monitor.Text.{Bytes, codes, is_empty, until_nul}
use perf_monitor.Text.Stream.{Stream, stream}
use perf_monitor.Double.{Double}

pub record CpuLoadMonitor (D : Type 0) : Type 0 where
  pub load_1m : D
  pub load_5m : D
  pub load_15m : D
  pub nr_cores : ℤ

module _ {D : Type 0} ⦃d : Double D⦄ where
  unfoldable pub init_load : CpuLoadMonitor D → ℤ → CpuLoadMonitor D
  init_load self online = record self { nr_cores = if ltb_ℤ online (pos 1) then pos 1 else online }

  unfoldable pub collect_load :
      (D → Stream → D × Stream) → CpuLoadMonitor D → Bytes → CpuLoadMonitor D
  collect_load extract_double self content =
      let (load_1m, s1) = extract_double self.load_1m (stream content) in
      let (load_5m, s2) = extract_double self.load_5m s1 in
      let (load_15m, s3) = extract_double self.load_15m s2 in
      if is_empty content
      then self
      else record self { load_1m = load_1m; load_5m = load_5m; load_15m = load_15m }

pub record HostInfoMonitor : Type 0 where
  pub hostname : Bytes
  pub ip : Bytes

-- `gethostname` fills a zeroed buffer, or fails; `getaddrinfo` of the buffer gives the first
-- address, printed, or fails.
unfoldable pub init_host : Option Bytes → (Bytes → Option Bytes) → HostInfoMonitor → HostInfoMonitor
init_host gethostname resolve self =
    let buf : Bytes = elim gethostname [ none ↦ [] | some bytes ↦ until_nul bytes ] in
    let hostname : Bytes = elim gethostname [ none ↦ self.hostname | some _ ↦ buf ] in
    let ip : Bytes = elim (resolve buf) [ none ↦ self.ip | some ip_str ↦ ip_str ] in
    record { hostname = hostname; ip = if is_empty ip then codes "127.0.0.1" else ip }
