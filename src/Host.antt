-- ===== src/Host.antt =====
-- manager/include/host_manager.h and manager/src/host_manager.cpp: the snapshots of the hosts.
-- A method takes the map of the manager and returns the new one; the mutex makes each method one
-- step. `int64_t` times are integers: `now - last_update` is taken without overflow, which C++
-- leaves undefined.
pub mod Tail
pub mod Health
pub mod Refinement
pub mod Invariant
pub mod Lookup
pub mod Sweep
use perf_monitor.Prelude.{
  ℕ, ◌-◌, Bool, List, [], ◌∷◌, ◌++◌, Option, none, some, ltb, if◌then◌else◌, length, drop, map,
}
use perf_monitor.Prelude.Int.{ℤ, pos, ◌+ℤ◌, ◌-ℤ◌, ltb_ℤ}
use perf_monitor.Text.{Bytes}
use perf_monitor.Double.{Double}
use perf_monitor.Table.{Table, lookup, insert, erase_if, bytes_eq}

pub record DiagnoseRecord (D : Type 0) : Type 0 where
  pub type : Bytes
  pub process_name : Bytes
  pub file_path : Bytes
  pub timestamp : ℤ
  pub cpu_percent : D

pub record HostSnapshot (D : Type 0) : Type 0 where
  pub load_1m : D
  pub cpu_used_pct : D
  pub mem_used_pct : D
  pub disk_iops : D
  pub net_rx_mbps : D
  pub net_tx_mbps : D
  pub net_rx_dropped : D
  pub last_update : ℤ
  pub health_score : D
  pub hostname : Bytes
  pub proc_exec_count : ℤ
  pub proc_exit_count : ℤ
  pub tcp_flow_count : ℤ
  pub tcp_bytes_sent : ℤ
  pub tcp_bytes_recv : ℤ
  pub diagnose_events : List (DiagnoseRecord D)

abbrev pub Hosts : Type 0 → Type 0
Hosts D = Table Bytes (HostSnapshot D)

abbrev pub max_events : ℕ
max_events = 20

-- `if (v.size() > n) v.erase(v.begin(), v.begin() + (v.size() - n))`
unfoldable pub keep_last {ℓ} : {A : Type ℓ} → ℕ → List A → List A
keep_last n xs = if ltb n (length xs) then drop (length xs - n) xs else xs

module _ {D : Type 0} ⦃d : Double D⦄ where
  open d use {of_ℕ, sub, mul, lt}

  -- `HostSnapshot{}`
  unfoldable pub empty_snapshot : HostSnapshot D
  empty_snapshot = record {
    load_1m = of_ℕ 0;
    cpu_used_pct = of_ℕ 0;
    mem_used_pct = of_ℕ 0;
    disk_iops = of_ℕ 0;
    net_rx_mbps = of_ℕ 0;
    net_tx_mbps = of_ℕ 0;
    net_rx_dropped = of_ℕ 0;
    last_update = pos 0;
    health_score = of_ℕ 100;
    hostname = [];
    proc_exec_count = pos 0;
    proc_exit_count = pos 0;
    tcp_flow_count = pos 0;
    tcp_bytes_sent = pos 0;
    tcp_bytes_recv = pos 0;
    diagnose_events = [];
  }

  -- `if (x > limit) score -= (x - limit) * weight;`
  unfoldable pub penalise : D → D → ℕ → ℕ → D
  penalise score x limit weight =
      if lt (of_ℕ limit) x then sub score (mul (sub x (of_ℕ limit)) (of_ℕ weight)) else score

  unfoldable pub compute_health : HostSnapshot D → D
  compute_health snap =
      let loaded = penalise (of_ℕ 100) snap.load_1m 8 5 in
      let busy = penalise loaded snap.cpu_used_pct 90 2 in
      let full = penalise busy snap.mem_used_pct 85 2 in
      let score = if lt (of_ℕ 100) snap.net_rx_dropped then sub full (of_ℕ 10) else full in
      if lt (of_ℕ 0) score then score else of_ℕ 0

  -- `Get` on a host that is not there returns a new snapshot.
  abbrev pub or_empty : Option (HostSnapshot D) → HostSnapshot D
  or_empty none = empty_snapshot
  or_empty (some snap) = snap

  unfoldable pub get : Hosts D → Bytes → HostSnapshot D
  get hosts hostname = or_empty (lookup hostname hosts)

  -- The entry that `Update` writes over `previous`.
  unfoldable pub renewed : HostSnapshot D → Bytes → HostSnapshot D → HostSnapshot D
  renewed previous hostname snap = record snap {
    hostname = hostname;
    health_score = compute_health snap;
    diagnose_events = keep_last max_events (previous.diagnose_events ++ snap.diagnose_events);
  }

  -- `hosts_[hostname]` makes a new snapshot where there is none.
  unfoldable pub update : Hosts D → Bytes → HostSnapshot D → Hosts D
  unfolding get
  update hosts hostname snap = insert hostname (renewed (get hosts hostname) hostname snap) hosts

  unfoldable pub get_all : Hosts D → List (HostSnapshot D)
  get_all = map λ (entry : Bytes × HostSnapshot D). entry.1

  abbrev pub is_expired : ℤ → ℤ → HostSnapshot D → Bool
  is_expired now max_age snap = ltb_ℤ max_age (now -ℤ snap.last_update)

  unfoldable pub remove_expired : Hosts D → ℤ → ℤ → Hosts D
  remove_expired hosts now max_age = erase_if (is_expired now max_age) hosts
