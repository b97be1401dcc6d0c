-- ===== src/Worker/Monitor/Net.antt =====
-- worker/src/monitor/net_monitor.cpp and worker/include/monitor/net_monitor.h. `prev_net_map` is
-- a field, since the program has one monitor.
use perf_monitor.Prelude.{
  ℕ, ◌+◌, ◌*◌, List, [], ◌∷◌, Option, none, some, if◌then◌else◌, drop, take, ◌==◌, ◌||◌,
}
use perf_monitor.Text.{Bytes, codes, find_char, str_eq}
use perf_monitor.Text.Stream.{lines, stream, extract}
use perf_monitor.Double.{Double}
use perf_monitor.Table.{Table, lookup, insert, bytes_eq}
use perf_monitor.Worker.Monitor.{sub_u64}

pub record NetRaw : Type 0 where
  pub rx_bytes : ℕ
  pub rx_packets : ℕ
  pub rx_errors : ℕ
  pub rx_dropped : ℕ
  pub tx_bytes : ℕ
  pub tx_packets : ℕ
  pub tx_errors : ℕ
  pub tx_dropped : ℕ

pub record NetStats (D : Type 0) : Type 0 where
  pub iface : Bytes
  pub rx_mbps : D
  pub tx_mbps : D
  pub rx_packets : ℕ
  pub tx_packets : ℕ
  pub rx_dropped : ℕ
  pub tx_dropped : ℕ
  pub rx_errors : ℕ
  pub tx_errors : ℕ

pub record NetMonitor (D : Type 0) : Type 0 where
  pub interfaces : List (NetStats D)
  pub prev_net_map : Table Bytes NetRaw

-- From `find_first_not_of(" \t")` on; a name of blanks only stays.
unfoldable pub first_not_blank : Bytes → Option ℕ
first_not_blank [] = none
first_not_blank (c ∷ s) = elim (first_not_blank s) [
  | none ↦ if c == b' ' || c == b'\t' then none else some 0
  | some i ↦ if c == b' ' || c == b'\t' then some (1 + i) else some 0
]

unfoldable pub trim_left : Bytes → Bytes
unfolding first_not_blank
trim_left s = elim (first_not_blank s) [ none ↦ s | some start ↦ drop start s ]

-- The counters behind the colon; four columns are skipped.
unfoldable pub read_net : Bytes → NetRaw
unfolding extract
read_net s =
    let (rx_bytes, s1) = extract 0 (stream s) in
    let (rx_packets, s2) = extract 0 s1 in
    let (rx_errors, s3) = extract 0 s2 in
    let (rx_dropped, s4) = extract 0 s3 in
    let (fifo, s5) = extract 0 s4 in
    let (frame, s6) = extract fifo s5 in
    let (compressed, s7) = extract frame s6 in
    let (multicast, s8) = extract compressed s7 in
    let (tx_bytes, s9) = extract 0 s8 in
    let (tx_packets, s10) = extract 0 s9 in
    let (tx_errors, s11) = extract 0 s10 in
    let (tx_dropped, s12) = extract 0 s11 in
    record {
      rx_bytes = rx_bytes;
      rx_packets = rx_packets;
      rx_errors = rx_errors;
      rx_dropped = rx_dropped;
      tx_bytes = tx_bytes;
      tx_packets = tx_packets;
      tx_errors = tx_errors;
      tx_dropped = tx_dropped;
    }

unfoldable pub read_interfaces : Table Bytes NetRaw → List Bytes → Table Bytes NetRaw
read_interfaces table [] = table
read_interfaces table (line ∷ rest) =
    read_interfaces
      (elim (find_char line b':') [
        | none ↦ table
        | some i ↦ insert (trim_left (take i line)) (read_net (drop (1 + i) line)) table
      ])
      rest

module _ {D : Type 0} ⦃d : Double D⦄ where
  open d use {of_ℕ, mul, div}

  unfoldable pub init : NetMonitor D → Bytes → NetMonitor D
  init self content = record self {
    prev_net_map = read_interfaces self.prev_net_map (drop 2 (lines content));
  }

  unfoldable pub megabits : ℕ → ℕ → D
  megabits cur prev = div (mul (of_ℕ (sub_u64 cur prev)) (of_ℕ 8)) (of_ℕ (1024 * 1024))

  unfoldable pub net_stats : Bytes → NetRaw → NetRaw → NetStats D
  unfolding megabits
  net_stats iface cur prev = record {
    iface = iface;
    rx_mbps = megabits cur.rx_bytes prev.rx_bytes;
    tx_mbps = megabits cur.tx_bytes prev.tx_bytes;
    rx_packets = sub_u64 cur.rx_packets prev.rx_packets;
    tx_packets = sub_u64 cur.tx_packets prev.tx_packets;
    rx_dropped = sub_u64 cur.rx_dropped prev.rx_dropped;
    tx_dropped = sub_u64 cur.tx_dropped prev.tx_dropped;
    rx_errors = sub_u64 cur.rx_errors prev.rx_errors;
    tx_errors = sub_u64 cur.tx_errors prev.tx_errors;
  }

  unfoldable pub compare_interfaces : Table Bytes NetRaw → Table Bytes NetRaw → List (NetStats D)
  compare_interfaces prev_map [] = []
  compare_interfaces prev_map ((iface, cur) ∷ rest) =
      let later = compare_interfaces prev_map rest in
      if str_eq iface (codes "lo") then later else elim (lookup iface prev_map) [
        | none ↦ later
        | some prev ↦ net_stats iface cur prev ∷ later
      ]

  unfoldable pub collect : NetMonitor D → Bytes → NetMonitor D
  collect self content =
      let cur_map = read_interfaces [] (drop 2 (lines content)) in
      record { interfaces = compare_interfaces self.prev_net_map cur_map; prev_net_map = cur_map }
