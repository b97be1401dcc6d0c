-- ===== src/Rpc/Stored.antt =====
-- What a report leaves in the manager, and what a query reads back.
use perf_monitor.Prelude.{
  ℕ, ◌+◌, ◌-◌, ◌%◌, ◌^◌, ◌≤◌, ◌<◌, ◌≡◌, refl, ap, ◌∙◌, List, [], ◌∷◌, Option, none, some, arith,
  if◌then◌else◌, length, Bool-cases, inl, inr,
}
use perf_monitor.Prelude.Int.{ℤ, pos, ◌+ℤ◌, to_i64, to_u64-to_i64}
use perf_monitor.Text.{codes, str_eq, str_eq_refl}
use perf_monitor.Double.{Double, IsOrdered, exact_limit}
use perf_monitor.Table.{bytes_eq}
use perf_monitor.Message.{ProcessEvent, FlowEvent, ObserveBatch, NetInfo, MonitorInfo}
use perf_monitor.Host.{HostSnapshot, Hosts, get, renewed}
use perf_monitor.Host.Lookup.{get-update}
use perf_monitor.Rpc.{
  add_u64, total_net, count_processes, count_flows, observe, metrics_of, snapshot_of,
  set_monitor_info, get_monitor_info,
}

-- How many process events are called "exec", and how many are not.
abbrev pub execs : List ProcessEvent → ℕ
execs [] = 0
execs (pe ∷ rest) = (if str_eq pe.event (codes "exec") then 1 else 0) + execs rest

abbrev pub exits : List ProcessEvent → ℕ
exits [] = 0
exits (pe ∷ rest) = (if str_eq pe.event (codes "exec") then 0 else 1) + exits rest

abbrev pub sum_by {ℓ} : {A : Type ℓ} → (A → ℕ) → List A → ℕ
sum_by f [] = 0
sum_by f (x ∷ xs) = f x + sum_by f xs

abbrev pub sent : List FlowEvent → ℕ
sent = sum_by λ fe. fe.bytes_sent

abbrev pub received : List FlowEvent → ℕ
received = sum_by λ fe. fe.bytes_recv

-- A sum that is kept in an `int64_t`.
abbrev pub wrapped : ℕ → ℤ
wrapped n = to_i64 (n % 2 ^ 64)

add_u64-wrapped : (a n : ℕ) → add_u64 (wrapped a) n ≡ wrapped (a + n)
unfolding add_u64
add_u64-wrapped a n =
    rw (to_u64-to_i64 (a % 2 ^ 64) (omega arith))
      (let e : (a % 2 ^ 64 + n) % 2 ^ 64 ≡ (a + n) % 2 ^ 64 = omega arith in ap to_i64 e)

abbrev pub batch_or_empty : Option ObserveBatch → ObserveBatch
batch_or_empty none = record { process_events = []; flow_events = [] }
batch_or_empty (some batch) = batch

module _ {D : Type 0} ⦃d : Double D⦄ where
  count_processes-eq :
      (snap : HostSnapshot D) (ps : List ProcessEvent) (a b : ℕ)
      → snap.proc_exec_count ≡ pos a
      → snap.proc_exit_count ≡ pos b
      → count_processes snap ps
        ≡ record snap { proc_exec_count = pos (a + execs ps); proc_exit_count = pos (b + exits ps) }
  unfolding count_processes ◌+ℤ◌
  count_processes-eq snap [] a b p q = ground arith
  count_processes-eq snap (pe ∷ ps) a b p q = elim (Bool-cases (str_eq pe.event (codes "exec"))) [
    | inl exec ↦
        let next = record snap { proc_exec_count = snap.proc_exec_count +ℤ pos 1 } in
        ground (arith, count_processes-eq next ps (a + 1) b)
    | inr exit ↦
        let next = record snap { proc_exit_count = snap.proc_exit_count +ℤ pos 1 } in
        ground (arith, count_processes-eq next ps a (b + 1))
  ]

  count_flows-eq :
      (snap : HostSnapshot D) (fs : List FlowEvent) (k a b : ℕ)
      → snap.tcp_flow_count ≡ pos k
      → snap.tcp_bytes_sent ≡ wrapped a
      → snap.tcp_bytes_recv ≡ wrapped b
      → count_flows snap fs ≡ record snap {
        tcp_flow_count = pos (k + length fs);
        tcp_bytes_sent = wrapped (a + sent fs);
        tcp_bytes_recv = wrapped (b + received fs);
      }
  unfolding count_flows ◌+ℤ◌
  count_flows-eq snap [] k a b p q r = ground arith
  count_flows-eq snap (fe ∷ fs) k a b p q r =
      let next = record snap {
        tcp_flow_count = snap.tcp_flow_count +ℤ pos 1;
        tcp_bytes_sent = add_u64 snap.tcp_bytes_sent fe.bytes_sent;
        tcp_bytes_recv = add_u64 snap.tcp_bytes_recv fe.bytes_recv;
      } in
      ground (
        arith,
        add_u64-wrapped a fe.bytes_sent,
        add_u64-wrapped b fe.bytes_recv,
        count_flows-eq next fs (k + 1) (a + fe.bytes_sent) (b + fe.bytes_recv),
      )

  observe-eq :
      (snap : HostSnapshot D) (o : Option ObserveBatch)
      → snap.proc_exec_count ≡ pos 0
      → snap.proc_exit_count ≡ pos 0
      → snap.tcp_flow_count ≡ pos 0
      → snap.tcp_bytes_sent ≡ pos 0
      → snap.tcp_bytes_recv ≡ pos 0
      → let batch = batch_or_empty o in
        observe snap o ≡ record snap {
          proc_exec_count = pos (execs batch.process_events);
          proc_exit_count = pos (exits batch.process_events);
          tcp_flow_count = pos (length batch.flow_events);
          tcp_bytes_sent = wrapped (sent batch.flow_events);
          tcp_bytes_recv = wrapped (received batch.flow_events);
        }
  unfolding observe to_i64
  observe-eq snap none a b c p q = ground arith
  observe-eq snap (some batch) a b c p q =
      let counted = count_processes snap batch.process_events in
      ground (
        arith,
        count_processes-eq snap batch.process_events 0 0 a b,
        count_flows-eq counted batch.flow_events 0 0 0,
      )

  stored :
      (hosts : Hosts D) (now : ℤ) (request : MonitorInfo D)
      → get (set_monitor_info hosts now request).0 request.hostname
        ≡ renewed (get hosts request.hostname) request.hostname (snapshot_of now request)
  unfolding set_monitor_info
  stored hosts now request =
      get-update hosts request.hostname request.hostname (snapshot_of now request)
      ∙ rw (str_eq_refl request.hostname)

  -- The observe counters of a host count the events of its last report alone: whatever the manager
  -- held before, it then holds the number of "exec" events, the number of the other process events,
  -- the number of flows, and the bytes sent and received modulo 2^64 (all zero without a batch).
  pub stored_counters :
      (hosts : Hosts D) (now : ℤ) (request : MonitorInfo D)
      → let snap = get (set_monitor_info hosts now request).0 request.hostname in
        let batch = batch_or_empty request.observe_batch in
        (snap.proc_exec_count ≡ pos (execs batch.process_events))
        × (snap.proc_exit_count ≡ pos (exits batch.process_events))
        × (snap.tcp_flow_count ≡ pos (length batch.flow_events))
        × (snap.tcp_bytes_sent ≡ wrapped (sent batch.flow_events))
        × (snap.tcp_bytes_recv ≡ wrapped (received batch.flow_events))
  unfolding snapshot_of renewed
  stored_counters hosts now request =
      let metrics = observe-eq (metrics_of now request) request.observe_batch in
      rw (stored hosts now request, metrics refl refl refl refl refl) (refl, refl, refl, refl, refl)

  -- A query of a host after its report gives back the name, the time of the report, the load and
  -- the memory percentage as they were sent, and the idle percentage taken from 100 twice.
  pub query_report :
      (hosts : Hosts D) (now : ℤ) (request : MonitorInfo D)
      → let answer = get_monitor_info (set_monitor_info hosts now request).0 request.hostname in
        (answer.hostname ≡ request.hostname)
        × (answer.timestamp ≡ now)
        × (answer.cpu_load.load_1m ≡ request.cpu_load.load_1m)
        × (answer.mem.used_pct ≡ request.mem.used_pct)
        × (answer.cpu_stat.idle_pct
            ≡ d.sub (d.of_ℕ 100) (d.sub (d.of_ℕ 100) request.cpu_stat.idle_pct))
  unfolding get_monitor_info snapshot_of renewed
  query_report hosts now request =
      let metrics = observe-eq (metrics_of now request) request.observe_batch in
      rw (stored hosts now request, metrics refl refl refl refl refl) (refl, refl, refl, refl, refl)

module _ {D : Type 0} ⦃d : Double D⦄ (laws : IsOrdered D) where
  open d use {of_ℕ}
  open laws use {of_ℕ-add, of_ℕ-sub}

  abbrev pub dropped : List (NetInfo D) → ℕ
  dropped = sum_by λ net. net.rx_dropped

  total_net-dropped :
      (nets : List (NetInfo D)) (x y : D) (a : ℕ)
      → a + dropped nets < exact_limit
      → (total_net (x, y, of_ℕ a) nets).2 ≡ of_ℕ (a + dropped nets)
  unfolding total_net
  total_net-dropped [] x y a h = ap of_ℕ (omega arith)
  total_net-dropped (net ∷ nets) x y a h =
      let n = net.rx_dropped in
      let e : a + n + dropped nets ≡ a + dropped (net ∷ nets) = omega arith in
      rw (of_ℕ-add a n (omega arith)) (total_net-dropped nets _ _ (a + n) (omega arith) ∙ ap of_ℕ e)

  -- A report of whole idle percents up to 100, with fewer than 2^53 dropped packets in all, is
  -- stored as the sum of the packets that its interfaces dropped, and is queried as the idle
  -- percents that were sent.
  whole_numbers :
      (hosts : Hosts D) (now : ℤ) (request : MonitorInfo D) (idle : ℕ)
      → dropped request.nets < exact_limit
      → idle ≤ 100
      → request.cpu_stat.idle_pct ≡ of_ℕ idle
      → let after = (set_monitor_info hosts now request).0 in
        ((get after request.hostname).net_rx_dropped ≡ of_ℕ (dropped request.nets))
        × ((get_monitor_info after request.hostname).cpu_stat.idle_pct ≡ of_ℕ idle)
  unfolding metrics_of renewed snapshot_of
  whole_numbers hosts now request idle small h e =
      let metrics = observe-eq (metrics_of now request) request.observe_batch in
      let from_zero : 0 + dropped request.nets ≡ dropped request.nets = omega arith in
      let back : 100 - (100 - idle) ≡ idle = omega arith in
      (
        rw (stored hosts now request, metrics refl refl refl refl refl)
            (total_net-dropped request.nets _ _ 0 (omega arith) ∙ ap of_ℕ from_zero),
        (query_report hosts now request).4
            ∙ rw (e, of_ℕ-sub 100 idle (omega arith) h)
                (of_ℕ-sub 100 (100 - idle) (omega arith) (omega arith) ∙ ap of_ℕ back),
      )
