-- ===== src/Worker/Kernel/Flow.antt =====
-- worker/src/ebpf/tcp_flow.bpf.c
use perf_monitor.Prelude.{
  ℕ, ◌+◌, ◌-◌, ◌/◌, ◌%◌, ◌^◌, Bool, false, not, Option, none, some, List, [], ◌∷◌, ◌++◌, ◌==◌,
  if◌then◌else◌,
}
use perf_monitor.Prelude.Int.{ℤ, pos, negsuc, ltb_ℤ, to_u64}
use perf_monitor.Worker.Kernel.{HashMap, Context, bpf_any, bpf_noexist}
use perf_monitor.Worker.Observe.{BpfFlowEvent, flow_event_size}

-- `struct flow_key`
pub record FlowKey : Type 0 where
  pub pid : ℕ
  pub saddr : ℕ
  pub daddr : ℕ
  pub sport : ℕ
  pub dport : ℕ
  pub family : ℕ
  pub protocol : ℕ

-- `struct flow_val`
pub record FlowVal : Type 0 where
  pub bytes_sent : ℕ
  pub bytes_recv : ℕ
  pub start_ns : ℕ
  pub last_ns : ℕ
  pub state : ℕ

-- The fields of `struct sock` that are read; `dport` is in network order.
pub record Sock : Type 0 where
  pub rcv_saddr : ℕ
  pub daddr : ℕ
  pub num : ℕ
  pub dport : ℕ
  pub family : ℕ

-- The maps and the samples given to `flow_events`
pub record FlowState (F C : Type 0) : Type 0 where
  pub flow_map : F
  pub connect_start : C
  pub flow_events : List (ℕ × BpfFlowEvent)

abbrev pub af_inet : ℕ
af_inet = 2

abbrev pub ipproto_tcp : ℕ
ipproto_tcp = 6

-- TCP_SYN_SENT
unfoldable pub is_syn_sent : ℤ → Bool
is_syn_sent (pos n) = n == 2
is_syn_sent (negsuc n) = false

unfoldable pub fill_flow_key : (ℕ → ℕ) → Context → Sock → FlowKey
fill_flow_key ntohs ctx sk = record {
  pid = ctx.pid_tgid / 2 ^ 32;
  saddr = sk.rcv_saddr;
  daddr = sk.daddr;
  sport = sk.num;
  dport = ntohs sk.dport;
  family = sk.family;
  protocol = ipproto_tcp;
}

abbrev pub empty_val : FlowVal
empty_val = record { bytes_sent = 0; bytes_recv = 0; start_ns = 0; last_ns = 0; state = 0 }

-- `uint64_t` addition and subtraction
abbrev pub add_u64 : ℕ → ℕ → ℕ
add_u64 a b = (a + b) % 2 ^ 64

abbrev pub sub_u64 : ℕ → ℕ → ℕ
sub_u64 a b = (a + (2 ^ 64 - b)) % 2 ^ 64

-- The writes of the three programs to a flow
unfoldable pub sent : ℕ → ℕ → FlowVal → FlowVal
sent size now val = record val { bytes_sent = add_u64 val.bytes_sent size; last_ns = now }

unfoldable pub received : ℤ → ℕ → FlowVal → FlowVal
received copied now val = record val {
  bytes_recv =
      if ltb_ℤ (pos 0) copied then add_u64 val.bytes_recv (to_u64 copied) else val.bytes_recv;
  last_ns = now;
}

unfoldable pub moved : ℤ → ℕ → FlowVal → FlowVal
moved state now val = record val { state = to_u64 state % 2 ^ 8; last_ns = now }

-- The latency that `emit_flow` writes: 0 if no connect is on record for the process
abbrev pub latency : Context → Option ℕ → ℕ
latency ctx none = 0
latency ctx (some start) = sub_u64 (ctx.clock 0) start

abbrev pub flow_event : Context → FlowKey → FlowVal → Option ℕ → BpfFlowEvent
flow_event ctx key val start = record {
  pid = key.pid;
  comm = ctx.comm;
  ppid_comm = [];
  exe = [];
  saddr = key.saddr;
  daddr = key.daddr;
  sport = key.sport;
  dport = key.dport;
  family = key.family;
  protocol = key.protocol;
  state = val.state;
  bytes_sent = val.bytes_sent;
  bytes_recv = val.bytes_recv;
  connect_latency_ns = latency ctx start;
  start_ns = val.start_ns;
  last_ns = val.last_ns;
}

-- `if (!val)`
abbrev pub with_entry {ℓ} : {A : Type ℓ} → Option FlowVal → A → (FlowVal → A) → A
with_entry none new existing = new
with_entry (some val) new existing = existing val

module _ {F C : Type 0} ⦃flows : HashMap F FlowKey FlowVal⦄ ⦃starts : HashMap C ℕ ℕ⦄ where
  unfoldable pub emit_flow : Context → FlowKey → FlowVal → FlowState F C → FlowState F C
  emit_flow ctx key val s =
      let ev = flow_event ctx key val (starts.lookup_elem s.connect_start key.pid) in
      record s { flow_events = s.flow_events ++ (flow_event_size, ev) ∷ [] }

  abbrev pub write : FlowKey → FlowVal → FlowState F C → FlowState F C
  write key val s = record s { flow_map = flows.store s.flow_map key val }

  -- `bpf_map_update_elem(&flow_map, &key, &new_val, BPF_NOEXIST)`
  abbrev pub create : FlowKey → ℕ → FlowState F C → FlowState F C
  create key now s = record s {
    flow_map = flows.update_elem s.flow_map key (record empty_val { start_ns = now }) bpf_noexist;
  }

  -- The program ends for what is not IPv4; else it looks the flow up, and goes on as it says for a
  -- flow that is not in the map and for one that is.
  unfoldable pub on_flow :
      FlowKey → FlowState F C → (FlowVal → FlowState F C) → FlowState F C → FlowState F C
  on_flow key new existing s =
      if not (key.family == af_inet)
      then s
      else with_entry (flows.lookup_elem s.flow_map key) new existing

  abbrev pub send_existing : FlowKey → ℕ → ℕ → FlowState F C → FlowState F C
  send_existing key size now s =
      with_entry (flows.lookup_elem s.flow_map key) s (λ val. write key (sent size now val) s)

  unfoldable pub tcp_sendmsg : (ℕ → ℕ) → Context → Sock → ℕ → FlowState F C → FlowState F C
  tcp_sendmsg ntohs ctx sk size s =
      let key = fill_flow_key ntohs ctx sk in
      on_flow key (send_existing key size (ctx.clock 1) (create key (ctx.clock 0) s))
        (λ val. write key (sent size (ctx.clock 0) val) s) s

  unfoldable pub tcp_cleanup_rbuf : (ℕ → ℕ) → Context → Sock → ℤ → FlowState F C → FlowState F C
  tcp_cleanup_rbuf ntohs ctx sk copied s =
      let key = fill_flow_key ntohs ctx sk in
      on_flow key s (λ val. write key (received copied (ctx.clock 0) val) s) s

  -- The time of the connect is noted under the process alone.
  unfoldable pub note_connect : ℤ → ℕ → ℕ → FlowState F C → FlowState F C
  note_connect state pid now s =
      if is_syn_sent state
      then record s { connect_start = starts.update_elem s.connect_start pid now bpf_any }
      else s

  unfoldable pub tcp_set_state : (ℕ → ℕ) → Context → Sock → ℤ → FlowState F C → FlowState F C
  tcp_set_state ntohs ctx sk state s =
      let key = fill_flow_key ntohs ctx sk in
      on_flow key s
        (λ val.
          note_connect state key.pid (ctx.clock 1) (write key (moved state (ctx.clock 0) val) s))
        s

  -- The flow is sent to the buffer and leaves the map.
  unfoldable pub tcp_done : (ℕ → ℕ) → Context → Sock → FlowState F C → FlowState F C
  tcp_done ntohs ctx sk s =
      let key = fill_flow_key ntohs ctx sk in
      on_flow key s
        (λ val.
          let emitted = emit_flow ctx key val s in
          record emitted { flow_map = flows.delete_elem emitted.flow_map key })
        s
