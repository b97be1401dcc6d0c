-- ===== src/Worker/Kernel/Report.antt =====
-- What worker/src/ebpf/tcp_flow.bpf.c reports of a flow that ends.
use perf_monitor.Prelude.{
  ℕ, ◌+◌, ◌%◌, ◌^◌, ◌≡◌, ◌≢◌, ap, sym, ◌∙◌, none, some, List, [], ◌∷◌, ◌++◌, All, inl, inr, arith,
}
use mathlib.Core.Path.{subst}
use perf_monitor.Worker.Observe.{BpfFlowEvent, flow_event_size}
use perf_monitor.Worker.Kernel.{HashMap, Context}
use perf_monitor.Worker.Kernel.Flow.{
  FlowKey, FlowVal, FlowState, Sock, fill_flow_key, tcp_sendmsg, tcp_done, send_existing, create,
  sent, emit_flow, af_inet, flow_event, empty_val,
}
use perf_monitor.Worker.Kernel.Calls.{Call, run}
use perf_monitor.Worker.Kernel.Tracked.{entry, on_flow-present, on_flow-absent}
use perf_monitor.Worker.Kernel.Lifetime.{
  KeepsOpen, applied, total, size_of, copied_of, last_state, adds-sent, adds-received,
  applied-total, applied-state, applied-start, run-tracked,
}

-- The entry that a first send makes.
abbrev first_entry : Context → ℕ → FlowVal
first_entry ctx size = sent size (ctx.clock 1) (record empty_val { start_ns = ctx.clock 0 })

module _ {F C : Type 0} ⦃flows : HashMap F FlowKey FlowVal⦄ ⦃starts : HashMap C ℕ ℕ⦄
    (ntohs : ℕ → ℕ) where
  send_existing-created :
      (key : FlowKey) (size now later : ℕ) (s : FlowState F C)
      → entry ntohs key s ≡ none
      → entry ntohs key (send_existing key size later (create key now s)) ≢ none
      → entry ntohs key (send_existing key size later (create key now s))
        ≡ some (sent size later (record empty_val { start_ns = now }))
  send_existing-created key size now later s missing room =
      elim (flows.update_same s.flow_map key (record empty_val { start_ns = now }) 1) [
        | inl made ↦ rw made (flows.store_same _ key _ _ made)
        | inr full ↦
            let gone : entry ntohs key (create key now s) ≡ none = full ∙ missing in
            absurd (room (rw gone gone))
      ]

  tcp_sendmsg-first :
      (ctx : Context) (sk : Sock) (size : ℕ) (s : FlowState F C)
      → let key = fill_flow_key ntohs ctx sk in
        key.family ≡ af_inet
        → entry ntohs key s ≡ none
        → entry ntohs key (tcp_sendmsg ntohs ctx sk size s) ≢ none
        → entry ntohs key (tcp_sendmsg ntohs ctx sk size s) ≡ some (first_entry ctx size)
  unfolding tcp_sendmsg
  tcp_sendmsg-first ctx sk size s ipv4 missing room =
      let key = fill_flow_key ntohs ctx sk in
      let path = ap (λ t. entry ntohs key t) (on_flow-absent ntohs key _ _ s ipv4 missing) in
      path
      ∙ send_existing-created key size (ctx.clock 0) (ctx.clock 1) s missing (λ e. room (path ∙ e))

  tcp_done-present :
      (ctx : Context) (sk : Sock) (s : FlowState F C) (val : FlowVal)
      → let key = fill_flow_key ntohs ctx sk in
        key.family ≡ af_inet
        → entry ntohs key s ≡ some val
        → let end = tcp_done ntohs ctx sk s in
          (entry ntohs key end ≡ none)
          × (end.flow_events
              ≡ s.flow_events
                ++ (
                  flow_event_size,
                  flow_event ctx key val (starts.lookup_elem s.connect_start key.pid),
                )
                  ∷ [])
  unfolding tcp_done emit_flow
  tcp_done-present ctx sk s val ipv4 e =
      let key = fill_flow_key ntohs ctx sk in
      let path = on_flow-present ntohs key s _ s val ipv4 e in
      (
        ap (λ t. entry ntohs key t) path ∙ flows.delete_same s.flow_map key,
        ap (λ (t : FlowState F C). t.flow_events) path,
      )

  -- If the map has room for a flow at its first send, and it ends after any further calls, the end
  -- takes it out of the map and gives one sample to the buffer. This has the bytes sent and received
  -- since, modulo 2^64, the time of the first send, the state that was set last, or 0, and the
  -- addresses of the flow.
  pub closed_flow :
      (s : FlowState F C) (ctx : Context) (sk : Sock) (size : ℕ) (calls : List Call)
      (last_ctx : Context) (last_sk : Sock)
      → let key = fill_flow_key ntohs ctx sk in
        let before = run ntohs calls (tcp_sendmsg ntohs ctx sk size s) in
        let end = tcp_done ntohs last_ctx last_sk before in
        key.family ≡ af_inet
        → entry ntohs key s ≡ none
        → entry ntohs key (tcp_sendmsg ntohs ctx sk size s) ≢ none
        → All (KeepsOpen ntohs key) calls
        → fill_flow_key ntohs last_ctx last_sk ≡ key
        → (entry ntohs key end ≡ none)
          × ((ev : BpfFlowEvent) × (end.flow_events
                ≡ before.flow_events ++ (flow_event_size, ev) ∷ [])
              × (ev.bytes_sent ≡ (size + total ntohs key size_of calls) % 2 ^ 64)
              × (ev.bytes_recv ≡ total ntohs key copied_of calls % 2 ^ 64)
              × (ev.start_ns ≡ ctx.clock 0)
              × (ev.state ≡ last_state ntohs key 0 calls)
              × (ev.saddr ≡ key.saddr)
              × (ev.daddr ≡ key.daddr)
              × (ev.sport ≡ key.sport)
              × (ev.dport ≡ key.dport))
  unfolding sent
  closed_flow s ctx sk size calls last_ctx last_sk ipv4 missing room opens last =
      let key = fill_flow_key ntohs ctx sk in
      let before = run ntohs calls (tcp_sendmsg ntohs ctx sk size s) in
      let first = first_entry ctx size in
      let val = applied ntohs key calls first in
      let tracked : entry ntohs key before ≡ some val =
        run-tracked ntohs calls key (tcp_sendmsg ntohs ctx sk size s) first ipv4 opens
          (tcp_sendmsg-first ctx sk size s ipv4 missing room) in
      let (gone, events) =
        tcp_done-present last_ctx last_sk before val (ap (λ (j : FlowKey). j.family) last ∙ ipv4)
          (subst (λ j. entry ntohs j before ≡ some val) (sym last) tracked) in
      (
        subst (λ j. entry ntohs j (tcp_done ntohs last_ctx last_sk before) ≡ none) last gone,
        (
          _,
          events,
          applied-total ntohs key (λ (v : FlowVal). v.bytes_sent) size_of adds-sent calls first size
              (omega arith),
          applied-total ntohs key (λ (v : FlowVal). v.bytes_recv) copied_of adds-received calls
                first 0 (omega arith)
              ∙ omega arith,
          applied-start ntohs key calls first,
          applied-state ntohs key calls first,
          ap (λ (j : FlowKey). j.saddr) last,
          ap (λ (j : FlowKey). j.daddr) last,
          ap (λ (j : FlowKey). j.sport) last,
          ap (λ (j : FlowKey). j.dport) last,
        ),
      )
