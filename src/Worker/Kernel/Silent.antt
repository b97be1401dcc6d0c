-- ===== src/Worker/Kernel/Silent.antt =====
-- Flows that worker/src/ebpf/tcp_flow.bpf.c does not see.
use perf_monitor.Prelude.{
  arith, ℕ, ◌≡◌, ◌≢◌, refl, ap, sym, ◌∙◌, false, none, some, List, [], ◌∷◌, ◌++◌, All,
  if◌then◌else◌, Bool-cases, inl, inr, Option-cases,
}
use mathlib.Core.Path.{subst}
use perf_monitor.Prelude.Int.{ℤ}
use perf_monitor.Worker.Observe.{BpfFlowEvent}
use perf_monitor.Worker.Kernel.{HashMap}
use perf_monitor.Worker.Kernel.Flow.{
  FlowKey, FlowVal, FlowState, fill_flow_key, tcp_sendmsg, tcp_cleanup_rbuf, tcp_set_state,
  tcp_done, send_existing, note_connect, emit_flow,
}
use perf_monitor.Worker.Kernel.Calls.{
  Call, sendmsg, cleanup_rbuf, set_state, done, key_of, step, run, same_key, same_key_iff,
  keys_differ,
}
use perf_monitor.Worker.Kernel.Tracked.{entry, step-other, on_flow-holds}

-- The flow that a sample is about
abbrev pub flow_of : BpfFlowEvent → FlowKey
flow_of ev = record {
  pid = ev.pid;
  saddr = ev.saddr;
  daddr = ev.daddr;
  sport = ev.sport;
  dport = ev.dport;
  family = ev.family;
  protocol = ev.protocol;
}

-- The samples about one flow
abbrev pub samples_of : FlowKey → List (ℕ × BpfFlowEvent) → List (ℕ × BpfFlowEvent)
samples_of k [] = []
samples_of k ((sz, ev) ∷ rest) =
    if same_key (flow_of ev) k then (sz, ev) ∷ samples_of k rest else samples_of k rest

samples_of-other :
    (k : FlowKey) (sz : ℕ) (ev : BpfFlowEvent) (samples : List (ℕ × BpfFlowEvent))
    → same_key (flow_of ev) k ≡ false
    → samples_of k (samples ++ (sz, ev) ∷ []) ≡ samples_of k samples
samples_of-other k sz ev [] other = rw other refl
samples_of-other k sz ev ((n, e) ∷ samples) other = elim (Bool-cases (same_key (flow_of e) k)) [
  | inl own ↦ rw own (ap (λ l. (n, e) ∷ l) (samples_of-other k sz ev samples other))
  | inr skip ↦ rw skip (samples_of-other k sz ev samples other)
]

-- A call that is no send on the flow
abbrev pub SendsNothing : (ℕ → ℕ) → FlowKey → Call → Type 0
SendsNothing ntohs k (sendmsg ctx sk size) = fill_flow_key ntohs ctx sk ≢ k
SendsNothing ntohs k c = Unit

none-some : {v : FlowVal} → none ≢ some v
none-some e = absurd (cc)

module _ {F C : Type 0} ⦃flows : HashMap F FlowKey FlowVal⦄ ⦃starts : HashMap C ℕ ℕ⦄
    (ntohs : ℕ → ℕ) where
  note_connect-flow_events :
      (state : ℤ) (pid now : ℕ) (s : FlowState F C)
      → (note_connect state pid now s).flow_events ≡ s.flow_events
  unfolding note_connect
  note_connect-flow_events state pid now s = ground arith

  -- The samples about a flow
  abbrev pub reported : FlowKey → FlowState F C → List (ℕ × BpfFlowEvent)
  reported k s = samples_of k s.flow_events

  send_existing-reported :
      (key k : FlowKey) (size now : ℕ) (s : FlowState F C)
      → reported k (send_existing key size now s) ≡ reported k s
  send_existing-reported key k size now s = elim (Option-cases (entry ntohs key s)) [
    | inl e ↦ rw e refl
    | inr (val, e) ↦ rw e refl
  ]

  step-reported :
      (c : Call) (k : FlowKey) (s : FlowState F C)
      → same_key (key_of ntohs c) k ≡ false
      → reported k (step ntohs c s) ≡ reported k s
  unfolding tcp_cleanup_rbuf tcp_done tcp_sendmsg tcp_set_state emit_flow
  step-reported (cleanup_rbuf ctx sk copied) k s other =
      on_flow-holds ntohs (λ t. reported k t ≡ reported k s) _ _ _ s refl (λ e. refl)
        (λ ipv4 val e. refl)
  step-reported (done ctx sk) k s other =
      on_flow-holds ntohs (λ t. reported k t ≡ reported k s) _ _ _ s refl (λ e. refl)
        (λ ipv4 val e. samples_of-other k _ _ s.flow_events other)
  step-reported (sendmsg ctx sk size) k s other =
      on_flow-holds ntohs (λ t. reported k t ≡ reported k s) _ _ _ s refl
        (λ e. send_existing-reported _ k _ _ _) (λ ipv4 val e. refl)
  step-reported (set_state ctx sk state) k s other =
      on_flow-holds ntohs (λ t. reported k t ≡ reported k s) _ _ _ s refl (λ e. refl)
        (λ ipv4 val e. ap (samples_of k) (note_connect-flow_events state _ _ _))

  -- A call on a flow that is not in the map does nothing, unless it sends.
  step-missing :
      (c : Call) (s : FlowState F C)
      → SendsNothing ntohs (key_of ntohs c) c
      → entry ntohs (key_of ntohs c) s ≡ none
      → step ntohs c s ≡ s
  unfolding tcp_cleanup_rbuf tcp_done tcp_set_state
  step-missing (cleanup_rbuf ctx sk copied) s h missing =
      on_flow-holds ntohs (λ t. t ≡ s) _ _ _ s refl (λ e. refl)
        (λ ipv4 val e. absurd (none-some (sym missing ∙ e)))
  step-missing (done ctx sk) s h missing =
      on_flow-holds ntohs (λ t. t ≡ s) _ _ _ s refl (λ e. refl)
        (λ ipv4 val e. absurd (none-some (sym missing ∙ e)))
  step-missing (set_state ctx sk state) s h missing =
      on_flow-holds ntohs (λ t. t ≡ s) _ _ _ s refl (λ e. refl)
        (λ ipv4 val e. absurd (none-some (sym missing ∙ e)))
  step-missing (sendmsg ctx sk size) s h missing = absurd (h refl)

  -- Calls of which none is a send on a flow that is not in the map leave it out of the map, and add
  -- no sample about it, whatever they set, receive or end.
  pub unsent_flow :
      (calls : List Call) (k : FlowKey) (s : FlowState F C)
      → All (SendsNothing ntohs k) calls
      → entry ntohs k s ≡ none
      → (entry ntohs k (run ntohs calls s) ≡ none) × (reported k (run ntohs calls s) ≡ reported k s)
  unsent_flow [] k s h missing = (missing, refl)
  unsent_flow (c ∷ calls) k s h missing = elim (Bool-cases (same_key (key_of ntohs c) k)) [
    | inl own ↦
        let key = (same_key_iff _ _).0 own in
        let nothing : step ntohs c s ≡ s =
          step-missing c s (subst (λ j. SendsNothing ntohs j c) (sym key) h.0)
            (subst (λ j. entry ntohs j s ≡ none) (sym key) missing) in
        let (out, same) =
          unsent_flow calls k (step ntohs c s) h.1 (ap (λ t. entry ntohs k t) nothing ∙ missing) in
        (out, same ∙ ap (λ t. reported k t) nothing)
    | inr other ↦
        let (out, same) =
          unsent_flow calls k (step ntohs c s) h.1
            (step-other ntohs c k s (keys_differ _ _ other) ∙ missing) in
        (out, same ∙ step-reported c k s other)
  ]
