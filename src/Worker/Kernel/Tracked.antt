-- ===== src/Worker/Kernel/Tracked.antt =====
-- What one run of a program does to the entry of one flow.
use perf_monitor.Prelude.{
  ℕ, ◌≡◌, ◌≢◌, refl, ap, ◌∙◌, true, Option, none, some, ◌==◌, arith, Bool-cases, Option-cases, inl,
  inr, ==_iff,
}
use perf_monitor.Prelude.Int.{ℤ}
use perf_monitor.Worker.Kernel.{HashMap}
use perf_monitor.Worker.Kernel.Flow.{
  FlowKey, FlowVal, FlowState, tcp_sendmsg, tcp_cleanup_rbuf, tcp_set_state, tcp_done,
  send_existing, create, on_flow, note_connect, emit_flow, af_inet,
}
use perf_monitor.Worker.Kernel.Calls.{Call, sendmsg, cleanup_rbuf, set_state, done, key_of, step}

module _ {F C : Type 0} ⦃flows : HashMap F FlowKey FlowVal⦄ ⦃starts : HashMap C ℕ ℕ⦄
    (ntohs : ℕ → ℕ) where
  abbrev pub entry : FlowKey → FlowState F C → Option FlowVal
  entry k s = flows.lookup_elem s.flow_map k

  pub note_connect-flow_map :
      (state : ℤ) (pid now : ℕ) (s : FlowState F C)
      → (note_connect state pid now s).flow_map ≡ s.flow_map
  unfolding note_connect
  note_connect-flow_map state pid now s = ground arith

  -- What holds of the state before, and after each way on, holds after the program.
  pub on_flow-holds :
      (P : FlowState F C → Type 0) (key : FlowKey) (new : FlowState F C)
      (existing : FlowVal → FlowState F C) (s : FlowState F C)
      → P s
      → (entry key s ≡ none → P new)
      → (key.family ≡ af_inet → (val : FlowVal) → entry key s ≡ some val → P (existing val))
      → P (on_flow key new existing s)
  unfolding on_flow
  on_flow-holds P key new existing s old missing present =
      elim (Bool-cases (key.family == af_inet)) [
        | inr other ↦ rw other old
        | inl ipv4 ↦ rw ipv4 (elim (Option-cases (entry key s)) [
          | inl e ↦ rw e (missing e)
          | inr (val, e) ↦ rw e (present ((==_iff _ _).0 ipv4) val e)
        ])
      ]

  pub on_flow-present :
      (key : FlowKey) (new : FlowState F C) (existing : FlowVal → FlowState F C) (s : FlowState F C)
      (val : FlowVal)
      → key.family ≡ af_inet
      → entry key s ≡ some val
      → on_flow key new existing s ≡ existing val
  unfolding on_flow
  on_flow-present key new existing s val ipv4 e =
      let yes_ipv4 : (key.family == af_inet) ≡ true = (==_iff _ _).1 ipv4 in rw (yes_ipv4, e) refl

  pub on_flow-absent :
      (key : FlowKey) (new : FlowState F C) (existing : FlowVal → FlowState F C) (s : FlowState F C)
      → key.family ≡ af_inet
      → entry key s ≡ none
      → on_flow key new existing s ≡ new
  unfolding on_flow
  on_flow-absent key new existing s ipv4 e =
      let yes_ipv4 : (key.family == af_inet) ≡ true = (==_iff _ _).1 ipv4 in rw (yes_ipv4, e) refl

  create-other :
      (key k : FlowKey) (now : ℕ) (s : FlowState F C)
      → key ≢ k
      → entry k (create key now s) ≡ entry k s
  create-other key k now s other = flows.update_other s.flow_map key k _ _ other

  send_existing-other :
      (key k : FlowKey) (size now : ℕ) (s : FlowState F C)
      → key ≢ k
      → entry k (send_existing key size now s) ≡ entry k s
  send_existing-other key k size now s other = elim (Option-cases (entry key s)) [
    | inl e ↦ rw e refl
    | inr (val, e) ↦ rw e (flows.store_other s.flow_map key k _ val e other)
  ]

  -- A call leaves the flows that it is not about.
  pub step-other :
      (c : Call) (k : FlowKey) (s : FlowState F C)
      → key_of ntohs c ≢ k
      → entry k (step ntohs c s) ≡ entry k s
  unfolding tcp_cleanup_rbuf tcp_done tcp_sendmsg tcp_set_state emit_flow
  step-other (cleanup_rbuf ctx sk copied) k s other =
      on_flow-holds (λ t. entry k t ≡ entry k s) _ _ _ s refl (λ e. refl)
        (λ ipv4 val e. flows.store_other s.flow_map _ k _ val e other)
  step-other (done ctx sk) k s other =
      on_flow-holds (λ t. entry k t ≡ entry k s) _ _ _ s refl (λ e. refl)
        (λ ipv4 val e. flows.delete_other s.flow_map _ k other)
  step-other (sendmsg ctx sk size) k s other =
      on_flow-holds (λ t. entry k t ≡ entry k s) _ _ _ s refl
        (λ e. send_existing-other _ k _ _ _ other ∙ create-other _ k _ s other)
        (λ ipv4 val e. flows.store_other s.flow_map _ k _ val e other)
  step-other (set_state ctx sk state) k s other =
      on_flow-holds (λ t. entry k t ≡ entry k s) _ _ _ s refl (λ e. refl)
        (λ ipv4 val e.
          ap (λ m. flows.lookup_elem m k) (note_connect-flow_map state _ _ _)
          ∙ flows.store_other s.flow_map _ k _ val e other)
