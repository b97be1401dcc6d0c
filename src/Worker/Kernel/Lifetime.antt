-- ===== src/Worker/Kernel/Lifetime.antt =====
-- A flow from its first send to its end, in worker/src/ebpf/tcp_flow.bpf.c.
use perf_monitor.Prelude.{
  ℕ, ◌+◌, ◌%◌, ◌^◌, ◌≡◌, ◌≢◌, refl, ap, ◌∙◌, some, List, [], ◌∷◌, All, if◌then◌else◌, arith,
  Bool-cases, inl, inr,
}
use mathlib.Core.Path.{subst}
use perf_monitor.Prelude.Int.{pos, negsuc, pos_part, to_u64}
use perf_monitor.Worker.Kernel.{HashMap}
use perf_monitor.Worker.Kernel.Flow.{
  FlowKey, FlowVal, FlowState, fill_flow_key, tcp_sendmsg, tcp_cleanup_rbuf, tcp_set_state, sent,
  received, moved, af_inet,
}
use perf_monitor.Worker.Kernel.Calls.{
  Call, sendmsg, cleanup_rbuf, set_state, done, key_of, step, run, same_key, same_key_iff,
  keys_differ,
}
use perf_monitor.Worker.Kernel.Tracked.{entry, step-other, on_flow-present, note_connect-flow_map}

-- What a call adds to the entry of its flow.
abbrev pub effect : Call → FlowVal → FlowVal
effect (sendmsg ctx sk size) = sent size (ctx.clock 0)
effect (cleanup_rbuf ctx sk copied) = received copied (ctx.clock 0)
effect (set_state ctx sk state) = moved state (ctx.clock 0)
effect (done ctx sk) = λ val. val

-- A call that does not end the flow.
abbrev pub KeepsOpen : (ℕ → ℕ) → FlowKey → Call → Type 0
KeepsOpen ntohs k (done ctx sk) = fill_flow_key ntohs ctx sk ≢ k
KeepsOpen ntohs k c = Unit

-- The bytes that the calls on the flow hand over and take out, and the state they set last.
abbrev pub size_of : Call → ℕ
size_of (sendmsg ctx sk size) = size
size_of c = 0

abbrev pub copied_of : Call → ℕ
copied_of (cleanup_rbuf ctx sk copied) = pos_part copied
copied_of c = 0

abbrev pub state_after : ℕ → Call → ℕ
state_after before (set_state ctx sk state) = to_u64 state % 2 ^ 8
state_after before c = before

pub adds-sent :
    (c : Call) (val : FlowVal) (a : ℕ)
    → val.bytes_sent ≡ a % 2 ^ 64
    → (effect c val).bytes_sent ≡ (a + size_of c) % 2 ^ 64
unfolding sent received moved
adds-sent (sendmsg ctx sk size) val a h = ground arith
adds-sent (cleanup_rbuf ctx sk copied) val a h = ground arith
adds-sent (set_state ctx sk state) val a h = ground arith
adds-sent (done ctx sk) val a h = ground arith

pub adds-received :
    (c : Call) (val : FlowVal) (a : ℕ)
    → val.bytes_recv ≡ a % 2 ^ 64
    → (effect c val).bytes_recv ≡ (a + copied_of c) % 2 ^ 64
unfolding sent received moved to_u64
adds-received (sendmsg ctx sk size) val a h = ground arith
adds-received (cleanup_rbuf ctx sk (pos n)) val a h = ground arith
adds-received (cleanup_rbuf ctx sk (negsuc n)) val a h = ground arith
adds-received (set_state ctx sk state) val a h = ground arith
adds-received (done ctx sk) val a h = ground arith

effect-state : (c : Call) (val : FlowVal) → (effect c val).state ≡ state_after val.state c
unfolding sent received moved
effect-state (sendmsg ctx sk size) val = refl
effect-state (cleanup_rbuf ctx sk copied) val = refl
effect-state (set_state ctx sk state) val = refl
effect-state (done ctx sk) val = refl

effect-start : (c : Call) (val : FlowVal) → (effect c val).start_ns ≡ val.start_ns
unfolding sent received moved
effect-start (sendmsg ctx sk size) val = refl
effect-start (cleanup_rbuf ctx sk copied) val = refl
effect-start (set_state ctx sk state) val = refl
effect-start (done ctx sk) val = refl

module _ (ntohs : ℕ → ℕ) (k : FlowKey) where
  abbrev pub applied : List Call → FlowVal → FlowVal
  applied [] val = val
  applied (c ∷ calls) val =
      applied calls (if same_key (key_of ntohs c) k then effect c val else val)

  abbrev pub total : (Call → ℕ) → List Call → ℕ
  total f [] = 0
  total f (c ∷ calls) = (if same_key (key_of ntohs c) k then f c else 0) + total f calls

  abbrev pub last_state : ℕ → List Call → ℕ
  last_state before [] = before
  last_state before (c ∷ calls) =
      last_state (if same_key (key_of ntohs c) k then state_after before c else before) calls

  -- A counter to which every call adds its own share, modulo 2^64, gets the total.
  pub applied-total :
      (g : FlowVal → ℕ) (f : Call → ℕ)
      → ((c : Call) (val : FlowVal) (a : ℕ)
          → g val ≡ a % 2 ^ 64
          → g (effect c val) ≡ (a + f c) % 2 ^ 64)
      → (calls : List Call) (val : FlowVal) (a : ℕ) → g val ≡ a % 2 ^ 64
      → g (applied calls val) ≡ (a + total f calls) % 2 ^ 64
  applied-total g f adds [] val a h = omega arith
  applied-total g f adds (c ∷ calls) val a h = elim (Bool-cases (same_key (key_of ntohs c) k)) [
    | inl own ↦
        rw own
          (applied-total g f adds calls (effect c val) (a + f c) (adds c val a h) ∙ omega arith)
    | inr other ↦ rw other (applied-total g f adds calls val a h ∙ omega arith)
  ]

  pub applied-state :
      (calls : List Call) (val : FlowVal) → (applied calls val).state ≡ last_state val.state calls
  applied-state [] val = refl
  applied-state (c ∷ calls) val = elim (Bool-cases (same_key (key_of ntohs c) k)) [
    | inl own ↦
        rw (own, applied, last_state)
          (applied-state calls (effect c val) ∙ ap (λ x. last_state x calls) (effect-state c val))
    | inr other ↦ rw (other, applied, last_state) (applied-state calls val)
  ]

  pub applied-start :
      (calls : List Call) (val : FlowVal) → (applied calls val).start_ns ≡ val.start_ns
  applied-start [] val = refl
  applied-start (c ∷ calls) val = elim (Bool-cases (same_key (key_of ntohs c) k)) [
    | inl own ↦ rw (own, applied) (applied-start calls (effect c val) ∙ effect-start c val)
    | inr other ↦ rw (other, applied) (applied-start calls val)
  ]

module _ {F C : Type 0} ⦃flows : HashMap F FlowKey FlowVal⦄ ⦃starts : HashMap C ℕ ℕ⦄
    (ntohs : ℕ → ℕ) where
  step_key :
      (c : Call) (s : FlowState F C) (val : FlowVal)
      → (key_of ntohs c).family ≡ af_inet
      → KeepsOpen ntohs (key_of ntohs c) c
      → entry ntohs (key_of ntohs c) s ≡ some val
      → entry ntohs (key_of ntohs c) (step ntohs c s) ≡ some (effect c val)
  unfolding tcp_cleanup_rbuf tcp_sendmsg tcp_set_state
  step_key (sendmsg ctx sk size) s val ipv4 h e =
      ap (λ t. entry ntohs (fill_flow_key ntohs ctx sk) t)
        (on_flow-present ntohs _ _ _ s val ipv4 e)
      ∙ flows.store_same s.flow_map _ _ val e
  step_key (cleanup_rbuf ctx sk copied) s val ipv4 h e =
      ap (λ t. entry ntohs (fill_flow_key ntohs ctx sk) t)
        (on_flow-present ntohs _ _ _ s val ipv4 e)
      ∙ flows.store_same s.flow_map _ _ val e
  step_key (set_state ctx sk state) s val ipv4 h e =
      ap (λ t. entry ntohs (fill_flow_key ntohs ctx sk) t)
        (on_flow-present ntohs _ _ _ s val ipv4 e)
      ∙ ap (λ m. flows.lookup_elem m (fill_flow_key ntohs ctx sk))
          (note_connect-flow_map ntohs state _ _ _)
      ∙ flows.store_same s.flow_map _ _ val e
  step_key (done ctx sk) s val ipv4 h e = absurd (h refl)

  step-own :
      (c : Call) (k : FlowKey) (s : FlowState F C) (val : FlowVal)
      → k.family ≡ af_inet
      → key_of ntohs c ≡ k
      → KeepsOpen ntohs k c
      → entry ntohs k s ≡ some val
      → entry ntohs k (step ntohs c s) ≡ some (effect c val)
  step-own c k s val ipv4 own =
      subst
        (λ j.
          KeepsOpen ntohs j c
          → entry ntohs j s ≡ some val
          → entry ntohs j (step ntohs c s) ≡ some (effect c val))
        own (step_key c s val (ap (λ (j : FlowKey). j.family) own ∙ ipv4))

  pub run-tracked :
      (calls : List Call) (k : FlowKey) (s : FlowState F C) (val : FlowVal)
      → k.family ≡ af_inet
      → All (KeepsOpen ntohs k) calls
      → entry ntohs k s ≡ some val
      → entry ntohs k (run ntohs calls s) ≡ some (applied ntohs k calls val)
  run-tracked [] k s val ipv4 h e = e
  run-tracked (c ∷ calls) k s val ipv4 h e = elim (Bool-cases (same_key (key_of ntohs c) k)) [
    | inl own ↦ rw own (
        run-tracked calls k _ _ ipv4 h.1 (step-own c k s val ipv4 ((same_key_iff _ _).0 own) h.0 e))
    | inr other ↦
        rw other
          (run-tracked calls k _ val ipv4 h.1 (step-other ntohs c k s (keys_differ _ _ other) ∙ e))
  ]
