-- ===== src/Worker/Kernel/Calls.antt =====
-- Runs of the programs of worker/src/ebpf/tcp_flow.bpf.c, in the order in which the kernel makes
-- them.
use perf_monitor.Prelude.{ℕ, ◌≡◌, ◌≢◌, ◌↔◌, Bool, true, false, ◌&&◌, List, [], ◌∷◌, ◌==◌, arith}
use perf_monitor.Prelude.Int.{ℤ}
use perf_monitor.Worker.Kernel.{HashMap, Context}
use perf_monitor.Worker.Kernel.Flow.{
  FlowKey, FlowVal, FlowState, Sock, fill_flow_key, tcp_sendmsg, tcp_cleanup_rbuf, tcp_set_state,
  tcp_done,
}

pub data Call : Type 0 where
  sendmsg : Context → Sock → ℕ → Call
  cleanup_rbuf : Context → Sock → ℤ → Call
  set_state : Context → Sock → ℤ → Call
  done : Context → Sock → Call

unfoldable pub same_key : FlowKey → FlowKey → Bool
same_key a b =
    (a.pid == b.pid)
    && (a.saddr == b.saddr)
    && (a.daddr == b.daddr)
    && (a.sport == b.sport)
    && (a.dport == b.dport)
    && (a.family == b.family)
    && (a.protocol == b.protocol)

pub same_key_iff : (a b : FlowKey) → (same_key a b ≡ true) ↔ (a ≡ b)
unfolding same_key
same_key_iff a b = ground arith

pub keys_differ : (a b : FlowKey) → same_key a b ≡ false → a ≢ b
keys_differ a b other e = let same = (same_key_iff a b).1 e in absurd (cc)

-- The flow that a call is about
abbrev pub key_of : (ℕ → ℕ) → Call → FlowKey
key_of ntohs (sendmsg ctx sk size) = fill_flow_key ntohs ctx sk
key_of ntohs (cleanup_rbuf ctx sk copied) = fill_flow_key ntohs ctx sk
key_of ntohs (set_state ctx sk state) = fill_flow_key ntohs ctx sk
key_of ntohs (done ctx sk) = fill_flow_key ntohs ctx sk

module _ {F C : Type 0} ⦃flows : HashMap F FlowKey FlowVal⦄ ⦃starts : HashMap C ℕ ℕ⦄
    (ntohs : ℕ → ℕ) where
  abbrev pub step : Call → FlowState F C → FlowState F C
  step (sendmsg ctx sk size) s = tcp_sendmsg ntohs ctx sk size s
  step (cleanup_rbuf ctx sk copied) s = tcp_cleanup_rbuf ntohs ctx sk copied s
  step (set_state ctx sk state) s = tcp_set_state ntohs ctx sk state s
  step (done ctx sk) s = tcp_done ntohs ctx sk s

  abbrev pub run : List Call → FlowState F C → FlowState F C
  run [] s = s
  run (c ∷ calls) s = run calls (step c s)
