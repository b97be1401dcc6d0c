-- ===== src/Worker/Kernel/Counted.antt =====
-- A flow from its first send in the kernel (worker/src/ebpf/tcp_flow.bpf.c) to the counts of its host
-- in the manager.
use perf_monitor.Prelude.{
  ℕ, ◌+◌, ◌≡◌, ◌≢◌, ap, ◌∙◌, true, none, some, List, [], ◌∷◌, ◌++◌, All, length, arith,
}
use perf_monitor.Prelude.Int.{ℤ, pos, to_i64}
use perf_monitor.Text.{Bytes}
use perf_monitor.Text.Stream.{Stream}
use perf_monitor.Double.{Double}
use perf_monitor.Message.{MonitorInfo}
use perf_monitor.Host.{Hosts, get}
use perf_monitor.Rpc.{set_monitor_info}
use perf_monitor.Rpc.Stored.{wrapped, sum_by}
use perf_monitor.Worker.Observe.{BpfFlowEvent, flow_event_size}
use perf_monitor.Worker.System.{System, World}
use perf_monitor.Worker.Pusher.{MonitorPusher, Readings, push}
use perf_monitor.Worker.Pusher.Delivered.{whole, delivered}
use perf_monitor.Worker.Kernel.{HashMap, Context}
use perf_monitor.Worker.Kernel.Flow.{
  FlowKey, FlowVal, FlowState, Sock, fill_flow_key, tcp_sendmsg, tcp_done, af_inet,
}
use perf_monitor.Worker.Kernel.Calls.{Call, run}
use perf_monitor.Worker.Kernel.Tracked.{entry}
use perf_monitor.Worker.Kernel.Lifetime.{KeepsOpen, total, size_of, copied_of}
use perf_monitor.Worker.Kernel.Report.{closed_flow}

module _ {D F C : Type 0} ⦃d : Double D⦄ ⦃flows : HashMap F FlowKey FlowVal⦄
    ⦃starts : HashMap C ℕ ℕ⦄ (os : System) (extract_double : D → Stream → D × Stream)
    (inet_ntop : ℕ → Bytes) (ntohs : ℕ → ℕ) where
  -- A flow of a tracker that has reported nothing yet gets room in the map at its first send, and
  -- ends after further calls as the first that does. If a connected worker with empty buffers then
  -- reads the buffer of flows, its round sends a message, and once the manager has handled it, the
  -- host has one flow, with the bytes that the calls sent and received on it, modulo 2^64.
  pub flow_counted :
      (s : FlowState F C) (ctx : Context) (sk : Sock) (size : ℕ) (calls : List Call)
      (last_ctx : Context) (last_sk : Sock) (self : MonitorPusher D) (readings : Readings)
      (w : World) (hosts : Hosts D) (now : ℤ)
      → let key = fill_flow_key ntohs ctx sk in
        let before = run ntohs calls (tcp_sendmsg ntohs ctx sk size s) in
        key.family ≡ af_inet
        → entry ntohs key s ≡ none
        → entry ntohs key (tcp_sendmsg ntohs ctx sk size s) ≢ none
        → All (KeepsOpen ntohs key) calls
        → fill_flow_key ntohs last_ctx last_sk ≡ key
        → before.flow_events ≡ []
        → self.connected ≡ true
        → self.observer.process_events ≡ []
        → self.observer.flow_events ≡ []
        → readings.flows ≡ (tcp_done ntohs last_ctx last_sk before).flow_events
        → (info : MonitorInfo D) × ((push os extract_double inet_ntop self readings w).0.1
            ≡ some info)
          × ((get (set_monitor_info hosts now info).0 info.hostname).tcp_flow_count ≡ pos 1)
          × ((get (set_monitor_info hosts now info).0 info.hostname).tcp_bytes_sent
              ≡ wrapped (size + total ntohs key size_of calls))
          × ((get (set_monitor_info hosts now info).0 info.hostname).tcp_bytes_recv
              ≡ wrapped (total ntohs key copied_of calls))
  flow_counted s ctx sk size calls last_ctx last_sk self readings w hosts now ipv4 missing room
        opens last first connected p f all =
      let (info, message, counts, _, _) =
        delivered os extract_double inet_ntop self readings w hosts now connected p f in
      let (_, (ev, events, out, back, _, _, _, _, _, _)) =
        closed_flow ntohs s ctx sk size calls last_ctx last_sk ipv4 missing room opens last in
      let one : readings.flows ≡ (flow_event_size, ev) ∷ [] =
        all ∙ events ∙ ap (λ l. l ++ (flow_event_size, ev) ∷ []) first in
      let raws : whole flow_event_size readings.flows ≡ ev ∷ [] = ap (whole flow_event_size) one in
      let sum_out = ap (sum_by (λ (raw : BpfFlowEvent). raw.bytes_sent)) raws in
      let sum_back = ap (sum_by (λ (raw : BpfFlowEvent). raw.bytes_recv)) raws in
      (
        info,
        message,
        counts.flows ∙ ap (λ l. pos (length l)) raws,
        counts.bytes_sent ∙ ap to_i64 (omega (arith, sum_out, out)),
        counts.bytes_recv ∙ ap to_i64 (omega (arith, sum_back, back)),
      )
