-- ===== src/Worker/Pusher/Delivered.antt =====
-- What a round of the worker leaves in the manager.
use perf_monitor.Prelude.{
  ℕ, suc, ◌+◌, ◌≡◌, refl, ap, ◌∙◌, true, List, [], ◌∷◌, ◌++◌, Option, some, map, length,
  if◌then◌else◌, ltb, ◌==◌, append_assoc, append-nil, Bool-cases, inl, inr,
}
use perf_monitor.Prelude.Int.{ℤ, pos}
use perf_monitor.Text.{Bytes, codes, str_eq}
use perf_monitor.Text.Stream.{Stream}
use perf_monitor.Double.{Double}
use perf_monitor.Message.{ObserveBatch, MonitorInfo}
use perf_monitor.Host.{Hosts, get}
use perf_monitor.Rpc.{set_monitor_info}
use perf_monitor.Rpc.Stored.{
  execs, exits, sent, received, sum_by, wrapped, batch_or_empty, stored_counters,
}
use perf_monitor.Worker.Observe.{
  BpfProcessEvent, BpfFlowEvent, ObserveCollector, bpf_to_process, bpf_to_flow, process_event_size,
  flow_event_size, on_process_event, on_flow_event, poll_processes, poll_flows, collect,
}
use perf_monitor.Worker.Bpf.Cycle
use perf_monitor.Worker.System.{System, World}
use perf_monitor.Worker.Pusher.{
  MonitorPusher, Readings, process_message, flow_message, build_info, push,
}

-- The structs of the samples that are not too short.
abbrev pub whole {ℓ} : {A : Type ℓ} → ℕ → List (ℕ × A) → List A
whole size [] = []
whole size ((sz, raw) ∷ rest) = if ltb sz size then whole size rest else raw ∷ whole size rest

poll_processes-whole :
    (samples : List (ℕ × BpfProcessEvent)) (self : ObserveCollector)
    → poll_processes self samples ≡ record self {
      process_events = self.process_events ++ map bpf_to_process (whole process_event_size samples);
    }
unfolding poll_processes on_process_event
poll_processes-whole [] self = rw (append-nil self.process_events) refl
poll_processes-whole ((sz, raw) ∷ rest) self = elim (Bool-cases (ltb sz process_event_size)) [
  | inl short ↦ rw short (poll_processes-whole rest self)
  | inr long ↦ rw long (
      poll_processes-whole rest _
      ∙ rw (append_assoc self.process_events (bpf_to_process raw ∷ []) _) refl)
]

poll_flows-whole :
    (inet_ntop : ℕ → Bytes) (samples : List (ℕ × BpfFlowEvent)) (self : ObserveCollector)
    → poll_flows inet_ntop self samples ≡ record self {
      flow_events = self.flow_events ++ map (bpf_to_flow inet_ntop) (whole flow_event_size samples);
    }
unfolding poll_flows on_flow_event
poll_flows-whole inet_ntop [] self = rw (append-nil self.flow_events) refl
poll_flows-whole inet_ntop ((sz, raw) ∷ rest) self = elim (Bool-cases (ltb sz flow_event_size)) [
  | inl short ↦ rw short (poll_flows-whole inet_ntop rest self)
  | inr long ↦ rw long (
      poll_flows-whole inet_ntop rest _
      ∙ rw (append_assoc self.flow_events (bpf_to_flow inet_ntop raw ∷ []) _) refl)
]

collect-whole :
    (inet_ntop : ℕ → Bytes) (self : ObserveCollector) (readings : Readings)
    → self.process_events ≡ []
    → self.flow_events ≡ []
    → collect inet_ntop self readings.processes readings.flows ≡ record {
      process_events = map bpf_to_process (whole process_event_size readings.processes);
      flow_events = map (bpf_to_flow inet_ntop) (whole flow_event_size readings.flows);
    }
unfolding collect
collect-whole inet_ntop self readings p f =
    rw (poll_processes-whole readings.processes self)
      (poll_flows-whole inet_ntop readings.flows _ ∙ rw (p, f) refl)

-- How many of the process events are of the kind 0, and how many are not.
abbrev pub starts : List BpfProcessEvent → ℕ
starts [] = 0
starts (raw ∷ rest) = (if raw.event_type == 0 then 1 else 0) + starts rest

abbrev pub ends : List BpfProcessEvent → ℕ
ends [] = 0
ends (raw ∷ rest) = (if raw.event_type == 0 then 0 else 1) + ends rest

execs-starts :
    (raws : List BpfProcessEvent)
    → execs (map process_message (map bpf_to_process raws)) ≡ starts raws
unfolding process_message bpf_to_process codes str_eq
execs-starts [] = refl
execs-starts (raw ∷ rest) = elim (Bool-cases (raw.event_type == 0)) [
  | inl zero ↦ rw zero (ap (λ n. 1 + n) (execs-starts rest))
  | inr other ↦ rw other (ap (λ n. 0 + n) (execs-starts rest))
]

exits-ends :
    (raws : List BpfProcessEvent)
    → exits (map process_message (map bpf_to_process raws)) ≡ ends raws
unfolding process_message bpf_to_process codes str_eq
exits-ends [] = refl
exits-ends (raw ∷ rest) = elim (Bool-cases (raw.event_type == 0)) [
  | inl zero ↦ rw zero (ap (λ n. 0 + n) (exits-ends rest))
  | inr other ↦ rw other (ap (λ n. 1 + n) (exits-ends rest))
]

flows-sums :
    (inet_ntop : ℕ → Bytes) (raws : List BpfFlowEvent)
    → let flows = map flow_message (map (bpf_to_flow inet_ntop) raws) in
      (length flows ≡ length raws)
      × (sent flows ≡ sum_by (λ (raw : BpfFlowEvent). raw.bytes_sent) raws)
      × (received flows ≡ sum_by (λ (raw : BpfFlowEvent). raw.bytes_recv) raws)
unfolding flow_message bpf_to_flow
flows-sums inet_ntop [] = (refl, refl, refl)
flows-sums inet_ntop (raw ∷ rest) =
    let (l, s, r) = flows-sums inet_ntop rest in
    (ap suc l, ap (λ n. raw.bytes_sent + n) s, ap (λ n. raw.bytes_recv + n) r)

abbrev batch_of : ObserveCollector → Option ObserveBatch
batch_of o = some (record {
  process_events = map process_message o.process_events;
  flow_events = map flow_message o.flow_events;
})

module _ {D : Type 0} ⦃d : Double D⦄ where
  -- Of a message: what the manager holds of its host once it has handled it, at the samples that
  -- the worker read.
  pub record IsCounted (hosts : Hosts D) (readings : Readings) (now : ℤ) (info : MonitorInfo D)
      : Type 0 where
    pub exec :
        (get (set_monitor_info hosts now info).0 info.hostname).proc_exec_count
        ≡ pos (starts (whole process_event_size readings.processes))
    pub exit :
        (get (set_monitor_info hosts now info).0 info.hostname).proc_exit_count
        ≡ pos (ends (whole process_event_size readings.processes))
    pub flows :
        (get (set_monitor_info hosts now info).0 info.hostname).tcp_flow_count
        ≡ pos (length (whole flow_event_size readings.flows))
    pub bytes_sent :
        (get (set_monitor_info hosts now info).0 info.hostname).tcp_bytes_sent
        ≡ wrapped
            (sum_by (λ (raw : BpfFlowEvent). raw.bytes_sent) (whole flow_event_size readings.flows))
    pub bytes_recv :
        (get (set_monitor_info hosts now info).0 info.hostname).tcp_bytes_recv
        ≡ wrapped
            (sum_by (λ (raw : BpfFlowEvent). raw.bytes_recv) (whole flow_event_size readings.flows))

  counted :
      (inet_ntop : ℕ → Bytes) (hosts : Hosts D) (readings : Readings) (now : ℤ)
      (info : MonitorInfo D)
      → info.observe_batch
        ≡ some (record {
          process_events =
              map process_message
                (map bpf_to_process (whole process_event_size readings.processes));
          flow_events =
              map flow_message (map (bpf_to_flow inet_ntop) (whole flow_event_size readings.flows));
        })
      → IsCounted hosts readings now info
  counted inet_ntop hosts readings now info e =
      let (exec, exit, count, out, back) = stored_counters hosts now info in
      let (l, s, r) = flows-sums inet_ntop (whole flow_event_size readings.flows) in
      let batch = ap batch_or_empty e in
      let processes = whole process_event_size readings.processes in
      record {
        exec =
            exec ∙ ap (λ b. pos (execs b.process_events)) batch ∙ ap pos (execs-starts processes);
        exit = exit ∙ ap (λ b. pos (exits b.process_events)) batch ∙ ap pos (exits-ends processes);
        flows = count ∙ ap (λ b. pos (length b.flow_events)) batch ∙ ap pos l;
        bytes_sent = out ∙ ap (λ b. wrapped (sent b.flow_events)) batch ∙ ap wrapped s;
        bytes_recv = back ∙ ap (λ b. wrapped (received b.flow_events)) batch ∙ ap wrapped r;
      }

module _ {D : Type 0} ⦃d : Double D⦄ (os : System) (extract_double : D → Stream → D × Stream)
    (inet_ntop : ℕ → Bytes) where
  -- A connected worker whose buffers are empty sends a message in its round, and its buffers are
  -- empty again. Once the manager has handled that message, whatever it held before, it counts for
  -- the host the kernel's process starts and ends, its flows, and their bytes modulo 2^64: those of
  -- the samples of this round that were not too short.
  pub delivered :
      (self : MonitorPusher D) (readings : Readings) (w : World) (hosts : Hosts D) (now : ℤ)
      → self.connected ≡ true
      → self.observer.process_events ≡ []
      → self.observer.flow_events ≡ []
      → let (after, message) = (push os extract_double inet_ntop self readings w).0 in
        (info : MonitorInfo D) × (message ≡ some info)
        × IsCounted hosts readings now info
        × (after.observer.process_events ≡ [])
        × (after.observer.flow_events ≡ [])
  unfolding push build_info
  delivered self readings w hosts now c p f =
      let (bpf, after) = Cycle.collect os self.bpf_diagnoser w in
      let whole_round = collect-whole inet_ntop self.observer readings p f in
      let collected : MonitorPusher D = record self {
        observer = collect inet_ntop self.observer readings.processes readings.flows;
        bpf_diagnoser = bpf;
      } in
      let info : MonitorInfo D = build_info collected (os.time after.calls) in
      let batch = ap (batch_of) whole_round in
      (info, rw c refl, counted inet_ntop hosts readings now info batch, refl, refl)
