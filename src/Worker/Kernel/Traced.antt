-- ===== src/Worker/Kernel/Traced.antt =====
-- Runs of the programs of worker/src/ebpf/process_trace.bpf.c, up to the manager's counts.
use perf_monitor.Prelude.{
  ℕ, ◌+◌, ◌≡◌, refl, ap, ◌∙◌, true, List, [], ◌∷◌, ◌++◌, some, arith, Bool-cases, inl, inr, ltb,
}
use perf_monitor.Prelude.Int.{ℤ, pos}
use perf_monitor.Text.{Bytes}
use perf_monitor.Text.Stream.{Stream}
use perf_monitor.Double.{Double}
use perf_monitor.Message.{MonitorInfo}
use perf_monitor.Host.{Hosts, get}
use perf_monitor.Rpc.{set_monitor_info}
use perf_monitor.Worker.Observe.{BpfProcessEvent, process_event_size}
use perf_monitor.Worker.System.{System, World}
use perf_monitor.Worker.Pusher.{MonitorPusher, Readings, push}
use perf_monitor.Worker.Pusher.Delivered.{starts, ends, whole, delivered}
use perf_monitor.Worker.Kernel.{HashMap, Context}
use perf_monitor.Worker.Kernel.Process.{ProcInfo, ExecEvent, ProcessState, trace_exec, trace_exit}

pub data Trace : Type 0 where
  exec : Context → ExecEvent → Trace
  exit : Context → Trace

-- How many programs were started, and how many processes ended.
abbrev pub exec_count : List Trace → ℕ
exec_count [] = 0
exec_count (exec ctx e ∷ rest) = 1 + exec_count rest
exec_count (exit ctx ∷ rest) = 0 + exec_count rest

abbrev pub exit_count : List Trace → ℕ
exit_count [] = 0
exit_count (exec ctx e ∷ rest) = 0 + exit_count rest
exit_count (exit ctx ∷ rest) = 1 + exit_count rest

-- A sample at the end adds its own share to the counts.
whole-append :
    (samples : List (ℕ × BpfProcessEvent)) (raw : BpfProcessEvent)
    → whole process_event_size (samples ++ (process_event_size, raw) ∷ [])
      ≡ whole process_event_size samples ++ raw ∷ []
whole-append [] raw = refl
whole-append ((sz, x) ∷ samples) raw = elim (Bool-cases (ltb sz process_event_size)) [
  | inl short ↦ rw short (whole-append samples raw)
  | inr long ↦ rw long (ap (λ l. x ∷ l) (whole-append samples raw))
]

starts-last :
    (raws : List BpfProcessEvent) (raw : BpfProcessEvent)
    → starts (raws ++ raw ∷ []) ≡ starts raws + starts (raw ∷ [])
starts-last [] raw = omega arith
starts-last (x ∷ raws) raw = omega (arith, starts-last raws raw)

ends-last :
    (raws : List BpfProcessEvent) (raw : BpfProcessEvent)
    → ends (raws ++ raw ∷ []) ≡ ends raws + ends (raw ∷ [])
ends-last [] raw = omega arith
ends-last (x ∷ raws) raw = omega (arith, ends-last raws raw)

starts-append :
    (samples : List (ℕ × BpfProcessEvent)) (raw : BpfProcessEvent)
    → starts (whole process_event_size (samples ++ (process_event_size, raw) ∷ []))
      ≡ starts (whole process_event_size samples) + starts (raw ∷ [])
starts-append samples raw = ap starts (whole-append samples raw) ∙ starts-last _ raw

ends-append :
    (samples : List (ℕ × BpfProcessEvent)) (raw : BpfProcessEvent)
    → ends (whole process_event_size (samples ++ (process_event_size, raw) ∷ []))
      ≡ ends (whole process_event_size samples) + ends (raw ∷ [])
ends-append samples raw = ap ends (whole-append samples raw) ∙ ends-last _ raw

module _ {M : Type 0} ⦃cache : HashMap M ℕ ProcInfo⦄ where
  abbrev pub trace : List Trace → ProcessState M → ProcessState M
  trace [] s = s
  trace (exec ctx e ∷ rest) s = trace rest (trace_exec ctx e s)
  trace (exit ctx ∷ rest) s = trace rest (trace_exit ctx s)

  trace-starts :
      (traces : List Trace) (s : ProcessState M)
      → starts (whole process_event_size (trace traces s).process_events)
        ≡ starts (whole process_event_size s.process_events) + exec_count traces
  unfolding trace_exec trace_exit
  trace-starts [] s = omega arith
  trace-starts (exec ctx e ∷ rest) s =
      omega (arith, trace-starts rest (trace_exec ctx e s), starts-append s.process_events _)
  trace-starts (exit ctx ∷ rest) s =
      omega (arith, trace-starts rest (trace_exit ctx s), starts-append s.process_events _)

  trace-ends :
      (traces : List Trace) (s : ProcessState M)
      → ends (whole process_event_size (trace traces s).process_events)
        ≡ ends (whole process_event_size s.process_events) + exit_count traces
  unfolding trace_exec trace_exit
  trace-ends [] s = omega arith
  trace-ends (exec ctx e ∷ rest) s =
      omega (arith, trace-ends rest (trace_exec ctx e s), ends-append s.process_events _)
  trace-ends (exit ctx ∷ rest) s =
      omega (arith, trace-ends rest (trace_exit ctx s), ends-append s.process_events _)

module _ {D M : Type 0} ⦃d : Double D⦄ ⦃cache : HashMap M ℕ ProcInfo⦄ (os : System)
    (extract_double : D → Stream → D × Stream) (inet_ntop : ℕ → Bytes) where
  -- If a connected worker with empty buffers reads all the samples of the programs that were started
  -- and the processes that ended since the buffer was empty, its round sends a message, and once the
  -- manager has handled it, the counts of the host are the number of the starts and of the ends.
  pub traced :
      (self : MonitorPusher D) (traces : List Trace) (s : ProcessState M) (readings : Readings)
      (w : World) (hosts : Hosts D) (now : ℤ)
      → self.connected ≡ true
      → self.observer.process_events ≡ []
      → self.observer.flow_events ≡ []
      → s.process_events ≡ []
      → readings.processes ≡ (trace traces s).process_events
      → (info : MonitorInfo D) × (((push os extract_double inet_ntop self readings w).0).1
          ≡ some info)
        × ((get (set_monitor_info hosts now info).0 info.hostname).proc_exec_count
            ≡ pos (exec_count traces))
        × ((get (set_monitor_info hosts now info).0 info.hostname).proc_exit_count
            ≡ pos (exit_count traces))
  traced self traces s readings w hosts now c p f none_yet all =
      let (info, message, counts, _, _) =
        delivered os extract_double inet_ntop self readings w hosts now c p f in
      let run_starts =
        ap (λ l. starts (whole process_event_size l)) all
        ∙ trace-starts traces s
        ∙ ap (λ l. starts (whole process_event_size l) + exec_count traces) none_yet
        ∙ omega arith in
      let run_ends =
        ap (λ l. ends (whole process_event_size l)) all
        ∙ trace-ends traces s
        ∙ ap (λ l. ends (whole process_event_size l) + exit_count traces) none_yet
        ∙ omega arith in
      (info, message, counts.exec ∙ ap pos run_starts, counts.exit ∙ ap pos run_ends)
