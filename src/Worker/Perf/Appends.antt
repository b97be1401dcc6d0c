-- ===== src/Worker/Perf/Appends.antt =====
-- What a round of `worker_loop` of worker/src/diagnose/perf_diagnoser.cpp does to the events.
use perf_monitor.Prelude.{
  ℕ, ◌≡◌, refl, sym, ◌∙◌, Bool, true, false, List, [], ◌∷◌, ◌++◌, append-nil, ltb, if◌then◌else◌,
  Bool-cases, inl, inr, ◌==◌, arith,
}
use perf_monitor.Text.{Bytes, codes, ◌<<◌}
use perf_monitor.Double.{Double}
use perf_monitor.Worker.System.{System, World, M, ask}
use perf_monitor.Worker.Event.{CppDiagnoseEvent}
use perf_monitor.Worker.Monitor.{sub_u64}
use perf_monitor.Worker.Runner.{is_running}
use perf_monitor.Worker.Bpf.Cycle.{has_data, is_nil}
use perf_monitor.Worker.Perf.{PerfDiagnoser, Probe, has_tag, event_of, read_pid_by_name}
use perf_monitor.Worker.Perf.Round.{emit_pending, finish, run_perf, judge, scan_one, scan, round}

-- Whatever the world, an action leaves these events.
abbrev Leaves : {D : Type 0} → List (CppDiagnoseEvent D) → M (PerfDiagnoser D) → Type 0
Leaves events m = (w : World) → (m w).0.events ≡ events

Leaves-if :
    {D : Type 0} (b : Bool) (events : List (CppDiagnoseEvent D)) (m k : M (PerfDiagnoser D))
    → Leaves events m
    → Leaves events k
    → Leaves events (if b then m else k)
Leaves-if true events m k p q = p
Leaves-if false events m k p q = q

module _ {D : Type 0} ⦃d : Double D⦄ (os : System) (probe : Probe) where
  run_perf-events :
      (self : PerfDiagnoser D) (name tag : Bytes) (pid : ℕ) (x : D) (w : World)
      → (run_perf os probe self name tag pid x w).0.events ≡ self.events
  unfolding run_perf
  run_perf-events self name tag pid x w = ground arith

  judge-events :
      (self : PerfDiagnoser D) (name tag : Bytes) (pid : ℕ) (x : D) (w : World)
      → (judge os probe self name tag pid x w).0.events ≡ self.events
  unfolding judge
  judge-events self name tag pid x w =
      Leaves-if _ _ _ _ (λ w. refl)
        (Leaves-if _ _ _ _ (λ w. run_perf-events _ name tag pid _ w) (λ w. refl)) w

  scan_one-events :
      (self : PerfDiagnoser D) (ms : ℕ) (name : Bytes) (w : World)
      → (scan_one os probe self ms name w).0.events ≡ self.events
  unfolding scan_one ask
  scan_one-events self ms name w =
      let tag = name << codes "_proc" in
      elim (Bool-cases (has_tag tag self.triggered_tags)) [
        | inl tagged ↦ rw tagged refl
        | inr new ↦ rw new (elim (Bool-cases (read_pid_by_name (os.proc w.calls) name == 0)) [
          | inl gone ↦ rw gone refl
          | inr there ↦ rw there (judge-events _ name tag _ _ _)
        ])
      ]

  scan-events :
      (self : PerfDiagnoser D) (ms : ℕ) (names : List Bytes) (w : World)
      → (scan os probe self ms names w).0.events ≡ self.events
  unfolding scan
  scan-events self ms [] w = refl
  scan-events self ms (name ∷ names) w =
      let r = scan_one os probe self ms name w in
      scan-events r.0 ms names r.1 ∙ scan_one-events self ms name w

  emit_pending-events :
      (self : PerfDiagnoser D) (w : World)
      → (new : List (CppDiagnoseEvent D)) × ((emit_pending os probe self w).0.events
          ≡ self.events ++ new)
  unfolding emit_pending
  emit_pending-events self w =
      let (size, v) = ask (λ n. os.stat_size n self.pending_ev.file_path) w in
      elim (Bool-cases self.pending_ev.pending) [
        | inl pending ↦ elim (Bool-cases (has_data size)) [
          | inl filled ↦ (event_of self.pending_ev ∷ [], rw (pending, filled) refl)
          | inr empty ↦ ([], rw (pending, empty) (sym (append-nil self.events)))
        ]
        | inr done ↦ ([], rw done (sym (append-nil self.events)))
      ]

  finish-events :
      (self : PerfDiagnoser D) (w : World)
      → (new : List (CppDiagnoseEvent D)) × ((finish os probe self w).0.events ≡ self.events ++ new)
  unfolding finish
  finish-events self w = elim (Bool-cases (is_nil self.triggered_tags)) [
    | inl quiet ↦ ([], rw quiet (sym (append-nil self.events)))
    | inr busy ↦
        let (asked, v) = is_running os self.perf_runner w in
        elim (Bool-cases asked.0) [
          | inl alive ↦ ([], rw (busy, alive) (sym (append-nil self.events)))
          | inr dead ↦
              let (new, e) = emit_pending-events (record self { perf_runner = asked.1 }) v in
              (new, rw (busy, dead) e)
        ]
  ]

  -- A round of the loop appends to the events, and does nothing else to them.
  pub round-events :
      (self : PerfDiagnoser D) (w : World)
      → (new : List (CppDiagnoseEvent D)) × ((round os probe self w).0.events ≡ self.events ++ new)
  unfolding round
  round-events self w =
      let (now, v) = ask probe.steady_ms w in
      let begun = record self { prev_wall = now } in
      let after = finish os probe begun v in
      let ms = if ltb 0 self.prev_wall then sub_u64 now self.prev_wall else 5000 in
      let (new, e) = finish-events begun v in
      (new, scan-events after.0 ms after.0.target_processes after.1 ∙ e)
