-- ===== src/Manager/Presence.antt =====
-- Which hosts the running manager has.
use perf_monitor.Prelude.{
  ℕ, ◌≡◌, refl, ap, sym, ◌∙◌, ◌↔◌, false, List, [], ◌∷◌, ◌++◌, Option, none, some, arith,
  if◌then◌else◌, Bool-cases, inl, inr,
}
use perf_monitor.Prelude.Int.{ℤ, ◌≤ℤ◌}
use perf_monitor.Text.{Bytes, str_eq, codes}
use perf_monitor.Double.{Double}
use perf_monitor.Table.{lookup, bytes_eq}
use perf_monitor.Message.{ProcessEvent, FlowEvent, ObserveBatch, MonitorInfo}
use perf_monitor.Host.{HostSnapshot, Hosts, remove_expired}
use perf_monitor.Host.Refinement.{Call, report, sweep, step, run}
use perf_monitor.Host.Sweep.{is_old, last_report, IsTimed, kept_iff_recent}
use perf_monitor.Rpc.{
  count_processes, count_flows, observe, metrics_of, snapshot_of, set_monitor_info,
}
use perf_monitor.Program.{max_age}
use perf_monitor.Manager.{State, started, Step, Reach, here, next}

module _ {D : Type 0} ⦃d : Double D⦄ where
  count_processes-last_update :
      (events : List ProcessEvent) (snap : HostSnapshot D)
      → (count_processes snap events).last_update ≡ snap.last_update
  unfolding count_processes
  count_processes-last_update [] snap = refl
  count_processes-last_update (pe ∷ rest) snap =
      count_processes-last_update rest _ ∙ elim (Bool-cases (str_eq pe.event (codes "exec"))) [
        | inl exec ↦ rw exec refl
        | inr exit ↦ rw exit refl
      ]

  count_flows-last_update :
      (events : List FlowEvent) (snap : HostSnapshot D)
      → (count_flows snap events).last_update ≡ snap.last_update
  unfolding count_flows
  count_flows-last_update [] snap = refl
  count_flows-last_update (fe ∷ rest) snap = count_flows-last_update rest _

  observe-last_update :
      (snap : HostSnapshot D) (batch : Option ObserveBatch)
      → (observe snap batch).last_update ≡ snap.last_update
  unfolding observe
  observe-last_update snap none = refl
  observe-last_update snap (some batch) =
      count_flows-last_update batch.flow_events (count_processes snap batch.process_events)
      ∙ count_processes-last_update batch.process_events snap

  snapshot_of-last_update :
      (now : ℤ) (request : MonitorInfo D) → (snapshot_of now request).last_update ≡ now
  unfolding snapshot_of metrics_of
  snapshot_of-last_update now request =
      observe-last_update (metrics_of now request) request.observe_batch

  run-append :
      (hosts : Hosts D) (cs : List (Call D)) (c : Call D)
      → run hosts (cs ++ c ∷ []) ≡ step (run hosts cs) c
  unfolding run
  run-append hosts [] c = refl
  run-append hosts (b ∷ cs) c = run-append (step hosts b) cs c

  IsTimed-sweep :
      (cs : List (Call D)) (age start clock now : ℤ)
      → IsTimed age start clock cs
      → clock ≤ℤ now
      → IsTimed age start now (cs ++ sweep now age ∷ [])
  IsTimed-sweep [] age start clock now h later = (omega arith, refl, omega arith)
  IsTimed-sweep (report name snap ∷ cs) age start clock now h later =
      IsTimed-sweep cs age start clock now h later
  IsTimed-sweep (sweep t a ∷ cs) age start clock now h later =
      (h.0, h.1, IsTimed-sweep cs age t clock now h.2 later)

  IsTimed-report :
      (cs : List (Call D)) (age start clock : ℤ) (name : Bytes) (snap : HostSnapshot D)
      → IsTimed age start clock cs
      → IsTimed age start clock (cs ++ report name snap ∷ [])
  IsTimed-report [] age start clock name snap h = h
  IsTimed-report (report n s ∷ cs) age start clock name snap h =
      IsTimed-report cs age start clock name snap h
  IsTimed-report (sweep t a ∷ cs) age start clock name snap h =
      (h.0, h.1, IsTimed-report cs age t clock name snap h.2)

  IsTimed-later :
      (cs : List (Call D)) (age start clock now : ℤ)
      → IsTimed age start clock cs
      → clock ≤ℤ now
      → IsTimed age start now cs
  IsTimed-later [] age start clock now h later = omega arith
  IsTimed-later (report name snap ∷ cs) age start clock now h later =
      IsTimed-later cs age start clock now h later
  IsTimed-later (sweep t a ∷ cs) age start clock now h later =
      (h.0, h.1, IsTimed-later cs age t clock now h.2 later)

  last_report-sweep :
      (cs : List (Call D)) (name : Bytes) (last : Option ℤ) (now age : ℤ)
      → last_report name last (cs ++ sweep now age ∷ []) ≡ last_report name last cs
  last_report-sweep [] name last now age = refl
  last_report-sweep (report n s ∷ cs) name last now age = last_report-sweep cs name _ now age
  last_report-sweep (sweep t a ∷ cs) name last now age = last_report-sweep cs name last now age

  last_report-report :
      (cs : List (Call D)) (name : Bytes) (last : Option ℤ) (hostname : Bytes)
      (snap : HostSnapshot D)
      → last_report name last (cs ++ report hostname snap ∷ [])
        ≡ (if str_eq hostname name then some snap.last_update else last_report name last cs)
  last_report-report [] name last hostname snap = refl
  last_report-report (report n s ∷ cs) name last hostname snap =
      last_report-report cs name _ hostname snap
  last_report-report (sweep t a ∷ cs) name last hostname snap =
      last_report-report cs name last hostname snap

-- The time of the newest report of a host
abbrev pub last_of : Bytes → List (Bytes × ℤ) → Option ℤ
last_of name [] = none
last_of name ((hostname, now) ∷ reports) =
    if str_eq hostname name then some now else last_of name reports

-- The calls that the host manager has had
abbrev Explains : {D : Type 0} ⦃d : Double D⦄ → ℤ → State D → List (Call D) → Type 0
Explains start s calls =
    (s.hosts ≡ run [] calls)
    × IsTimed max_age start s.clock calls
    × ((name : Bytes) → last_report name none calls ≡ last_of name s.reports)

module _ {D : Type 0} ⦃d : Double D⦄ {stat : Bytes → Option ℕ} {run_pipeline : Bytes → Bytes} where
  Step-Explains :
      {s t : State D}
      → (start : ℤ) → Step stat run_pipeline s t
      → (calls : List (Call D)) → Explains start s calls
      → (more : List (Call D)) × Explains start t more
  unfolding set_monitor_info step
  Step-Explains start Step.signal calls h = (calls, h)
  Step-Explains start (Step.report now request) calls (same, timed, last) =
      let snap : HostSnapshot D = snapshot_of now request in
      let call : Call D = report request.hostname snap in
      (
        calls ++ call ∷ [],
        (
          ap (λ hosts. step hosts call) same ∙ sym (run-append [] calls call),
          IsTimed-report calls max_age start _ request.hostname snap timed,
          λ name.
              last_report-report calls name none request.hostname snap
              ∙ rw (snapshot_of-last_update now request, last name) refl,
        ),
      )
  Step-Explains start (Step.sleep at on) calls h = (calls, h)
  Step-Explains start (Step.leave at off) calls h = (calls, h)
  Step-Explains start (Step.sweep now at later) calls (same, timed, last) =
      let call : Call D = sweep now max_age in
      (
        calls ++ call ∷ [],
        (
          ap (λ hosts. step hosts call) same ∙ sym (run-append [] calls call),
          IsTimed-sweep calls max_age start _ now timed later,
          λ name. last_report-sweep calls name none now max_age ∙ last name,
        ),
      )
  Step-Explains start (Step.clear at) calls h = (calls, h)
  Step-Explains start (Step.join at ended) calls h = (calls, h)
  Step-Explains start (Step.answer select accept bytes on) calls h = (calls, h)
  Step-Explains start (Step.end_loop on off) calls h = (calls, h)

  Reach-Explains :
      (start : ℤ) {s : State D}
      → Reach stat run_pipeline (started start) s
      → (calls : List (Call D)) × Explains start s calls
  unfolding run
  Reach-Explains start here = ([], (refl, omega arith, λ name. refl))
  Reach-Explains start (next r st) =
      let (calls, h) = Reach-Explains start r in Step-Explains start st calls h

module _ {D : Type 0} ⦃d : Double D⦄ (stat : Bytes → Option ℕ) (run_pipeline : Bytes → Bytes) where
  -- However reports, sweeps, HTTP requests and signals have followed each other so far: the sweep that
  -- `main` makes next, at a time that has not fallen, leaves just those hosts whose newest report was
  -- taken at most sixty seconds before.
  pub present_iff_recent :
      (start now : ℤ) (s : State D) (name : Bytes)
      → Reach stat run_pipeline (started start) s
      → s.clock ≤ℤ now
      → ((snap : HostSnapshot D) × (lookup name (remove_expired s.hosts now max_age) ≡ some snap))
        ↔ ((t : ℤ) × (last_of name s.reports ≡ some t) × (is_old max_age now t ≡ false))
  present_iff_recent start now s name r later =
      let (calls, h) = Reach-Explains start r in
      let (same, timed, last) = h in
      let kept =
        kept_iff_recent calls max_age start now name
          (IsTimed-later calls max_age start s.clock now timed later) in
      rw (same, ← (last name)) kept
