-- ===== src/Host/Refinement.antt =====
-- The manager's methods against a function from host names to what the reports said.
use mathlib.Core.Path.{fun_ext}
use perf_monitor.Prelude.{
  ◌-◌, ◌≡◌, refl, sym, ◌∙◌, ap, List, [], ◌∷◌, ◌++◌, Option, none, some, length, drop,
  if◌then◌else◌, Bool-cases, inl, inr,
}
use perf_monitor.Prelude.Int.{ℤ, ◌-ℤ◌, ltb_ℤ}
use perf_monitor.Text.{Bytes, str_eq, str_eq_iff}
use perf_monitor.Double.{Double}
use perf_monitor.Table.{
  lookup, bytes_eq, IsMap, unless, lookup-insert, lookup-erase_if, insert-IsMap, erase_if-IsMap,
}
use perf_monitor.Host.{
  DiagnoseRecord, HostSnapshot, Hosts, max_events, keep_last, compute_health, empty_snapshot,
  or_empty, renewed, get, update, is_expired, remove_expired,
}
use perf_monitor.Host.Tail.{keep_last-append, keep_last-drop}

-- What a caller can do to the manager: a report of a host, and a sweep at a time.
pub data Call (D : Type 0) : Type 0 where
  report : Bytes → HostSnapshot D → Call D
  sweep : ℤ → ℤ → Call D

-- The specification keeps, of each name that is there, the last report as it was sent, and all the
-- diagnose events that its reports carried since it came in.
abbrev pub Spec : Type 0 → Type 0
Spec D = Bytes → Option (HostSnapshot D × List (DiagnoseRecord D))

abbrev pub since :
    {D : Type 0} → Option (HostSnapshot D × List (DiagnoseRecord D)) → List (DiagnoseRecord D)
since none = []
since (some (snap, events)) = events

-- A sweep forgets a name whose last report is too old.
abbrev pub swept :
    {D : Type 0}
    → ℤ
    → ℤ
    → Option (HostSnapshot D × List (DiagnoseRecord D))
    → Option (HostSnapshot D × List (DiagnoseRecord D))
swept now max_age none = none
swept now max_age (some (snap, events)) =
    if ltb_ℤ max_age (now -ℤ snap.last_update) then none else some (snap, events)

abbrev pub step_spec : {D : Type 0} → Spec D → Call D → Spec D
step_spec v (report hostname snap) name =
    if str_eq hostname name then some (snap, since (v hostname) ++ snap.diagnose_events) else v name
step_spec v (sweep now max_age) name = swept now max_age (v name)

abbrev pub run_spec : {D : Type 0} → Spec D → List (Call D) → Spec D
run_spec v [] = v
run_spec v (c ∷ cs) = run_spec (step_spec v c) cs

abbrev pub nobody : {D : Type 0} → Spec D
nobody name = none

-- The map of the manager without its order
abbrev pub View : Type 0 → Type 0
View D = Bytes → Option (HostSnapshot D)

abbrev pub view : {D : Type 0} → Hosts D → View D
view hosts name = lookup name hosts

module _ {D : Type 0} ⦃d : Double D⦄ where
  unfoldable pub step : Hosts D → Call D → Hosts D
  step hosts (report hostname snap) = update hosts hostname snap
  step hosts (sweep now max_age) = remove_expired hosts now max_age

  unfoldable pub run : Hosts D → List (Call D) → Hosts D
  run hosts [] = hosts
  run hosts (c ∷ cs) = run (step hosts c) cs

  pub step-IsMap : (hosts : Hosts D) (c : Call D) → IsMap hosts → IsMap (step hosts c)
  unfolding step update remove_expired
  step-IsMap hosts (report hostname snap) h = insert-IsMap hostname _ hosts h
  step-IsMap hosts (sweep now max_age) h = erase_if-IsMap _ hosts h

  -- The snapshot that stands for an entry of the specification: under its name, with the score of
  -- its numbers and the last twenty events.
  abbrev pub shown :
      Bytes → Option (HostSnapshot D × List (DiagnoseRecord D)) → Option (HostSnapshot D)
  shown name none = none
  shown name (some (snap, events)) = some (record snap {
    hostname = name;
    health_score = compute_health snap;
    diagnose_events = drop (length events - 20) events;
  })

  abbrev pub shows : Spec D → View D
  shows v name = shown name (v name)

  kept_events :
      (name : Bytes) (o : Option (HostSnapshot D × List (DiagnoseRecord D)))
      → (or_empty (shown name o)).diagnose_events ≡ keep_last max_events (since o)
  unfolding empty_snapshot keep_last
  kept_events name none = refl
  kept_events name (some (snap, events)) = sym (keep_last-drop max_events events)

  renewed-shown :
      (name : Bytes) (snap : HostSnapshot D) (o : Option (HostSnapshot D × List (DiagnoseRecord D)))
      → some (renewed (or_empty (shown name o)) name snap)
        ≡ shown name (some (snap, since o ++ snap.diagnose_events))
  unfolding renewed
  renewed-shown name snap o =
      let all = since o ++ snap.diagnose_events in
      let last : keep_last max_events
            ((or_empty (shown name o)).diagnose_events ++ snap.diagnose_events)
          ≡ drop (length all - 20) all =
        ap (λ es. keep_last max_events (es ++ snap.diagnose_events)) (kept_events name o)
        ∙ keep_last-append max_events (since o) snap.diagnose_events
        ∙ keep_last-drop max_events all in
      ap
        (λ es. some (record snap {
          hostname = name;
          health_score = compute_health snap;
          diagnose_events = es;
        }))
        last

  unless-shown :
      (now max_age : ℤ) (name : Bytes) (o : Option (HostSnapshot D × List (DiagnoseRecord D)))
      → unless (is_expired now max_age) (shown name o) ≡ shown name (swept now max_age o)
  unless-shown now max_age name none = refl
  unless-shown now max_age name (some (snap, events)) =
      elim (Bool-cases (ltb_ℤ max_age (now -ℤ snap.last_update))) [
        | inl old ↦ rw old refl
        | inr recent ↦ rw recent refl
      ]

  view-step :
      (hosts : Hosts D) (v : Spec D) (c : Call D)
      → IsMap hosts
      → view hosts ≡ shows v
      → view (step hosts c) ≡ shows (step_spec v c)
  unfolding step update remove_expired get
  view-step hosts v (report hostname snap) h same = fun_ext λ name.
      let new = renewed (or_empty (lookup hostname hosts)) hostname snap in
      let found = lookup-insert hostname name new hosts in
      elim (Bool-cases (str_eq hostname name)) [
        | inl own ↦
            let e : hostname ≡ name = (str_eq_iff hostname name).0 own in
            let stands =
              ap (λ o. some (renewed (or_empty o) hostname snap)) (ap (λ f. f hostname) same)
              ∙ renewed-shown hostname snap (v hostname) in
            rw own (
              found
              ∙ rw own (
                  stands
                  ∙ ap (λ n. shown n (some (snap, since (v hostname) ++ snap.diagnose_events))) e))
        | inr other ↦ rw other (found ∙ rw other (ap (λ f. f name) same))
      ]
  view-step hosts v (sweep now max_age) h same = fun_ext λ name.
      lookup-erase_if _ name hosts h
      ∙ ap (unless (is_expired now max_age)) (ap (λ f. f name) same)
      ∙ unless-shown now max_age name (v name)

  view-run_from :
      (hosts : Hosts D) (v : Spec D) (cs : List (Call D))
      → IsMap hosts
      → view hosts ≡ shows v
      → view (run hosts cs) ≡ shows (run_spec v cs)
  unfolding run
  view-run_from hosts v [] h same = same
  view-run_from hosts v (c ∷ cs) h same =
      view-run_from (step hosts c) (step_spec v c) cs (step-IsMap hosts c h)
        (view-step hosts v c h same)

  -- After any sequence of reports and sweeps, the manager has a host just where the specification
  -- has it: where a report came and no sweep since found the last one too old. It holds the numbers
  -- of that last report as they were sent, under the host's name, with the score that
  -- `compute_health` gives them, and the last twenty of all the diagnose events that the reports
  -- carried since the host came in, oldest first.
  pub view-run : (cs : List (Call D)) → view (run [] cs) ≡ shows (run_spec nobody cs)
  unfolding lookup
  view-run cs = view-run_from [] nobody cs tt refl
