-- ===== src/Host/Sweep.antt =====
-- Which hosts the periodic sweep of manager/src/main.cpp keeps.
use perf_monitor.Prelude.{
  ◌≡◌, ◌↔◌, Bool, true, false, List, [], ◌∷◌, Option, none, some, arith, if◌then◌else◌, Bool-cases,
  inl, inr,
}
use perf_monitor.Prelude.Int.{ℤ, ◌≤ℤ◌, ◌-ℤ◌, ltb_ℤ}
use perf_monitor.Text.{Bytes, str_eq}
use perf_monitor.Double.{Double}
use perf_monitor.Table.{lookup, bytes_eq, IsMap, lookup-erase_if, lookup-insert, unless}
use perf_monitor.Host.{HostSnapshot, Hosts, renewed, update, is_expired, remove_expired}
use perf_monitor.Host.Refinement.{Call, report, sweep, step, run, step-IsMap}

abbrev pub is_old : ℤ → ℤ → ℤ → Bool
is_old age now t = ltb_ℤ age (now -ℤ t)

module _ {D : Type 0} where
  -- The time of the last report of a host, if there is one.
  abbrev pub last_report : Bytes → Option ℤ → List (Call D) → Option ℤ
  last_report name last [] = last
  last_report name last (report hostname snap ∷ cs) =
      last_report name (if str_eq hostname name then some snap.last_update else last) cs
  last_report name last (sweep now max_age ∷ cs) = last_report name last cs

  -- The sweeps have one age limit, and their times do not fall, from `start` up to `final`.
  abbrev pub IsTimed : ℤ → ℤ → ℤ → List (Call D) → Type 0
  IsTimed age start final [] = start ≤ℤ final
  IsTimed age start final (report hostname snap ∷ cs) = IsTimed age start final cs
  IsTimed age start final (sweep now max_age ∷ cs) =
      (start ≤ℤ now) × (max_age ≡ age) × IsTimed age now final cs

  abbrev Tracks : ℤ → ℤ → Option (HostSnapshot D) → Option ℤ → Type 0
  Tracks age now (some snap) last = last ≡ some snap.last_update
  Tracks age now none none = Unit
  Tracks age now none (some t) = is_old age now t ≡ true

is_old_mono :
    (age now later t : ℤ) → now ≤ℤ later → is_old age now t ≡ true → is_old age later t ≡ true
unfolding ◌-ℤ◌
is_old_mono age now later t h old = ground arith

module _ {D : Type 0} ⦃d : Double D⦄ where
  Tracks-mono :
      (age now later : ℤ) (o : Option (HostSnapshot D)) (last : Option ℤ)
      → now ≤ℤ later
      → Tracks age now o last
      → Tracks age later o last
  Tracks-mono age now later (some snap) last h t = t
  Tracks-mono age now later none none h t = tt
  Tracks-mono age now later none (some x) h t = is_old_mono age now later x h t

  Tracks-unless :
      (age now : ℤ) (o : Option (HostSnapshot D)) (last : Option ℤ)
      → Tracks age now o last
      → Tracks age now (unless (is_expired now age) o) last
  Tracks-unless age now none last t = t
  Tracks-unless age now (some snap) last t = elim (Bool-cases (is_expired now age snap)) [
    | inl old ↦ rw (old, t) old
    | inr fresh ↦ rw fresh t
  ]

  Tracks-report :
      (age now : ℤ) (hosts : Hosts D) (name hostname : Bytes) (snap : HostSnapshot D)
      (last : Option ℤ)
      → Tracks age now (lookup name hosts) last
      → Tracks age now
          (lookup name (update hosts hostname snap))
          (if str_eq hostname name then some snap.last_update else last)
  unfolding update renewed
  Tracks-report age now hosts name hostname snap last t = elim (Bool-cases (str_eq hostname name)) [
    | inl same ↦ rw (lookup-insert hostname name _ hosts, same)
    | inr other ↦ rw (lookup-insert hostname name _ hosts, other) t
  ]

  Tracks-run :
      (cs : List (Call D)) (age start final : ℤ) (hosts : Hosts D) (name : Bytes) (last : Option ℤ)
      → IsMap hosts
      → IsTimed age start final cs
      → Tracks age start (lookup name hosts) last
      → Tracks age final (lookup name (run hosts cs)) (last_report name last cs)
        × IsMap (run hosts cs)
  unfolding run step remove_expired
  Tracks-run [] age start final hosts name last m h t = (Tracks-mono age start final _ last h t, m)
  Tracks-run (report hostname snap ∷ cs) age start final hosts name last m h t =
      Tracks-run cs age start final (step hosts (report hostname snap)) name _
        (step-IsMap hosts (report hostname snap) m) h
        (Tracks-report age start hosts name hostname snap last t)
  Tracks-run (sweep now max_age ∷ cs) age start final hosts name last m h t =
      Tracks-run cs age now final (step hosts (sweep now max_age)) name last
        (step-IsMap hosts (sweep now max_age) m) h.2
        (rw (lookup-erase_if (is_expired now max_age) name hosts m)
          (rw h.1 (Tracks-unless age now _ last (Tracks-mono age start now _ last h.0 t))))

  Tracks-kept :
      (age now : ℤ) (o : Option (HostSnapshot D)) (last : Option ℤ)
      → Tracks age now o last
      → ((snap : HostSnapshot D) × (unless (is_expired now age) o ≡ some snap))
        ↔ ((t : ℤ) × (last ≡ some t) × (is_old age now t ≡ false))
  Tracks-kept age now none none t = (λ (s, e). absurd (cc), λ (x, e, _). absurd (cc))
  Tracks-kept age now none (some u) t = (λ (s, e). absurd (cc), λ (x, e, f). absurd (ground arith))
  Tracks-kept age now (some snap) last t =
      (λ (s, e). (snap.last_update, t, ground arith), λ (x, e, f). (snap, ground arith))

  -- Over any history in which sweeps use one age limit at times that do not fall, a last sweep
  -- leaves a host in the map exactly when its last report is not older than the limit.
  pub kept_iff_recent :
      (cs : List (Call D)) (age start final : ℤ) (name : Bytes)
      → IsTimed age start final cs
      → ((snap : HostSnapshot D) × (lookup name (remove_expired (run [] cs) final age) ≡ some snap))
        ↔ ((t : ℤ) × (last_report name none cs ≡ some t) × (is_old age final t ≡ false))
  unfolding remove_expired lookup
  kept_iff_recent cs age start final name h =
      let (tracked, distinct) = Tracks-run cs age start final [] name none tt h tt in
      rw (lookup-erase_if (is_expired final age) name (run [] cs) distinct)
        (Tracks-kept age final _ _ tracked)
