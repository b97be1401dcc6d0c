-- ===== src/Worker/Monitor/Rates.antt =====
-- Which interfaces the network monitor lists, and with what.
use perf_monitor.Prelude.{
  ◌≡◌, refl, ◌∙◌, ap, true, false, arith, List, [], ◌∷◌, Option, none, some, if◌then◌else◌, drop,
  take, Bool-cases, inl, inr, Option-cases,
}
use mathlib.Core.Path.{subst}
use perf_monitor.Text.{Bytes, codes, str_eq, str_eq_iff, find_char}
use perf_monitor.Text.Stream.{lines}
use perf_monitor.Double.{Double}
use perf_monitor.Table.{Table, lookup, bytes_eq, IsMap, insert-IsMap}
use perf_monitor.Worker.Monitor.Net.{
  NetRaw, NetStats, NetMonitor, net_stats, compare_interfaces, read_interfaces, trim_left, collect,
}

read_interfaces-IsMap :
    (text : List Bytes) (table : Table Bytes NetRaw)
    → IsMap table
    → IsMap (read_interfaces table text)
unfolding read_interfaces
read_interfaces-IsMap [] table h = h
read_interfaces-IsMap (line ∷ rest) table h = elim (Option-cases (find_char line b':')) [
  | inl bare ↦ rw bare (read_interfaces-IsMap rest table h)
  | inr (i, named) ↦
      rw named (read_interfaces-IsMap rest _ (insert-IsMap (trim_left (take i line)) _ table h))
]

-- The counters that one reading of /proc/net/dev gives.
abbrev pub counters : Bytes → Table Bytes NetRaw
counters content = read_interfaces [] (drop 2 (lines content))

module _ {D : Type 0} ⦃d : Double D⦄ where
  -- The entry of an interface in the list that is reported.
  abbrev pub stats_for : Bytes → List (NetStats D) → Option (NetStats D)
  stats_for name [] = none
  stats_for name (ns ∷ rest) = if str_eq ns.iface name then some ns else stats_for name rest

  -- What it is to be: the difference of the counters now and before.
  abbrev pub difference : Bytes → Option NetRaw → Option NetRaw → Option (NetStats D)
  difference name none prev = none
  difference name (some cur) none = none
  difference name (some cur) (some prev) = some (net_stats name cur prev)

  -- An interface is listed if it is not `lo` and was counted in both rounds.
  abbrev pub listed : Bytes → Table Bytes NetRaw → Table Bytes NetRaw → Option (NetStats D)
  listed name prev cur =
      if str_eq name (codes "lo")
      then none
      else difference name (lookup name cur) (lookup name prev)

  skipped :
      (name iface : Bytes) (c : NetRaw) (p : Option NetRaw) (later : List (NetStats D))
      → str_eq iface name ≡ false
      → stats_for name (elim p [ none ↦ later | some prev ↦ net_stats iface c prev ∷ later ])
        ≡ stats_for name later
  unfolding net_stats
  skipped name iface c none later other = refl
  skipped name iface c (some p) later other = rw other refl

  found :
      (name iface : Bytes) (c : NetRaw) (p : Option NetRaw) (later : List (NetStats D))
      → str_eq iface name ≡ true
      → stats_for name later ≡ none
      → stats_for name (elim p [ none ↦ later | some prev ↦ net_stats iface c prev ∷ later ])
        ≡ difference iface (some c) p
  unfolding net_stats
  found name iface c none later same h = h
  found name iface c (some p) later same h = rw same refl

  compare-stats :
      (prev cur : Table Bytes NetRaw) (name : Bytes)
      → IsMap cur
      → stats_for name (compare_interfaces prev cur) ≡ listed name prev cur
  unfolding compare_interfaces lookup
  compare-stats prev [] name h = ground arith
  compare-stats prev ((iface, c) ∷ rest) name h =
      let ind = compare-stats prev rest name h.1 in
      elim (Bool-cases (str_eq iface name)) [
        | inl same ↦
            let e : iface ≡ name = (str_eq_iff iface name).0 same in
            let at_name : (P : Bytes → Type 0) → P iface → P name = λ P p. subst P e p in
            elim (Bool-cases (str_eq iface (codes "lo"))) [
              | inl lo ↦
                  let lo_name = at_name (λ n. str_eq n (codes "lo") ≡ true) lo in
                  rw (lo, same) (ind ∙ rw lo_name refl)
              | inr real ↦
                  let real_name = at_name (λ n. str_eq n (codes "lo") ≡ false) real in
                  let absent = at_name (λ n. lookup n rest ≡ none) h.0 in
                  rw (real, same, real_name)
                    (found name iface c (lookup iface prev) _ same
                        (ind ∙ rw (real_name, absent) refl)
                      ∙ ap (λ n. difference n (some c) (lookup n prev)) e)
            ]
        | inr other ↦ rw other (elim (Bool-cases (str_eq iface (codes "lo"))) [
          | inl lo ↦ rw lo ind
          | inr real ↦ rw real (skipped name iface c (lookup iface prev) _ other ∙ ind)
        ])
      ]

  -- After two rounds the monitor has an entry for an interface just where the interface is not `lo`
  -- and stands in both readings, and the entry is the difference of the two readings' counters,
  -- whatever was read before.
  pub collect-rates :
      (self : NetMonitor D) (before now name : Bytes)
      → stats_for name (collect (collect self before) now).interfaces
        ≡ listed name (counters before) (counters now)
  unfolding collect
  collect-rates self before now name =
      compare-stats (counters before) (counters now) name
        (read_interfaces-IsMap (drop 2 (lines now)) [] tt)
