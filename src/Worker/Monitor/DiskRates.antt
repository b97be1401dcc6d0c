-- ===== src/Worker/Monitor/DiskRates.antt =====
-- Which devices the disk monitor lists, and with what.
use perf_monitor.Prelude.{
  ◌≡◌, refl, ◌∙◌, ap, true, false, List, [], ◌∷◌, Option, none, some, if◌then◌else◌, Bool-cases,
  inl, inr, Option-cases,
}
use mathlib.Core.Path.{subst}
use perf_monitor.Text.{Bytes, str_eq, str_eq_iff}
use perf_monitor.Text.Stream.{lines}
use perf_monitor.Double.{Double}
use perf_monitor.Table.{Table, lookup, bytes_eq, IsMap, insert-IsMap, lookup-insert}
use perf_monitor.Worker.Monitor.Disk.{
  DiskRaw, DiskStats, DiskMonitor, disk_stats, compare_disks, read_disks, parse_disk_stats_line,
  is_skipped, collect,
}

read_disks-IsMap :
    (text : List Bytes) (table : Table Bytes DiskRaw) → IsMap table → IsMap (read_disks table text)
unfolding read_disks
read_disks-IsMap [] table h = h
read_disks-IsMap (line ∷ rest) table h = elim (Option-cases (parse_disk_stats_line line)) [
  | inl bad ↦ rw bad (read_disks-IsMap rest table h)
  | inr ((dev, r), good) ↦ elim (Bool-cases (is_skipped dev)) [
    | inl skip ↦ rw (good, skip) (read_disks-IsMap rest table h)
    | inr real ↦ rw (good, real) (read_disks-IsMap rest _ (insert-IsMap dev r table h))
  ]
]

distinct :
    (dev name : Bytes) → is_skipped dev ≡ false → is_skipped name ≡ true → str_eq dev name ≡ false
distinct dev name real skip = elim (Bool-cases (str_eq dev name)) [
  | inl same ↦ let skip_dev = ap is_skipped ((str_eq_iff dev name).0 same) ∙ skip in absurd (cc)
  | inr other ↦ other
]

-- A device that is passed over does not come into the table.
read_disks-skipped :
    (text : List Bytes) (table : Table Bytes DiskRaw) (name : Bytes)
    → is_skipped name ≡ true
    → lookup name table ≡ none
    → lookup name (read_disks table text) ≡ none
unfolding read_disks
read_disks-skipped [] table name s h = h
read_disks-skipped (line ∷ rest) table name s h = elim (Option-cases (parse_disk_stats_line line)) [
  | inl bad ↦ rw bad (read_disks-skipped rest table name s h)
  | inr ((dev, r), good) ↦ elim (Bool-cases (is_skipped dev)) [
    | inl skip ↦ rw (good, skip) (read_disks-skipped rest table name s h)
    | inr real ↦
        rw (good, real)
          (read_disks-skipped rest _ name s
            (lookup-insert dev name r table ∙ rw (distinct dev name real s) h))
  ]
]

-- The counters that one reading of /proc/diskstats gives.
abbrev pub disk_counters : Bytes → Table Bytes DiskRaw
disk_counters content = read_disks [] (lines content)

disk_counters-skipped :
    (content name : Bytes) → is_skipped name ≡ true → lookup name (disk_counters content) ≡ none
unfolding lookup
disk_counters-skipped content name s = read_disks-skipped (lines content) [] name s refl

module _ {D : Type 0} ⦃d : Double D⦄ where
  -- The entry of a device in the list that is reported.
  abbrev pub disk_for : Bytes → List (DiskStats D) → Option (DiskStats D)
  disk_for name [] = none
  disk_for name (ds ∷ rest) = if str_eq ds.device name then some ds else disk_for name rest

  abbrev pub disk_difference : Bytes → Option DiskRaw → Option DiskRaw → Option (DiskStats D)
  disk_difference name none prev = none
  disk_difference name (some cur) none = none
  disk_difference name (some cur) (some prev) = some (disk_stats name cur prev)

  skipped :
      (name dev : Bytes) (c : DiskRaw) (p : Option DiskRaw) (later : List (DiskStats D))
      → str_eq dev name ≡ false
      → disk_for name (elim p [ none ↦ later | some prev ↦ disk_stats dev c prev ∷ later ])
        ≡ disk_for name later
  unfolding disk_stats
  skipped name dev c none later other = refl
  skipped name dev c (some p) later other = rw other refl

  found :
      (name dev : Bytes) (c : DiskRaw) (p : Option DiskRaw) (later : List (DiskStats D))
      → str_eq dev name ≡ true
      → disk_for name later ≡ none
      → disk_for name (elim p [ none ↦ later | some prev ↦ disk_stats dev c prev ∷ later ])
        ≡ disk_difference dev (some c) p
  unfolding disk_stats
  found name dev c none later same h = h
  found name dev c (some p) later same h = rw same refl

  compare-disk :
      (prev cur : Table Bytes DiskRaw) (name : Bytes)
      → IsMap cur
      → disk_for name (compare_disks prev cur)
        ≡ disk_difference name (lookup name cur) (lookup name prev)
  unfolding compare_disks lookup
  compare-disk prev [] name h = refl
  compare-disk prev ((dev, c) ∷ rest) name h =
      let later = compare-disk prev rest name h.1 in
      elim (Bool-cases (str_eq dev name)) [
        | inl same ↦
            let e : dev ≡ name = (str_eq_iff dev name).0 same in
            let absent : lookup name rest ≡ none = subst (λ n. lookup n rest ≡ none) e h.0 in
            rw same (
              found name dev c (lookup dev prev) _ same (later ∙ rw absent refl)
              ∙ ap (λ n. disk_difference n (some c) (lookup n prev)) e)
        | inr other ↦ rw other (skipped name dev c (lookup dev prev) _ other ∙ later)
      ]

  -- A device is listed if it is neither a loop nor a ram device and was counted in both rounds.
  abbrev pub listed_disk : Bytes → Bytes → Bytes → Option (DiskStats D)
  listed_disk name before now =
      if is_skipped name
      then none
      else disk_difference name (lookup name (disk_counters now))
          (lookup name (disk_counters before))

  -- The list of a round after another one.
  pub collect-disks :
      (self : DiskMonitor D) (before now name : Bytes)
      → disk_for name (collect (collect self before) now).disks ≡ listed_disk name before now
  unfolding collect
  collect-disks self before now name =
      compare-disk (disk_counters before) (disk_counters now) name
        (read_disks-IsMap (lines now) [] tt)
      ∙ elim (Bool-cases (is_skipped name)) [
        | inl skip ↦ rw (skip, disk_counters-skipped now name skip) refl
        | inr real ↦ rw real refl
      ]
