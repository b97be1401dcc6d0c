-- ===== src/Worker/Monitor/Mem.antt =====
-- worker/src/monitor/mem_monitor.cpp and worker/include/monitor/mem_monitor.h.
use perf_monitor.Prelude.{ℕ, ◌+◌, List, [], ◌∷◌, Option, none, some, if◌then◌else◌, drop, take}
use perf_monitor.Text.{Bytes, codes, find, find_char}
use perf_monitor.Text.Stream.{lines, stream, extract}
use perf_monitor.Double.{Double}
use perf_monitor.Table.{Table, lookup, insert, bytes_eq}
use perf_monitor.Worker.Monitor.{sub_u64}

pub record MemMonitor (D : Type 0) : Type 0 where
  pub total_gb : D
  pub used_gb : D
  pub free_gb : D
  pub available_gb : D
  pub cached_gb : D
  pub buffers_gb : D
  pub swap_total_gb : D
  pub swap_used_gb : D
  pub used_pct : D

-- `std::stoull`, which throws where no number stands or it is too large.
abbrev pub stoull : Bytes → Option ℕ
stoull s = let (kb, after) = extract 0 (stream s) in if after.failed then none else some kb

-- The loop over the lines; `none` is an exception, which `Collect` lets through.
unfoldable pub read_mem : Table Bytes ℕ → List Bytes → Option (Table Bytes ℕ)
unfolding extract find find_char
read_mem m [] = some m
read_mem m (line ∷ rest) =
    let skipped = read_mem m rest in
    elim (find_char line b':') [
      | none ↦ skipped
      | some i ↦
          let val = drop (1 + i) line in
          elim (find val (codes "kB")) [
            | none ↦ skipped
            | some k ↦ elim (stoull (take k val)) [
              | none ↦ none
              | some kb ↦ read_mem (insert (take i line) kb m) rest
            ]
          ]
    ]

-- `m[key]` on a key that is missing makes it, with 0.
abbrev pub at_key : Table Bytes ℕ → Bytes → ℕ
at_key m key = elim (lookup key m) [ none ↦ 0 | some kb ↦ kb ]

module _ {D : Type 0} ⦃d : Double D⦄ where
  open d use {of_ℕ, sub, mul, div, lt}

  unfoldable pub to_gb : ℕ → D
  to_gb kb = div (of_ℕ kb) (mul (of_ℕ 1024) (of_ℕ 1024))

  unfoldable pub mem_of : Table Bytes ℕ → MemMonitor D
  unfolding to_gb lookup
  mem_of m =
      let total_gb : D = to_gb (at_key m (codes "MemTotal")) in
      let free_gb : D = to_gb (at_key m (codes "MemFree")) in
      let cached_gb : D = to_gb (at_key m (codes "Cached")) in
      let buffers_gb : D = to_gb (at_key m (codes "Buffers")) in
      let used_gb : D = sub (sub (sub total_gb free_gb) cached_gb) buffers_gb in
      record {
        total_gb = total_gb;
        free_gb = free_gb;
        available_gb = to_gb (at_key m (codes "MemAvailable"));
        cached_gb = cached_gb;
        buffers_gb = buffers_gb;
        swap_total_gb = to_gb (at_key m (codes "SwapTotal"));
        swap_used_gb = to_gb (sub_u64 (at_key m (codes "SwapTotal")) (at_key m (codes "SwapFree")));
        used_gb = used_gb;
        used_pct = if lt (of_ℕ 0) total_gb then mul (div used_gb total_gb) (of_ℕ 100) else of_ℕ 0;
      }

  unfoldable pub collect : MemMonitor D → Bytes → Option (MemMonitor D)
  unfolding read_mem mem_of
  collect self content = elim (read_mem [] (lines content)) [
    | none ↦ none
    | some m ↦ some (mem_of m)
  ]
