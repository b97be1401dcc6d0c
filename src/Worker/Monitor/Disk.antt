-- ===== src/Worker/Monitor/Disk.antt =====
-- worker/src/monitor/disk_monitor.cpp and worker/include/monitor/disk_monitor.h. `prev_map` is a
-- field, since the program has one monitor. `major` and `minor` are `int`s in the source, which the
-- kernel prints as small numbers.
use perf_monitor.Prelude.{ℕ, ◌+◌, ◌*◌, Bool, ◌||◌, List, [], ◌∷◌, Option, none, some, if◌then◌else◌}
use perf_monitor.Text.{Bytes, codes, is_empty, starts_with}
use perf_monitor.Text.Stream.{lines, stream, extract, extract_word}
use perf_monitor.Double.{Double}
use perf_monitor.Table.{Table, lookup, insert, bytes_eq}
use perf_monitor.Worker.Monitor.{sub_u64}

pub record DiskRaw : Type 0 where
  pub reads_done : ℕ
  pub writes_done : ℕ
  pub read_sectors : ℕ
  pub write_sectors : ℕ
  pub io_ticks : ℕ

pub record DiskStats (D : Type 0) : Type 0 where
  pub device : Bytes
  pub read_mbps : D
  pub write_mbps : D
  pub iops : D
  pub io_latency_ms : D

pub record DiskMonitor (D : Type 0) : Type 0 where
  pub disks : List (DiskStats D)
  pub prev_map : Table Bytes DiskRaw

unfoldable pub parse_disk_stats_line : Bytes → Option (Bytes × DiskRaw)
unfolding extract extract_word
parse_disk_stats_line line =
    let (major, s1) = extract 0 (stream line) in
    let (minor, s2) = extract 0 s1 in
    let (dev, s3) = extract_word [] s2 in
    let (reads_done, s4) = extract 0 s3 in
    let (reads_merged, s5) = extract 0 s4 in
    let (read_sectors, s6) = extract 0 s5 in
    let (read_time_ms, s7) = extract 0 s6 in
    let (writes_done, s8) = extract 0 s7 in
    let (writes_merged, s9) = extract 0 s8 in
    let (write_sectors, s10) = extract 0 s9 in
    let (write_time_ms, s11) = extract 0 s10 in
    let (ios_in_progress, s12) = extract 0 s11 in
    let (io_ticks, s13) = extract 0 s12 in
    if s13.failed
    then none
    else some (
      dev,
      record {
        reads_done = reads_done;
        writes_done = writes_done;
        read_sectors = read_sectors;
        write_sectors = write_sectors;
        io_ticks = io_ticks;
      },
    )

abbrev pub is_skipped : Bytes → Bool
is_skipped dev = is_empty dev || (starts_with dev (codes "loop") || starts_with dev (codes "ram"))

unfoldable pub read_disks : Table Bytes DiskRaw → List Bytes → Table Bytes DiskRaw
unfolding parse_disk_stats_line starts_with
read_disks table [] = table
read_disks table (line ∷ rest) =
    read_disks
      (elim (parse_disk_stats_line line) [
        | none ↦ table
        | some (dev, r) ↦ if is_skipped dev then table else insert dev r table
      ])
      rest

module _ {D : Type 0} ⦃d : Double D⦄ where
  open d use {of_ℕ, mul, div}

  unfoldable pub init : DiskMonitor D → Bytes → DiskMonitor D
  unfolding read_disks
  init self content = record self { prev_map = read_disks self.prev_map (lines content) }

  unfoldable pub megabytes : ℕ → ℕ → D
  megabytes cur prev = div (mul (of_ℕ (sub_u64 cur prev)) (of_ℕ 512)) (of_ℕ (1024 * 1024))

  unfoldable pub disk_stats : Bytes → DiskRaw → DiskRaw → DiskStats D
  unfolding megabytes
  disk_stats dev cur prev = record {
    device = dev;
    read_mbps = megabytes cur.read_sectors prev.read_sectors;
    write_mbps = megabytes cur.write_sectors prev.write_sectors;
    iops = of_ℕ (sub_u64 (cur.reads_done + cur.writes_done) (prev.reads_done + prev.writes_done));
    io_latency_ms = mul (of_ℕ (sub_u64 cur.io_ticks prev.io_ticks)) (of_ℕ 1);
  }

  unfoldable pub compare_disks : Table Bytes DiskRaw → Table Bytes DiskRaw → List (DiskStats D)
  unfolding disk_stats lookup
  compare_disks prev_map [] = []
  compare_disks prev_map ((dev, cur) ∷ rest) =
      let later = compare_disks prev_map rest in
      elim (lookup dev prev_map) [ none ↦ later | some prev ↦ disk_stats dev cur prev ∷ later ]

  unfoldable pub collect : DiskMonitor D → Bytes → DiskMonitor D
  unfolding compare_disks read_disks
  collect self content =
      let cur_map = read_disks [] (lines content) in
      record { disks = compare_disks self.prev_map cur_map; prev_map = cur_map }
