-- ===== src/Worker/Perf.antt =====
-- worker/src/diagnose/perf_diagnoser.cpp and its header: the thread that watches the processes' CPU
-- use and starts `perf record`. Round has one round of the thread's loop; the five seconds between
-- rounds pass in it. `Collect`, which starts the thread, stands in Thread, `Init` and `Stop` in
-- Pusher/Run.
pub mod Round
pub mod Launch
pub mod Trigger
pub mod Appends
pub mod Shared
use perf_monitor.Prelude.{
  ℕ, zero, suc, ◌+◌, ◌-◌, ◌*◌, ◌%◌, ◌^◌, Bool, true, false, not, ◌&&◌, ◌||◌, List, [], ◌∷◌, ◌++◌,
  Option, none, some, ltb, ◌==◌, if◌then◌else◌, drop,
}
use perf_monitor.Prelude.Int.{ℤ, pos, negsuc, ◌+ℤ◌, leb_ℤ, ltb_ℤ}
use perf_monitor.Text.{Bytes, codes, rfind_char, is_empty, ◌<<◌, str_eq}
use perf_monitor.Text.Decimal.{to_string, to_string_ℕ}
use perf_monitor.Text.Stream.{lines, Stream, stream, extract, extract_word}
use perf_monitor.Double.{Double}
use perf_monitor.Table.{Table, lookup, insert, bytes_eq, number_eq}
use perf_monitor.Worker.Monitor.{sub_u64}
use perf_monitor.Worker.Proc
use perf_monitor.Worker.Proc.{ProcFs}
use perf_monitor.Worker.Files
use perf_monitor.Worker.Files.{DirEntry}
use perf_monitor.Worker.System.{System, World, M, pure, ◌>>=◌, ◌>>◌, ask}
use perf_monitor.Worker.Runner.{CmdRunner, new_runner, start, destroy, is_running}
use perf_monitor.Worker.Event.{CppDiagnoseEvent}
use perf_monitor.Worker.Bpf.Cycle.{has_data, is_nil}

-- The two functions that perf_diagnoser.cpp has in the words of bpf_diagnoser.cpp
abbrev pub read_pid_by_name : ProcFs → Bytes → ℕ
read_pid_by_name = Proc.read_pid_by_name

abbrev pub cleanup_files :
    (Bytes → Bool) → ℤ → Bytes → Option (List DirEntry) → Option (List DirEntry)
cleanup_files = Files.cleanup_files

pub record PendingPerfEvent (D : Type 0) : Type 0 where
  pub pending : Bool
  pub type : Bytes
  pub process_name : Bytes
  pub file_path : Bytes
  pub timestamp : ℤ
  pub cpu_percent : D

pub record ProcSample : Type 0 where
  pub utime : ℕ
  pub stime : ℕ
  pub total_time : ℕ

-- The diagnoser, with the local variables `prev_samples` and `prev_wall` of its thread.
pub record PerfDiagnoser (D : Type 0) : Type 0 where
  pub events : List (CppDiagnoseEvent D)
  pub output_dir : Bytes
  pub perf_bin : Bytes
  pub cpu_threshold_pct : ℤ
  pub overflow_duration_s : ℤ
  pub limit_file_num : ℤ
  pub target_processes : List Bytes
  pub target_threads : List Bytes
  pub perf_runner : CmdRunner
  pub pending_ev : PendingPerfEvent D
  pub triggered_tags : List Bytes
  pub overflow_timers : Table Bytes ℤ
  pub prev_samples : Table ℕ ProcSample
  pub prev_wall : ℕ

-- What the thread asks besides `System`: the milliseconds of the steady clock, the text of
-- /proc/[pid]/stat, if it can be opened, and the ticks of a second.
pub record Probe : Type 0 where
  pub steady_ms : ℕ → ℕ
  pub stat : ℕ → ℕ → Option Bytes
  pub clk_tck : ℤ

-- `std::getline(f, line)`
abbrev pub first_line : Bytes → Bytes
first_line text = elim (lines text) [ [] ↦ [] | line ∷ _ ↦ line ]

-- `for (int i = 1; i <= n && ss >> field; ++i) {}`
unfoldable pub skip_fields : ℕ → Stream → Stream
unfolding extract_word
skip_fields zero ss = ss
skip_fields (suc n) ss =
    let next = (extract_word [] ss).1 in
    let later = skip_fields n next in if next.failed then next else later

-- `ss >> utime >> stime` behind the closing parenthesis, and whether it succeeds. `substr` throws
-- where the parenthesis is the last byte, which the kernel never writes; here that reads nothing.
unfoldable pub read_times : ℕ → ℕ → Bytes → Option (ℕ × ℕ × Bool)
unfolding skip_fields extract rfind_char
read_times utime stime text =
    let line = first_line text in
    elim (rfind_char line b')') [
      | none ↦ none
      | some close_paren ↦
          let ss = skip_fields 11 (stream (drop (close_paren + 2) line)) in
          let (u, s1) = extract utime ss in
          let (s, s2) = extract stime s1 in some (u, s, not s2.failed)
    ]

abbrev pub no_sample : ProcSample
no_sample = record { utime = 0; stime = 0; total_time = 0 }

-- `prev_samples[pid]`
abbrev pub sample_at : Table ℕ ProcSample → ℕ → ProcSample
sample_at samples pid = elim (lookup pid samples) [ none ↦ no_sample | some prev ↦ prev ]

-- `overflow_timers_[tag]`
abbrev pub timer_at : Table Bytes ℤ → Bytes → ℤ
timer_at timers tag = elim (lookup tag timers) [ none ↦ pos 0 | some seconds ↦ seconds ]

unfoldable pub has_tag : Bytes → List Bytes → Bool
has_tag tag [] = false
has_tag tag (other ∷ rest) = str_eq other tag || has_tag tag rest

-- The block `Refresh previous sample`
unfoldable pub refresh : ProcSample → Option Bytes → ProcSample
unfolding read_times
refresh prev none = prev
refresh prev (some text) = elim (read_times prev.utime prev.stime text) [
  | none ↦ prev
  | some (utime, stime, _) ↦ record {
    utime = utime;
    stime = stime;
    total_time = (utime + stime) % 2 ^ 64;
  }
]

module _ {D : Type 0} ⦃d : Double D⦄ where
  open d use {of_ℕ, of_ℤ, mul, div, lt, le}

  -- The text of the file is an argument; the failures give -1.
  unfoldable pub read_proc_cpu_pct : Option Bytes → ProcSample → ℕ → D
  unfolding read_times
  read_proc_cpu_pct none prev delta_ms = of_ℤ (negsuc 0)
  read_proc_cpu_pct (some text) prev delta_ms = elim (read_times 0 0 text) [
    | none ↦ of_ℤ (negsuc 0)
    | some (utime, stime, read) ↦
        let delta : ℕ = sub_u64 (utime + stime) (prev.utime + prev.stime) in
        if read && not (prev.total_time == 0)
        then div (mul (of_ℕ delta) (of_ℕ 100)) (of_ℕ delta_ms)
        else of_ℤ (negsuc 0)
  ]

abbrev pub event_of : {D : Type 0} → PendingPerfEvent D → CppDiagnoseEvent D
event_of ev = record {
  type = ev.type;
  process_name = ev.process_name;
  thread_name = [];
  file_path = ev.file_path;
  timestamp = ev.timestamp;
  cpu_percent = ev.cpu_percent;
}

module _ {D : Type 0} ⦃d : Double D⦄ where
  unfoldable pub reset : PerfDiagnoser D → PerfDiagnoser D
  reset self = record self { events = [] }

  -- `check_cpu_threshold`
  unfoldable pub check_cpu_threshold : PerfDiagnoser D → Bool
  check_cpu_threshold self = not (is_nil self.events)
