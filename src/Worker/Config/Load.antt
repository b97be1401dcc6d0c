-- ===== src/Worker/Config/Load.antt =====
-- worker/src/config/config_manager.cpp: `Load` and `Reload`. The JSON library is an interface; the
-- file's text is an argument, or `none` if it cannot be opened, and so is its parser, `none` for an
-- exception.
use perf_monitor.Prelude.{
  Bool, true, false, ◌&&◌, List, [], ◌∷◌, ◌++◌, Option, none, some, if◌then◌else◌,
}
use perf_monitor.Prelude.Int.{ℤ, pos}
use perf_monitor.Text.{Bytes, codes}
use perf_monitor.Worker.Config.{OffcpuEntry, ProfileEntry, ConfigManager}

-- nlohmann::json: the conversions throw, which is `none`.
pub record Json (J : Type 0) : Type 0 where
  pub contains : J → Bytes → Bool
  pub element : J → Bytes → J
  pub is_array : J → Bool
  pub items : J → List J
  pub get_string : J → Option Bytes
  pub get_int : J → Option ℤ

-- How a piece of code ends: at its end, or with an exception.
pub data Outcome : Type 0 where
  completed threw : Outcome

pub data LoadResult : Type 0 where
  returned : Bool → LoadResult
  exception : LoadResult

-- Code that writes to the configuration; what it wrote before an exception stays.
abbrev pub Step : Type 0
Step = ConfigManager → Outcome × ConfigManager

abbrev pub continue : Outcome × ConfigManager → Step → Outcome × ConfigManager
continue (completed, cfg) next = next cfg
continue (threw, cfg) next = (threw, cfg)

infixl 5 ◌>>◌
abbrev pub ◌>>◌ : Step → Step → Step
first >> next = λ cfg. continue (first cfg) next

abbrev pub skip : Step
skip cfg = (completed, cfg)

abbrev pub when : Bool → Step → Step
when test step = if test then step else skip

-- A write of a value, if the conversion gives one.
abbrev pub assign {ℓ} : {A : Type ℓ} → Option A → (A → ConfigManager → ConfigManager) → Step
assign none set cfg = (threw, cfg)
assign (some value) set cfg = (completed, set value cfg)

abbrev pub bind {ℓ} : {A B : Type ℓ} → Option A → (A → Option B) → Option B
bind none next = none
bind (some value) next = next value

infixl 5 ◌>>=◌
abbrev ◌>>=◌ {ℓ} : {A B : Type ℓ} → Option A → (A → Option B) → Option B
first >>= next = bind first next

abbrev pub push_offcpu : OffcpuEntry → ConfigManager → ConfigManager
push_offcpu e cfg = record cfg { offcpu_entries = cfg.offcpu_entries ++ e ∷ [] }

abbrev pub push_profile : ProfileEntry → ConfigManager → ConfigManager
push_profile e cfg = record cfg { profile_entries = cfg.profile_entries ++ e ∷ [] }

abbrev pub push_process : Bytes → ConfigManager → ConfigManager
push_process tp cfg = record cfg { perf_target_processes = cfg.perf_target_processes ++ tp ∷ [] }

abbrev pub push_thread : Bytes → ConfigManager → ConfigManager
push_thread tt_name cfg = record cfg {
  perf_target_threads = cfg.perf_target_threads ++ tt_name ∷ [];
}

abbrev pub finished : Outcome × ConfigManager → LoadResult × ConfigManager
finished (completed, cfg) = (returned true, cfg)
finished (threw, cfg) = (exception, cfg)

module _ {J : Type 0} ⦃j : Json J⦄ where
  -- `if (item.contains(key)) field = item[key];`
  abbrev pub string_or : J → Bytes → Bytes → Option Bytes
  string_or item key old =
      if j.contains item key then j.get_string (j.element item key) else some old

  abbrev pub int_or : J → Bytes → ℤ → Option ℤ
  int_or item key old = if j.contains item key then j.get_int (j.element item key) else some old

  unfoldable pub offcpu_entry : J → Option OffcpuEntry
  offcpu_entry item = do
    process_name ← string_or item (codes "process_name") []
    thread_name ← string_or item (codes "thread_name") []
    min_block_us ← int_or item (codes "min_block_us") (pos 100)
    max_block_us ← int_or item (codes "max_block_us") (pos 1000000)
    interval_s ← int_or item (codes "interval_s") (pos 60)
    limit_file_size_mb ← int_or item (codes "limit_file_size_mb") (pos 50)
    limit_file_num ← int_or item (codes "limit_file_num") (pos 3)
    some (record {
      process_name = process_name;
      thread_name = thread_name;
      min_block_us = min_block_us;
      max_block_us = max_block_us;
      interval_s = interval_s;
      limit_file_size_mb = limit_file_size_mb;
      limit_file_num = limit_file_num;
    })

  unfoldable pub profile_entry : J → Option ProfileEntry
  profile_entry item = do
    process_name ← string_or item (codes "process_name") []
    thread_name ← string_or item (codes "thread_name") []
    max_nr ← int_or item (codes "max_nr") (pos 1000)
    max_size_kb ← int_or item (codes "max_size_kb") (pos 4096)
    cpus ← string_or item (codes "cpus") (codes "0-3")
    cpu_threshold_pct ← int_or item (codes "cpu_threshold_pct") (pos 50)
    some (record {
      process_name = process_name;
      thread_name = thread_name;
      max_nr = max_nr;
      max_size_kb = max_size_kb;
      cpus = cpus;
      cpu_threshold_pct = cpu_threshold_pct;
    })

  -- A loop over an array that converts each element and adds it to a list of the configuration
  unfoldable pub push_each {ℓ} :
      {A : Type ℓ} → (J → Option A) → (A → ConfigManager → ConfigManager) → List J → Step
  push_each convert push [] = skip
  push_each convert push (item ∷ rest) = assign (convert item) push >> push_each convert push rest

  -- `if (object.contains(key) && object[key].is_array()) for (...)`
  abbrev pub array_of : J → Bytes → List J
  array_of object key =
      if j.contains object key && j.is_array (j.element object key)
      then j.items (j.element object key)
      else []

  abbrev pub assign_int : J → Bytes → (ℤ → ConfigManager → ConfigManager) → Step
  assign_int object key set =
      when (j.contains object key) (assign (j.get_int (j.element object key)) set)

  abbrev pub assign_string : J → Bytes → (Bytes → ConfigManager → ConfigManager) → Step
  assign_string object key set =
      when (j.contains object key) (assign (j.get_string (j.element object key)) set)

  unfoldable pub load_offcpu : J → Step
  load_offcpu raw cfg =
      push_each offcpu_entry push_offcpu (array_of raw (codes "offcpu"))
        (record cfg { offcpu_entries = [] })

  unfoldable pub load_profile : J → Step
  load_profile raw cfg =
      push_each profile_entry push_profile (array_of raw (codes "profile"))
        (record cfg { profile_entries = [] })

  -- The part for `perf`; its two lists are not emptied before.
  unfoldable pub perf_settings : J → Step
  perf_settings p =
      assign_int p (codes "cpu_threshold_pct") (λ n cfg. record cfg { perf_cpu_threshold_pct = n })
      >> assign_int p (codes "overflow_duration_s")
          (λ n cfg. record cfg { perf_overflow_duration_s = n })
      >> push_each j.get_string push_process (array_of p (codes "target_processes"))
      >> push_each j.get_string push_thread (array_of p (codes "target_threads"))

  unfoldable pub load_perf : J → Step
  load_perf raw =
      when (j.contains raw (codes "perf")) (perf_settings (j.element raw (codes "perf")))

  unfoldable pub path_settings : J → Step
  path_settings pt =
      assign_string pt (codes "offcpu_bin") (λ s cfg. record cfg { offcpu_bin = s })
      >> assign_string pt (codes "profile_bin") (λ s cfg. record cfg { profile_bin = s })
      >> assign_string pt (codes "perf_bin") (λ s cfg. record cfg { perf_bin = s })
      >> assign_string pt (codes "output_dir") (λ s cfg. record cfg { output_dir = s })

  unfoldable pub load_paths : J → Step
  load_paths raw =
      when (j.contains raw (codes "paths")) (path_settings (j.element raw (codes "paths")))

  -- What follows the parse
  abbrev pub load_document : J → Step
  load_document raw = load_offcpu raw >> load_profile raw >> load_perf raw >> load_paths raw

  abbrev pub load_parsed : Option J → ConfigManager → LoadResult × ConfigManager
  load_parsed none cfg = (returned false, cfg)
  load_parsed (some raw) cfg = finished (load_document raw cfg)

  unfoldable pub load :
      (Bytes → Option J) → Option Bytes → ConfigManager → LoadResult × ConfigManager
  load parse none cfg = (returned false, cfg)
  load parse (some text) cfg = load_parsed (parse text) cfg

  unfoldable pub reload :
      (Bytes → Option J) → Option Bytes → ConfigManager → LoadResult × ConfigManager
  reload parse file cfg = load parse file cfg
