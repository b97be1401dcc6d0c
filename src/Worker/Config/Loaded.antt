-- ===== src/Worker/Config/Loaded.antt =====
-- What `Load` of worker/src/config/config_manager.cpp leaves in the configuration.
use perf_monitor.Prelude.{
  ◌≡◌, ◌≢◌, refl, ap, sym, ◌∙◌, Bool, true, false, ◌↔◌, List, [], ◌++◌, Option, none, some,
  append-nil, if◌then◌else◌,
}
use mathlib.Core.Path.{subst}
use perf_monitor.Prelude.Int.{ℤ}
use perf_monitor.Text.{Bytes, codes}
use perf_monitor.Worker.Config.{OffcpuEntry, ProfileEntry, ConfigManager}
use perf_monitor.Worker.Config.Load.{
  Json, Outcome, completed, threw, LoadResult, returned, exception, Step, ◌>>◌, when, offcpu_entry,
  profile_entry, push_each, array_of, assign_int, assign_string, push_offcpu, push_profile,
  push_process, push_thread, load_offcpu, load_profile, perf_settings, load_perf, path_settings,
  load_paths, load_document, finished, load_parsed, load,
}
use perf_monitor.Worker.Config.Steps.{
  all_values, Keeps, then-Keeps, when-Keeps, assign-Keeps, push_each-Keeps, then-completed,
  push_each-values,
}

true-false : true ≢ false
true-false e = absurd (cc)

abbrev value_of : LoadResult → Bool
value_of (returned b) = b
value_of exception = true

finished-true :
    (r : Outcome × ConfigManager)
    → (finished r).0 ≡ returned true
    → (r.0 ≡ completed) × ((finished r).1 ≡ r.1)
finished-true (completed, c) e = (refl, refl)
finished-true (threw, c) e = absurd (cc)

finished-false : (r : Outcome × ConfigManager) → (finished r).0 ≢ returned false
finished-false (completed, c) e = absurd (true-false (ap value_of e))
finished-false (threw, c) e = absurd (cc)

abbrev entries : ConfigManager → List OffcpuEntry × List ProfileEntry
entries cfg = (cfg.offcpu_entries, cfg.profile_entries)

abbrev targets : ConfigManager → List Bytes × List Bytes
targets cfg = (cfg.perf_target_processes, cfg.perf_target_threads)

abbrev lists : ConfigManager → (List OffcpuEntry × List ProfileEntry) × (List Bytes × List Bytes)
lists cfg = (entries cfg, targets cfg)

abbrev processes : ConfigManager → List Bytes
processes cfg = cfg.perf_target_processes

abbrev threads : ConfigManager → List Bytes
threads cfg = cfg.perf_target_threads

-- The configuration that a result of a step holds.
abbrev config : Outcome × ConfigManager → ConfigManager
config r = r.1

module _ {J : Type 0} ⦃j : Json J⦄ where
  -- The names of the document that a list of the part for `perf` is to get.
  abbrev pub names_of : J → Bytes → List J
  names_of raw key =
      if j.contains raw (codes "perf") then array_of (j.element raw (codes "perf")) key else []

  assign_string-Keeps {ℓ} :
      {X : Type ℓ} (g : ConfigManager → X) (object : J) (key : Bytes)
      (set : Bytes → ConfigManager → ConfigManager)
      → ((s : Bytes) (cfg : ConfigManager) → g (set s cfg) ≡ g cfg)
      → Keeps g (assign_string object key set)
  assign_string-Keeps g object key set h =
      when-Keeps g (j.contains object key) _ (assign-Keeps g _ set h)

  assign_int-Keeps {ℓ} :
      {X : Type ℓ} (g : ConfigManager → X) (object : J) (key : Bytes)
      (set : ℤ → ConfigManager → ConfigManager)
      → ((n : ℤ) (cfg : ConfigManager) → g (set n cfg) ≡ g cfg)
      → Keeps g (assign_int object key set)
  assign_int-Keeps g object key set h =
      when-Keeps g (j.contains object key) _ (assign-Keeps g _ set h)

  load_paths-lists : (raw : J) → Keeps lists (load_paths raw)
  unfolding load_paths path_settings
  load_paths-lists raw =
      let pt = j.element raw (codes "paths") in
      when-Keeps lists _ _ (
        then-Keeps lists _ _
          (then-Keeps lists _ _
            (then-Keeps lists _ _ (assign_string-Keeps lists pt _ _ (λ s cfg. refl))
              (assign_string-Keeps lists pt _ _ (λ s cfg. refl)))
            (assign_string-Keeps lists pt _ _ (λ s cfg. refl)))
          (assign_string-Keeps lists pt _ _ (λ s cfg. refl)))

  load_perf-entries : (raw : J) → Keeps entries (load_perf raw)
  unfolding load_perf perf_settings
  load_perf-entries raw =
      let p = j.element raw (codes "perf") in
      when-Keeps entries _ _ (
        then-Keeps entries _ _
          (then-Keeps entries _ _
            (then-Keeps entries _ _ (assign_int-Keeps entries p _ _ (λ s cfg. refl))
              (assign_int-Keeps entries p _ _ (λ s cfg. refl)))
            (push_each-Keeps entries j.get_string push_process _ (λ s cfg. refl)))
          (push_each-Keeps entries j.get_string push_thread _ (λ s cfg. refl)))

  -- How the list of an array grew
  abbrev Grown : (ConfigManager → List Bytes) → List J → ConfigManager → ConfigManager → Type 0
  Grown get items before after =
      (names : List Bytes) × (all_values j.get_string items ≡ some names)
      × (get after ≡ get before ++ names)

  perf_settings-Grown :
      (p : J) (cfg : ConfigManager)
      → (perf_settings p cfg).0 ≡ completed
      → Grown processes (array_of p (codes "target_processes")) cfg (perf_settings p cfg).1
        × Grown threads (array_of p (codes "target_threads")) cfg (perf_settings p cfg).1
  unfolding perf_settings
  perf_settings-Grown p cfg done =
      let numbers : Step =
        assign_int p (codes "cpu_threshold_pct") (λ n c. record c { perf_cpu_threshold_pct = n })
        >> assign_int p (codes "overflow_duration_s")
            (λ n c. record c { perf_overflow_duration_s = n }) in
      let keep : Keeps targets numbers =
        then-Keeps targets _ _ (assign_int-Keeps targets p _ _ (λ n c. refl))
          (assign_int-Keeps targets p _ _ (λ n c. refl)) in
      let first : Step =
        push_each j.get_string push_process (array_of p (codes "target_processes")) in
      let last : Step = push_each j.get_string push_thread (array_of p (codes "target_threads")) in
      let (before, ends, path) = then-completed (numbers >> first) last cfg done in
      let (_, middle, way) = then-completed numbers first cfg before in
      let (names, all, grown) =
        push_each-values j.get_string push_process processes (λ a c. refl)
          (array_of p (codes "target_processes")) _ middle in
      let (more, every, longer) =
        push_each-values j.get_string push_thread threads (λ a c. refl)
          (array_of p (codes "target_threads")) _ ends in
      (
        (
          names,
          all,
          ap (λ r. processes (config r)) path
              ∙ (push_each-Keeps processes j.get_string push_thread _ (λ a c. refl)).kept _
              ∙ ap (λ r. processes (config r)) way
              ∙ grown
              ∙ ap (λ (t : List Bytes × List Bytes). t.0 ++ names) (keep.kept cfg),
        ),
        (
          more,
          every,
          ap (λ r. threads (config r)) path
              ∙ longer
              ∙ ap (λ r. threads (config r) ++ more) way
              ∙ ap (λ l. l ++ more)
                  ((push_each-Keeps threads j.get_string push_process _ (λ a c. refl)).kept _)
              ∙ ap (λ (t : List Bytes × List Bytes). t.1 ++ more) (keep.kept cfg),
        ),
      )

  when-Grown :
      (b : Bool) (p : J) (cfg : ConfigManager)
      → (when b (perf_settings p) cfg).0 ≡ completed
      → let after = (when b (perf_settings p) cfg).1 in
        Grown processes (if b then array_of p (codes "target_processes") else []) cfg after
        × Grown threads (if b then array_of p (codes "target_threads") else []) cfg after
  when-Grown true p cfg done = perf_settings-Grown p cfg done
  when-Grown false p cfg done = (([], refl, sym (append-nil _)), ([], refl, sym (append-nil _)))

  -- What the document says of the entries is what the configuration holds; the names that it gives
  -- stand behind those that were there.
  pub record IsLoaded (raw : J) (before after : ConfigManager) : Type 0 where
    pub offcpu : all_values offcpu_entry (array_of raw (codes "offcpu")) ≡ some after.offcpu_entries
    pub profile :
        all_values profile_entry (array_of raw (codes "profile")) ≡ some after.profile_entries
    pub target_processes : Grown processes (names_of raw (codes "target_processes")) before after
    pub target_threads : Grown threads (names_of raw (codes "target_threads")) before after

  load_document-IsLoaded :
      (raw : J) (cfg : ConfigManager)
      → (load_document raw cfg).0 ≡ completed
      → IsLoaded raw cfg (load_document raw cfg).1
  unfolding load_offcpu load_profile load_perf
  load_document-IsLoaded raw cfg done =
      let (three, fourth, path3) =
        then-completed (load_offcpu raw >> load_profile raw >> load_perf raw) (load_paths raw) cfg
          done in
      let (two, third, path2) =
        then-completed (load_offcpu raw >> load_profile raw) (load_perf raw) cfg three in
      let (one, second, path1) = then-completed (load_offcpu raw) (load_profile raw) cfg two in
      let (offcpus, all, got) =
        push_each-values offcpu_entry push_offcpu (λ c. c.offcpu_entries) (λ a c. refl)
          (array_of raw (codes "offcpu")) _ one in
      let (profiles, every, had) =
        push_each-values profile_entry push_profile (λ c. c.profile_entries) (λ a c. refl)
          (array_of raw (codes "profile")) _ second in
      let whole : lists (config (load_document raw cfg))
          ≡ lists (config (load_perf raw (config ((load_offcpu raw >> load_profile raw) cfg)))) =
        ap (λ r. lists (config r)) path3
        ∙ (load_paths-lists raw).kept _
        ∙ ap (λ r. lists (config r)) path2 in
      let both : entries (config (load_document raw cfg))
          ≡ entries (config (load_profile raw (config (load_offcpu raw cfg)))) =
        ap (λ l. l.0) whole ∙ (load_perf-entries raw).kept _ ∙ ap (λ r. entries (config r)) path1 in
      let lost : targets (config ((load_offcpu raw >> load_profile raw) cfg)) ≡ targets cfg =
        ap (λ r. targets (config r)) path1
        ∙ (push_each-Keeps targets profile_entry push_profile _ (λ a c. refl)).kept _
        ∙ (push_each-Keeps targets offcpu_entry push_offcpu _ (λ a c. refl)).kept _ in
      let ((names, of_names, grown), (more, of_more, longer)) =
        when-Grown (j.contains raw (codes "perf")) (j.element raw (codes "perf")) _ third in
      record {
        offcpu =
            all
            ∙ ap some (
                sym (
                  ap (λ e. e.0) both
                  ∙ (push_each-Keeps (λ c. c.offcpu_entries) profile_entry push_profile _
                        (λ a c. refl)).kept
                      _
                  ∙ got));
        profile = every ∙ ap some (sym (ap (λ e. e.1) both ∙ had));
        target_processes = (
          names,
          of_names,
          ap (λ l. l.1.0) whole ∙ grown ∙ ap (λ (t : List Bytes × List Bytes). t.0 ++ names) lost,
        );
        target_threads = (
          more,
          of_more,
          ap (λ l. l.1.1) whole ∙ longer ∙ ap (λ (t : List Bytes × List Bytes). t.1 ++ more) lost,
        );
      }

  -- The document of a file, if the file can be opened and parsed
  abbrev pub document : (Bytes → Option J) → Option Bytes → Option J
  document parse none = none
  document parse (some text) = parse text

  pub load-no_document :
      (parse : Bytes → Option J) (file : Option Bytes) (cfg : ConfigManager)
      → document parse file ≡ none
      → load parse file cfg ≡ (returned false, cfg)
  unfolding load
  load-no_document parse none cfg e = refl
  load-no_document parse (some text) cfg e = ap (λ o. load_parsed o cfg) e

  parsed-IsLoaded :
      (o : Option J) (cfg : ConfigManager)
      → (load_parsed o cfg).0 ≡ returned true
      → (raw : J) × (o ≡ some raw) × IsLoaded raw cfg (load_parsed o cfg).1
  parsed-IsLoaded none cfg done = absurd (true-false (sym (ap value_of done)))
  parsed-IsLoaded (some raw) cfg done =
      let (whole, path) = finished-true (load_document raw cfg) done in
      (raw, refl, subst (IsLoaded raw cfg) (sym path) (load_document-IsLoaded raw cfg whole))

  parsed-failure :
      (o : Option J) (cfg : ConfigManager)
      → ((load_parsed o cfg).0 ≡ returned false) ↔ ((o ≡ none) × ((load_parsed o cfg).1 ≡ cfg))
  parsed-failure none cfg = (λ e. (refl, refl), λ e. refl)
  parsed-failure (some raw) cfg =
      (λ e. absurd (finished-false (load_document raw cfg) e), λ e. absurd (cc))

  -- A call that returns true has read a document. The entries for the two tools are then those of
  -- the document, every one of which converts, whatever was there before; the names of processes
  -- and threads that it gives for perf stand behind those that were there, so that a reload of the
  -- same document doubles them.
  pub load-IsLoaded :
      (parse : Bytes → Option J) (file : Option Bytes) (cfg : ConfigManager)
      → (load parse file cfg).0 ≡ returned true
      → (raw : J) × (document parse file ≡ some raw) × IsLoaded raw cfg (load parse file cfg).1
  unfolding load
  load-IsLoaded parse none cfg done = absurd (true-false (sym (ap value_of done)))
  load-IsLoaded parse (some text) cfg done = parsed-IsLoaded (parse text) cfg done

  -- A call returns false just if the file cannot be opened or parsed, and then it leaves the
  -- configuration as it was.
  load-failure :
      (parse : Bytes → Option J) (file : Option Bytes) (cfg : ConfigManager)
      → ((load parse file cfg).0 ≡ returned false)
        ↔ ((document parse file ≡ none) × ((load parse file cfg).1 ≡ cfg))
  unfolding load
  load-failure parse none cfg = (λ e. (refl, refl), λ e. refl)
  load-failure parse (some text) cfg = parsed-failure (parse text) cfg
