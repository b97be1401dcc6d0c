-- ===== src/Tests/Config.antt =====
-- A configuration of one entry and one name, and starts of the worker with it and without.
use perf_monitor.Prelude.{◌≡◌, refl, true, false, List, [], ◌∷◌, Option, none, some}
use perf_monitor.Prelude.Int.{pos}
use perf_monitor.Text.{Bytes, codes, str_eq}
use perf_monitor.Double.Exact.{exact_double}
use perf_monitor.Worker.Config.{ConfigManager}
use perf_monitor.Worker.Config.Load.{
  load, returned, exception, offcpu_entry, profile_entry, array_of, push_each, load_offcpu,
  load_profile, load_perf, perf_settings, load_paths, path_settings,
}
use perf_monitor.Worker.Config.Steps.{all_values}
use perf_monitor.Worker.Config.Loaded.{document, names_of, IsLoaded, load-IsLoaded}
use perf_monitor.Worker.Directories.{Directories}
use perf_monitor.Worker.Observe.Setup.{buffer}
use perf_monitor.Worker.Pusher.Run.{default_config, Surroundings, run}
use perf_monitor.Worker.Pusher.Ready.{RunsWith, run-configured}
use perf_monitor.Tests.Manager.{web, db}
use perf_monitor.Tests.Worker.{machine, quiet}
use perf_monitor.Tests.Pusher.{pusher}
use perf_monitor.Tests.Documents.{
  Value, text, number, array, object, no_item, item, no_field, field, value_json,
}

abbrev entry : Value
entry =
    object (
      field (codes "process_name") (text web)
        (field (codes "interval_s") (number (pos 5)) no_field))

abbrev written : Value
written = object (
    field (codes "offcpu") (array (item entry no_item)) (
      field (codes "perf")
        (object (field (codes "target_processes") (array (item (text db) no_item)) no_field))
        no_field))

-- The same with a text for a number
abbrev ill_typed : Value
ill_typed = object (
    field (codes "offcpu")
      (array (item (object (field (codes "interval_s") (text web) no_field)) no_item)) no_field)

abbrev parse : Bytes → Option Value
parse s = some written

abbrev parse_nothing : Bytes → Option Value
parse_nothing s = none

loads : (load parse (some []) default_config).0 ≡ returned true
unfolding load load_offcpu load_profile load_perf perf_settings load_paths path_settings push_each
    offcpu_entry str_eq codes
loads = refl

throws : (load (λ s. some ill_typed) (some []) default_config).0 ≡ exception
unfolding load load_offcpu load_profile load_perf perf_settings load_paths path_settings push_each
    offcpu_entry str_eq codes
throws = refl

load-IsLoaded_example :
    (raw : Value) × (document parse (some []) ≡ some raw)
    × IsLoaded raw default_config (load parse (some []) default_config).1
load-IsLoaded_example = load-IsLoaded parse (some []) default_config loads

-- A file system that is the list of the directories that were made.
abbrev no_dirs : List Bytes
no_dirs = []

instance abbrev made_dirs : Directories (List Bytes)
made_dirs = record { mkdir = λ made p. p ∷ made }

abbrev surroundings : Surroundings
surroundings = record {
  wait_for_connected = true;
  gethostname = some web;
  resolve = λ name. none;
  online = pos 4;
  text = record { loadavg = []; stat = []; meminfo = []; diskstats = []; net_dev = [] };
  libbpf = record {
    process_trace = record { open_works = true; load_works = true; attach_works = true };
    tcp_flow = record { open_works = true; load_works = false; attach_works = true };
    process_buffer = buffer;
    flow_buffer = buffer;
  };
}

run-configured_example :
    (raw : Value) × (cfg : ConfigManager) × (document parse (some []) ≡ some raw)
    × (all_values offcpu_entry (array_of raw (codes "offcpu")) ≡ some cfg.offcpu_entries)
    × (all_values profile_entry (array_of raw (codes "profile")) ≡ some cfg.profile_entries)
    × (all_values value_json.get_string (names_of raw (codes "target_processes"))
        ≡ some cfg.perf_target_processes)
    × RunsWith machine pusher.bpf_diagnoser cfg no_dirs
        (run machine surroundings parse (some []) pusher no_dirs quiet).0
run-configured_example =
    run-configured machine surroundings parse (some []) pusher no_dirs quiet loads
