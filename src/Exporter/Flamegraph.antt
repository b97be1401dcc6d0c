-- ===== src/Exporter/Flamegraph.antt =====
-- `api_flamegraph` of manager/src/rpc/metrics_exporter.cpp. The file system and the shell are
-- parameters: the size that `stat` finds, and the output of a command that `popen` runs.
use perf_monitor.Prelude.{
  ℕ, ◌<◌, ◌≡◌, refl, ◌≢◌, true, not, [], ◌∷◌, ◌++◌, Option, none, some, arith, ◌==◌, if◌then◌else◌,
}
use perf_monitor.Text.{Bytes, codes, starts_with}
use perf_monitor.Exporter.Query.{parse_param}
use perf_monitor.Exporter.Filename.{
  is_safe_filename, is_safe_filename_iff, IsSafe, basename, basename-append,
}

unfoldable pub diagnose_dir : Bytes
diagnose_dir = codes "/tmp/monitor_system/diagnose"

-- The shell command for a file, which stands in it as it is.
unfoldable pub flamegraph_command : Bytes → Bytes → Bytes
flamegraph_command filename path =
    if starts_with filename (codes "perf_")
    then codes "perf script -i "
      ++ (path
          ++ codes
              " | /opt/FlameGraph/stackcollapse-perf.pl | /opt/FlameGraph/flamegraph.pl 2>/dev/null")
    else codes "/opt/FlameGraph/flamegraph.pl < " ++ (path ++ codes " 2>/dev/null")

abbrev pub served_path : Bytes → Bytes
served_path filename = diagnose_dir ++ b'/' ∷ filename

module _ (stat : Bytes → Option ℕ) (run_pipeline : Bytes → Bytes) where
  unfoldable pub api_flamegraph : Bytes → Bytes
  api_flamegraph query =
      let filename = parse_param query (codes "file") in
      let path = served_path filename in
      if not (is_safe_filename filename) then [] else elim (stat path) [
        | none ↦ []
        | some size ↦ if size == 0 then [] else run_pipeline (flamegraph_command filename path)
      ]

  pub record Served (query : Bytes) : Type 0 where
    pub name : Bytes
    pub asked : parse_param query (codes "file") ≡ name
    pub safe : IsSafe name
    pub direct : basename (served_path name) ≡ name
    pub size : ℕ
    pub present : stat (served_path name) ≡ some size
    pub filled : 0 < size
    pub answer : api_flamegraph query ≡ run_pipeline (flamegraph_command name (served_path name))

  checked :
      (query : Bytes)
      → api_flamegraph query ≢ []
      → let name = parse_param query (codes "file") in
        (is_safe_filename name ≡ true)
        × ((size : ℕ) × (stat (served_path name) ≡ some size) × (0 < size))
        × (api_flamegraph query ≡ run_pipeline (flamegraph_command name (served_path name)))
  unfolding api_flamegraph
  checked query h = ground arith

  -- Whenever the answer is not empty, the `file` parameter is a safe name, the file of that name
  -- directly in the diagnose directory is present and not empty, and the answer is what the command
  -- for that file prints.
  pub api_flamegraph-Served : (query : Bytes) → api_flamegraph query ≢ [] → Served query
  api_flamegraph-Served query h =
      let (ok, (size, present, filled), answer) = checked query h in
      let name = parse_param query (codes "file") in
      let safe = (is_safe_filename_iff name).0 ok in
      record {
        name = name;
        asked = refl;
        safe = safe;
        direct = basename-append diagnose_dir name safe.no_slash;
        size = size;
        present = present;
        filled = filled;
        answer = answer;
      }
