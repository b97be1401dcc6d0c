-- ===== src/Worker/ReadFile.antt =====
-- worker/src/utils/read_file.cpp. The text of a file is an argument, or `none` if it cannot be opened.
use perf_monitor.Prelude.{List, [], ◌∷◌, Option, none, some, if◌then◌else◌}
use perf_monitor.Text.{Bytes, is_empty}
use perf_monitor.Text.Stream.{lines}

unfoldable pub read_file : Option Bytes → Bytes
read_file none = []
read_file (some content) = content

-- The loop over `std::getline`, which passes over empty lines.
unfoldable pub filled : List Bytes → List Bytes
filled [] = []
filled (line ∷ rest) = let later = filled rest in if is_empty line then later else line ∷ later

unfoldable pub read_lines : Option Bytes → List Bytes
read_lines none = []
read_lines (some content) = filled (lines content)
