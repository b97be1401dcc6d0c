-- ===== src/Tests/Exporter.antt =====
-- The exporter on the manager of `Tests.Manager`.
use perf_monitor.Prelude.{ℕ, ◌≡◌, ◌≢◌, refl, ◌↔◌, arith, true, [], ◌∷◌, ◌++◌, Option, some}
use perf_monitor.Text.{Bytes, codes, find, find_char, rfind_char, find_char_from, str_eq}
use perf_monitor.Double.Exact.{exact_double}
use perf_monitor.Host.{get_all}
use perf_monitor.Exporter.Query.{parse_param, value_of, parse_param_first}
use perf_monitor.Exporter.Filename.{is_safe_filename, IsSafe, is_safe_filename_iff}
use perf_monitor.Exporter.Flamegraph.{api_flamegraph, Served, api_flamegraph-Served}
use perf_monitor.Exporter.Events.{api_events, event_texts, joined, api_events-joined}
use perf_monitor.Exporter.Request.{received, parse_request, serve}
use perf_monitor.Exporter.Request.Framing.{measured, Frames, serve-Frames}
use perf_monitor.Exporter.Request.Parsing.{target, line_of, parse_request-line}
use perf_monitor.Tests.Manager.{held}

-- The bytes of `GET`, `/a`, `h=1`, `HTTP` and of what follows the line.
abbrev get_method : Bytes
get_method = b'G' ∷ b'E' ∷ b'T' ∷ []

abbrev path_a : Bytes
path_a = b'/' ∷ b'a' ∷ []

abbrev query_h : Bytes
query_h = b'h' ∷ b'=' ∷ b'1' ∷ []

abbrev http : Bytes
http = b'H' ∷ b'T' ∷ b'T' ∷ b'P' ∷ []

parse_request-line_example :
    parse_request
      (received (line_of get_method (target path_a (some query_h)) http ++ b'\r' ∷ b'\n' ∷ path_a))
    ≡ (path_a, query_h)
parse_request-line_example =
    parse_request-line get_method path_a (some query_h) http path_a (omega arith) (omega arith)
      (omega arith) (omega arith) (omega arith) (omega arith)

-- `file=perf_1.data`
abbrev perf_file : Bytes
perf_file = b'p' ∷ b'e' ∷ b'r' ∷ b'f' ∷ b'_' ∷ b'1' ∷ b'.' ∷ b'd' ∷ b'a' ∷ b't' ∷ b'a' ∷ []

abbrev file_key : Bytes
file_key = b'f' ∷ b'i' ∷ b'l' ∷ b'e' ∷ []

-- A longer name that ends in `file`
parse_param_first_example :
    parse_param (b'x' ∷ [] ++ (file_key ++ b'=' ∷ perf_file)) file_key ≡ value_of perf_file
parse_param_first_example =
    parse_param_first (b'x' ∷ []) file_key perf_file (omega arith) (omega arith)

is_safe_filename_iff_example : (is_safe_filename perf_file ≡ true) ↔ IsSafe perf_file
is_safe_filename_iff_example = is_safe_filename_iff perf_file

-- A file of three bytes, and a pipeline that prints one byte.
abbrev stat_three : Bytes → Option ℕ
stat_three path = some 3

abbrev print_one : Bytes → Bytes
print_one cmd = b's' ∷ []

abbrev file_query : Bytes
file_query = file_key ++ b'=' ∷ perf_file

perf_file_drawn : api_flamegraph stat_three print_one file_query ≡ b's' ∷ []
unfolding api_flamegraph is_safe_filename parse_param find find_char find_char_from codes str_eq
perf_file_drawn = refl

perf_file_not_empty : api_flamegraph stat_three print_one file_query ≢ []
perf_file_not_empty = λ e. cc perf_file_drawn

api_flamegraph-Served_example : Served stat_three print_one file_query
api_flamegraph-Served_example =
    api_flamegraph-Served stat_three print_one file_query perf_file_not_empty

serve-Frames_example :
    Frames
      (measured (api_events held))
      (serve stat_three print_one held (codes "GET /api/events HTTP/1.1\r\n\r\n"))
unfolding received parse_request codes str_eq find find_char rfind_char
serve-Frames_example =
    serve-Frames stat_three print_one held (codes "GET /api/events HTTP/1.1\r\n\r\n")

api_events-joined_example :
    api_events held
    ≡ codes "[\n" ++ joined (codes ",\n") true (event_texts (get_all held)) ++ codes "\n]"
api_events-joined_example = api_events-joined held
