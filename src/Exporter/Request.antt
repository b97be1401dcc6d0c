-- ===== src/Exporter/Request.antt =====
-- What `serve_loop` of manager/src/rpc/metrics_exporter.cpp does with one connection: from the
-- bytes that `read` returns to the bytes that `write` is given.
pub mod Parsing
pub mod Framing
use perf_monitor.Prelude.{
  ℕ, suc, ◌+◌, ◌-◌, Bool, List, [], ◌∷◌, ◌++◌, Option, none, some, ltb, ◌==◌, if◌then◌else◌, length,
  take, drop,
}
use perf_monitor.Text.{Bytes, codes, str_eq, find, find_char, rfind_char, is_empty, until_nul, ◌<<◌}
use perf_monitor.Text.Decimal.{to_string_ℕ}
use perf_monitor.Double.{Double}
use perf_monitor.Host.{Hosts}
use perf_monitor.Exporter.Events.{api_events}
use perf_monitor.Exporter.Flamegraph.{api_flamegraph}
use perf_monitor.Exporter.Metrics.{prometheus_metrics}

-- The `char buf[4096]`, of which one byte stays a NUL.
abbrev pub buffer_size : ℕ
buffer_size = 4095

-- What `std::string req(buf)` holds.
unfoldable pub received : Bytes → Bytes
unfolding until_nul
received bytes = until_nul (take buffer_size bytes)

unfoldable pub request_line : Bytes → Bytes
request_line req = elim (find req (codes "\r\n")) [ none ↦ req | some end ↦ take end req ]

-- Between the first and the last space; "/" where there is only one, or none.
unfoldable pub full_path : Bytes → Bytes
full_path line = elim (find_char line b' ') [
  | none ↦ codes "/"
  | some p1 ↦ elim (rfind_char line b' ') [
    | none ↦ codes "/"
    | some p2 ↦ if ltb p1 p2 then take (p2 - p1 - 1) (drop (p1 + 1) line) else codes "/"
  ]
]

unfoldable pub split_query : Bytes → Bytes × Bytes
split_query target = elim (find_char target b'?') [
  | none ↦ (target, [])
  | some at ↦ (take at target, drop (at + 1) target)
]

unfoldable pub parse_request : Bytes → Bytes × Bytes
unfolding request_line full_path split_query
parse_request req = split_query (full_path (request_line req))

-- A response that states the length of its body.
unfoldable pub with_length : Bytes → Bytes → Bytes
with_length head body =
    head << codes "Content-Length: " << to_string_ℕ (length body) << codes "\r\n\r\n" << body

unfoldable pub flamegraph_response : Bytes → Bytes
flamegraph_response body =
    if is_empty body
    then codes
        "HTTP/1.1 400 Bad Request\r\nContent-Type: text/plain\r\n\r\nInvalid or missing file parameter"
    else with_length
        (codes
          "HTTP/1.1 200 OK\r\nContent-Type: image/svg+xml\r\nAccess-Control-Allow-Origin: *\r\n")
        body

module _ {D : Type 0} ⦃d : Double D⦄ (stat : Bytes → Option ℕ) (run_pipeline : Bytes → Bytes) where
  unfoldable pub route : Hosts D → Bytes → Bytes → Bytes
  route hosts path query =
      if str_eq path (codes "/healthz")
      then codes "HTTP/1.1 200 OK\r\nContent-Type: text/plain\r\n\r\nOK"
      else if str_eq path (codes "/api/events")
      then with_length
          (codes
            "HTTP/1.1 200 OK\r\nContent-Type: application/json\r\nAccess-Control-Allow-Origin: *\r\n")
          (api_events hosts)
      else if str_eq path (codes "/api/flamegraph")
      then flamegraph_response (api_flamegraph stat run_pipeline query)
      else with_length (codes "HTTP/1.1 200 OK\r\nContent-Type: text/plain; version=0.0.4\r\n")
          (prometheus_metrics hosts)

  unfoldable pub serve : Hosts D → Bytes → Bytes
  serve hosts bytes = let (path, query) = parse_request (received bytes) in route hosts path query
