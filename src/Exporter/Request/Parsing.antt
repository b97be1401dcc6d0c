-- ===== src/Exporter/Request/Parsing.antt =====
-- The request line that `serve_loop` finds in what it reads.
use perf_monitor.Prelude.{
  suc, ◌+◌, ◌-◌, ◌≤◌, ◌≡◌, refl, sym, ap, ◌∙◌, [], ◌∷◌, ◌++◌, Option, none, some, arith, length,
  take, drop, take-append, take-append_le, length-append, drop-append_add, append_assoc, All-append,
}
use perf_monitor.Text.{Bytes, until_nul, codes, find, rfind_char, starts_with}
use perf_monitor.Text.Search.{
  until_nul-append, Avoids, find_char-append, find_char-Avoids, rfind_char-append,
}
use perf_monitor.Exporter.Request.{
  buffer_size, received, request_line, full_path, split_query, parse_request,
}

-- What fits the buffer and has no NUL is read whole.
received-append :
    (s rest : Bytes)
    → Avoids 0 s
    → length s ≤ buffer_size
    → (more : Bytes) × (received (s ++ rest) ≡ s ++ more)
unfolding received
received-append s rest h l =
    let kept = take (buffer_size - length s) rest in
    (until_nul kept, ap until_nul (take-append_le buffer_size s rest l) ∙ until_nul-append s kept h)

find_line_end :
    (line rest : Bytes)
    → Avoids b'\r' line
    → find (line ++ (b'\r' ∷ b'\n' ∷ rest)) (b'\r' ∷ b'\n' ∷ []) ≡ some (length line)
unfolding find starts_with
find_line_end [] rest h = refl
find_line_end (c ∷ line) rest h = ground (arith, find_line_end line rest h.1)

request_line-append :
    (line rest : Bytes) → Avoids b'\r' line → request_line (line ++ (b'\r' ∷ b'\n' ∷ rest)) ≡ line
unfolding request_line codes
request_line-append line rest h =
    ground (arith, find_line_end line rest h, take-append line (b'\r' ∷ b'\n' ∷ rest))

full_path-line :
    (method target version : Bytes)
    → Avoids b' ' method
    → Avoids b' ' version
    → full_path (method ++ b' ' ∷ (target ++ b' ' ∷ version)) ≡ target
unfolding full_path
full_path-line method target version m v =
    let line : Bytes = method ++ b' ' ∷ (target ++ b' ' ∷ version) in
    let front : Bytes = method ++ b' ' ∷ target in
    let split : line ≡ front ++ b' ' ∷ version =
      sym (append_assoc method (b' ' ∷ target) (b' ' ∷ version)) in
    let last : rfind_char line b' ' ≡ some (length front) =
      ap (λ l. rfind_char l b' ') split ∙ rfind_char-append front version b' ' v in
    let size : length front ≡ length method + suc (length target) =
      length-append method (b' ' ∷ target) in
    let behind : drop (length method + 1) line ≡ target ++ b' ' ∷ version =
      drop-append_add method (b' ' ∷ (target ++ b' ' ∷ version)) 1 in
    let width : length front - length method - 1 ≡ length target = omega arith in
    ground (
      arith,
      find_char-append method (target ++ b' ' ∷ version) b' ' m,
      last,
      behind,
      width,
      take-append target (b' ' ∷ version),
    )

-- The path of a request, with a query or without.
abbrev pub target : Bytes → Option Bytes → Bytes
target path none = path
target path (some query) = path ++ b'?' ∷ query

abbrev pub query_or_empty : Option Bytes → Bytes
query_or_empty none = []
query_or_empty (some query) = query

split_query-target :
    (path : Bytes) (query : Option Bytes)
    → Avoids b'?' path
    → split_query (target path query) ≡ (path, query_or_empty query)
unfolding split_query
split_query-target path none h = ground (arith, find_char-Avoids path b'?' h)
split_query-target path (some query) h = ground (
  arith,
  find_char-append path query b'?' h,
  take-append path (b'?' ∷ query),
  drop-append_add path (b'?' ∷ query) 1,
)

-- The line of a GET request, or of any other method.
abbrev pub line_of : Bytes → Bytes → Bytes → Bytes
line_of method target version = method ++ b' ' ∷ (target ++ b' ' ∷ version)

-- A request line of a method, a target and a version, which has no NUL and no carriage return and
-- leaves room for the line end in the buffer, is split into the path and the query of the target,
-- whatever follows the line. The method and the version have no space and the path no `?`; the
-- query may have either.
pub parse_request-line :
    (method path : Bytes) (query : Option Bytes) (version rest : Bytes)
    → Avoids b' ' method
    → Avoids b'?' path
    → Avoids b' ' version
    → Avoids b'\r' (line_of method (target path query) version)
    → Avoids 0 (line_of method (target path query) version)
    → length (line_of method (target path query) version) + 2 ≤ buffer_size
    → parse_request (received (line_of method (target path query) version ++ b'\r' ∷ b'\n' ∷ rest))
      ≡ (path, query_or_empty query)
unfolding parse_request
parse_request-line method path query version rest m p v r z l =
    let line = line_of method (target path query) version in
    let end : Bytes = b'\r' ∷ b'\n' ∷ [] in
    let clear : Avoids 0 (line ++ end) = All-append _ line end z (omega arith) in
    let fits : length (line ++ end) ≤ buffer_size = omega (arith, length-append line end) in
    let (more, read) = received-append (line ++ end) rest clear fits in
    let whole : received (line ++ b'\r' ∷ b'\n' ∷ rest) ≡ line ++ (b'\r' ∷ b'\n' ∷ more) =
      ap received (sym (append_assoc line end rest)) ∙ read ∙ append_assoc line end more in
    rw
      (
        whole,
        request_line-append line more r,
        full_path-line method (target path query) version m v,
      )
      (split_query-target path query p)
