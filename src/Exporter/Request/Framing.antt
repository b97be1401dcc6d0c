-- ===== src/Exporter/Request/Framing.antt =====
-- How a client finds the body of a response of `serve_loop`.
use perf_monitor.Prelude.{
  ℕ, ◌≡◌, refl, ap, sym, ◌∙◌, Bool, true, false, Option, none, some, [], ◌∷◌, ◌++◌, ◌||◌, ◌&&◌, not,
  ◌==◌, arith, length, drop, drop-append, append_assoc, if◌then◌else◌,
}
use perf_monitor.Text.{Bytes, codes, starts_with, str_eq, is_empty}
use perf_monitor.Text.Search.{Avoids, starts_with-append}
use perf_monitor.Text.Decimal.{to_string_ℕ}
use perf_monitor.Text.Stream.{digits_value}
use perf_monitor.Text.Stream.Printed.{digits_value-to_string, to_string-Avoids}
use perf_monitor.Double.{Double}
use perf_monitor.Host.{Hosts}
use perf_monitor.Exporter.Events.{api_events}
use perf_monitor.Exporter.Flamegraph.{api_flamegraph}
use perf_monitor.Exporter.Metrics.{prometheus_metrics}
use perf_monitor.Exporter.Request.{
  with_length, flamegraph_response, route, serve, parse_request, received,
}

-- What stands behind the first occurrence of a text.
pub after : Bytes → Bytes → Option Bytes
after needle [] = none
after needle (c ∷ s) =
    let later = after needle s in
    if starts_with (c ∷ s) needle then some (drop (length needle) (c ∷ s)) else later

-- No occurrence of the second text begins in the first one, whatever follows it.
mismatch : Bytes → Bytes → Bool
mismatch [] needle = false
mismatch (a ∷ s) [] = false
mismatch (a ∷ s) (b ∷ needle) = not (a == b) || mismatch s needle

clear : Bytes → Bytes → Bool
unfolding mismatch
clear needle [] = true
clear needle (c ∷ s) = mismatch (c ∷ s) needle && clear needle s

mismatch-starts :
    (s needle rest : Bytes) → mismatch s needle ≡ true → starts_with (s ++ rest) needle ≡ false
unfolding mismatch starts_with
mismatch-starts [] needle rest h = absurd (cc)
mismatch-starts (a ∷ s) [] rest h = absurd (cc)
mismatch-starts (a ∷ s) (b ∷ needle) rest h = ground (arith, mismatch-starts s needle rest)

after-clear :
    (s needle rest : Bytes) → clear needle s ≡ true → after needle (s ++ rest) ≡ after needle rest
unfolding after clear
after-clear [] needle rest h = refl
after-clear (c ∷ s) needle rest h =
    ground (arith, mismatch-starts (c ∷ s) needle rest, after-clear s needle rest)

-- The body, behind the empty line that ends the head.
abbrev pub body_of : Bytes → Option Bytes
body_of response = after (codes "\r\n\r\n") response

-- The number in the first Content-Length, if there is one.
abbrev pub number_of : Option Bytes → Option ℕ
number_of none = none
number_of (some s) = some (digits_value 0 s).0

abbrev pub stated_length : Bytes → Option ℕ
stated_length response = number_of (after (codes "Content-Length: ") response)

-- What a response carries: its body and the length that is stated.
abbrev pub Page : Type 0
Page = Bytes × Option ℕ

abbrev pub measured : Bytes → Page
measured body = (body, some (length body))

-- A client reads the page from the response.
abbrev pub Frames : Page → Bytes → Type 0
Frames page response = (body_of response ≡ some page.0) × (stated_length response ≡ page.1)

abbrev flamegraph_page : Bytes → Page
flamegraph_page body =
    if is_empty body then (codes "Invalid or missing file parameter", none) else measured body

after-found :
    (needle rest : Bytes) → is_empty needle ≡ false → after needle (needle ++ rest) ≡ some rest
unfolding after
after-found [] rest h = absurd (cc)
after-found (c ∷ needle) rest h =
    rw (starts_with-append (c ∷ needle) rest) (ap some (drop-append (c ∷ needle) rest))

clear-Avoids : (s needle : Bytes) (b : ℕ) → Avoids b s → clear (b ∷ needle) s ≡ true
unfolding clear mismatch
clear-Avoids [] needle b h = refl
clear-Avoids (c ∷ s) needle b h = ground (arith, clear-Avoids s needle b h.1)

number-clear : (n : ℕ) → clear (codes "\r\n\r\n") (to_string_ℕ n) ≡ true
unfolding codes
number-clear n = clear-Avoids (to_string_ℕ n) (codes "\n\r\n") b'\r' (to_string-Avoids n b'\r' refl)

number-read :
    (n : ℕ) (body : Bytes) → (digits_value 0 (to_string_ℕ n ++ (codes "\r\n\r\n" ++ body))).0 ≡ n
unfolding codes
number-read n body = ap (λ r. r.0) (digits_value-to_string n b'\r' (codes "\n\r\n" ++ body) refl)

with_length-Frames :
    (head body : Bytes)
    → clear (codes "\r\n\r\n") (head ++ codes "Content-Length: ") ≡ true
    → clear (codes "Content-Length: ") head ≡ true
    → Frames (measured body) (with_length head body)
unfolding with_length codes
with_length-Frames head body h k =
    let tail = codes "\r\n\r\n" ++ body in
    let size = to_string_ℕ (length body) ++ tail in
    let behind : after (codes "Content-Length: ") (with_length head body) ≡ some size =
      after-clear head (codes "Content-Length: ") (codes "Content-Length: " ++ size) k
      ∙ after-found (codes "Content-Length: ") size refl in
    (
      ap body_of (sym (append_assoc head (codes "Content-Length: ") size))
          ∙ after-clear (head ++ codes "Content-Length: ") (codes "\r\n\r\n") size h
          ∙ after-clear (to_string_ℕ (length body)) (codes "\r\n\r\n") tail
              (number-clear (length body))
          ∙ after-found (codes "\r\n\r\n") body refl,
      ap number_of behind ∙ ap some (number-read (length body) body),
    )

flamegraph_response-Frames :
    (body : Bytes) → Frames (flamegraph_page body) (flamegraph_response body)
unfolding flamegraph_response after clear codes starts_with
flamegraph_response-Frames [] = (refl, refl)
flamegraph_response-Frames (c ∷ body) =
    with_length-Frames
      (codes "HTTP/1.1 200 OK\r\nContent-Type: image/svg+xml\r\nAccess-Control-Allow-Origin: *\r\n")
      (c ∷ body) refl refl

healthz-Frames :
    Frames (codes "OK", none) (codes "HTTP/1.1 200 OK\r\nContent-Type: text/plain\r\n\r\nOK")
unfolding after codes starts_with
healthz-Frames = (refl, refl)

events-Frames :
    (body : Bytes)
    → Frames (measured body) (
        with_length
          (codes
            "HTTP/1.1 200 OK\r\nContent-Type: application/json\r\nAccess-Control-Allow-Origin: *\r\n")
          body)
unfolding clear codes
events-Frames body = with_length-Frames _ body refl refl

metrics-Frames :
    (body : Bytes)
    → Frames
        (measured body)
        (with_length (codes "HTTP/1.1 200 OK\r\nContent-Type: text/plain; version=0.0.4\r\n") body)
unfolding clear codes
metrics-Frames body = with_length-Frames _ body refl refl

Frames-if :
    (b : Bool) (p q : Page) (r s : Bytes)
    → Frames p r
    → Frames q s
    → Frames (if b then p else q) (if b then r else s)
Frames-if true p q r s f g = f
Frames-if false p q r s f g = g

module _ {D : Type 0} ⦃d : Double D⦄ (stat : Bytes → Option ℕ) (run_pipeline : Bytes → Bytes) where
  -- The page of a path
  abbrev pub page : Hosts D → Bytes → Bytes → Page
  page hosts path query =
      if str_eq path (codes "/healthz")
      then (codes "OK", none)
      else if str_eq path (codes "/api/events")
      then measured (api_events hosts)
      else if str_eq path (codes "/api/flamegraph")
      then flamegraph_page (api_flamegraph stat run_pipeline query)
      else measured (prometheus_metrics hosts)

  -- Whatever bytes are received, a client finds in the response exactly the page of the requested
  -- path behind the first empty line, and the first Content-Length states the length of that page;
  -- none is stated for the health page and for the refusal of a flamegraph.
  pub serve-Frames :
      (hosts : Hosts D) (bytes : Bytes)
      → let (path, query) = parse_request (received bytes) in
        Frames (page hosts path query) (serve stat run_pipeline hosts bytes)
  unfolding serve route
  serve-Frames hosts bytes =
      let (path, query) = parse_request (received bytes) in
      Frames-if _ _ _ _ _ healthz-Frames (
        Frames-if _ _ _ _ _ (events-Frames (api_events hosts)) (
          Frames-if _ _ _ _ _ (flamegraph_response-Frames (api_flamegraph stat run_pipeline query))
            (metrics-Frames (prometheus_metrics hosts))))
