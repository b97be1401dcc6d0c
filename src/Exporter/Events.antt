-- ===== src/Exporter/Events.antt =====
-- `api_events` of manager/src/rpc/metrics_exporter.cpp: the JSON text of all the diagnose events.
use perf_monitor.Prelude.{
  ◌≡◌, refl, sym, ap, ◌∙◌, Bool, true, false, List, [], ◌∷◌, ◌++◌, if◌then◌else◌, map, append_assoc,
  append-nil,
}
use perf_monitor.Text.{Bytes, codes}
use perf_monitor.Text.Decimal.{to_string}
use perf_monitor.Double.{Double}
use perf_monitor.Host.{DiagnoseRecord, HostSnapshot, Hosts, get_all}
use perf_monitor.Exporter.Filename.{basename}

module _ {D : Type 0} ⦃d : Double D⦄ where
  unfoldable pub event_json : Bytes → DiagnoseRecord D → Bytes
  event_json host de =
      codes "  {\"host\":\""
      ++ (host
          ++ (codes "\",\"type\":\""
              ++ (de.type
                  ++ (codes "\",\"process\":\""
                      ++ (de.process_name
                          ++ (codes "\",\"file\":\""
                              ++ (basename de.file_path
                                  ++ (codes "\",\"timestamp\":"
                                      ++ (to_string de.timestamp
                                          ++ (codes ",\"cpu_percent\":"
                                              ++ (d.show de.cpu_percent ++ codes "}")))))))))))

  -- The stream and `first_ev`, after one host's events.
  unfoldable pub write_events : Bytes → Bytes × Bool → List (DiagnoseRecord D) → Bytes × Bool
  write_events host state [] = state
  write_events host (out, first) (de ∷ rest) =
      write_events host (out ++ ((if first then [] else codes ",\n") ++ event_json host de), false)
        rest

  unfoldable pub write_hosts : Bytes × Bool → List (HostSnapshot D) → Bytes × Bool
  write_hosts state [] = state
  write_hosts state (h ∷ rest) = write_hosts (write_events h.hostname state h.diagnose_events) rest

  unfoldable pub api_events : Hosts D → Bytes
  api_events hosts = (write_hosts (codes "[\n", true) (get_all hosts)).0 ++ codes "\n]"

  -- The texts of all the events, in the order of the hosts.
  abbrev pub event_texts : List (HostSnapshot D) → List Bytes
  event_texts [] = []
  event_texts (h ∷ rest) = map (event_json h.hostname) h.diagnose_events ++ event_texts rest

-- The texts, each behind a separator; the first of all has none.
abbrev pub joined : Bytes → Bool → List Bytes → Bytes
joined sep first [] = []
joined sep first (t ∷ ts) = (if first then [] else sep) ++ (t ++ joined sep false ts)

-- Whether nothing is written yet.
abbrev still : Bool → List Bytes → Bool
still first [] = first
still first (t ∷ ts) = false

still-false : (l : List Bytes) → still false l ≡ false
still-false [] = refl
still-false (_ ∷ _) = refl

joined-append :
    (sep : Bytes) (first : Bool) (ts us : List Bytes)
    → joined sep first (ts ++ us) ≡ joined sep first ts ++ joined sep (still first ts) us
joined-append sep first [] us = refl
joined-append sep first (t ∷ ts) us =
    let start = if first then [] else sep in
    let rest = joined sep false ts in
    ap (λ z. start ++ (t ++ z))
      (joined-append sep false ts us ∙ ap (λ b. rest ++ joined sep b us) (still-false ts))
    ∙ ap (◌++◌ start) (sym (append_assoc t rest (joined sep false us)))
    ∙ sym (append_assoc start (t ++ rest) (joined sep false us))

still-append :
    (first : Bool) (ts us : List Bytes) → still (still first ts) us ≡ still first (ts ++ us)
still-append first [] us = refl
still-append first (t ∷ ts) [] = refl
still-append first (t ∷ ts) (u ∷ us) = refl

module _ {D : Type 0} ⦃d : Double D⦄ where
  write_events-joined :
      (host out : Bytes) (first : Bool) (events : List (DiagnoseRecord D))
      → let texts = map (event_json host) events in
        write_events host (out, first) events
        ≡ (out ++ joined (codes ",\n") first texts, still first texts)
  unfolding write_events
  write_events-joined host out first [] = rw append-nil
  write_events-joined host out first (de ∷ rest) =
      let start = if first then [] else codes ",\n" in
      let texts = map (event_json host) rest in
      write_events-joined host (out ++ (start ++ event_json host de)) false rest
      ∙ simp (append_assoc, still-false)

  write_hosts-joined :
      (out : Bytes) (first : Bool) (hosts : List (HostSnapshot D))
      → let texts = event_texts hosts in
        write_hosts (out, first) hosts
        ≡ (out ++ joined (codes ",\n") first texts, still first texts)
  unfolding write_hosts
  write_hosts-joined out first [] = rw append-nil
  write_hosts-joined out first (h ∷ rest) =
      let now = map (event_json h.hostname) h.diagnose_events in
      let later = event_texts rest in
      let sep = codes ",\n" in
      rw (write_events-joined h.hostname out first h.diagnose_events) (
        write_hosts-joined (out ++ joined sep first now) (still first now) rest
        ∙ rw (joined-append sep first now later, still-append first now later, append_assoc))

  -- The event list is, between brackets, the texts of all the events that are kept of all the hosts,
  -- host by host and in the order in which each list has them, with a comma and a line break between
  -- each two and none elsewhere.
  pub api_events-joined :
      (hosts : Hosts D)
      → api_events hosts
        ≡ codes "[\n" ++ joined (codes ",\n") true (event_texts (get_all hosts)) ++ codes "\n]"
  unfolding api_events
  api_events-joined hosts =
      ap (λ (state : Bytes × Bool). state.0 ++ codes "\n]")
        (write_hosts-joined (codes "[\n") true (get_all hosts))
