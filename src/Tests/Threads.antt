-- ===== src/Tests/Threads.antt =====
-- What the two programs start and end.
use perf_monitor.Prelude.{
  ℕ, ◌≡◌, ◌≢◌, ◌≤◌, ◌<◌, refl, arith, true, List, [], ◌∷◌, Option, none, some,
}
use perf_monitor.Prelude.Int.{ℤ, pos, negsuc}
use perf_monitor.Text.{Bytes, codes}
use perf_monitor.Double.Exact.{exact_double}
use perf_monitor.Table.{lookup, insert, number_eq}
use perf_monitor.Thread.{collects, stops, no_thread, run, stop, destroy, IsValid, threads-joined}
use perf_monitor.Program.{
  Setting, grpc_addr, http_port, printed, runs, manager_main, env_or_default, manager_main-printed,
}
use perf_monitor.Worker.Observe.Setup
use perf_monitor.Worker.Observe.Setup.{
  Libbpf, error, buffer, proc_pb, init, new_impl, times_made, times_freed, looks_ready,
  init-destroy,
}
use perf_monitor.Worker.Child.{
  Fds, file_at, close, dup2, redirect, child, Listed, child-descriptors,
}
use perf_monitor.Exporter.Server.{
  Port, Turn, serve_loop, times_opened, times_closed, answers, responses, accepted,
  serve_loop-closes,
}
use perf_monitor.Tests.Manager.{web, held}

threads-joined_example :
    let t = run (collects ∷ collects ∷ stops ∷ collects ∷ []) no_thread in
    IsValid t × ((stop t).joined ≡ (stop t).started) × (destroy (stop t) ≡ stop t)
threads-joined_example = threads-joined (collects ∷ collects ∷ stops ∷ collects ∷ [])

-- The first buffer is an error, which `Init` does not see.
abbrev libbpf : Libbpf
libbpf = record {
  process_trace = record { open_works = true; load_works = true; attach_works = true };
  tcp_flow = record { open_works = true; load_works = true; attach_works = true };
  process_buffer = error;
  flow_buffer = buffer;
}

init-destroy_example :
    let (result, impl, acts) = init libbpf new_impl in
    (times_freed proc_pb (Setup.destroy impl) ≡ times_made proc_pb acts)
    × (times_made proc_pb acts ≤ 1)
    × (result ≡ looks_ready libbpf)
init-destroy_example = init-destroy libbpf proc_pb

-- A parent with a socket at 5, which the child opens its file and the listing beside.
abbrev fds : Fds
fds = (0, b'i' ∷ []) ∷ (1, b'o' ∷ []) ∷ (2, b'e' ∷ []) ∷ (5, b's' ∷ []) ∷ []

only_five :
    (j : ℕ) → 2 < j → j ≢ 3 → file_at j (redirect (some 3) web fds) ≢ none → Listed j (5 ∷ [])
unfolding redirect dup2 close insert lookup
only_five j above other open_fd = ground arith

child-descriptors_example :
    let (program, argv, final) = child (some 3) (some (3, 5 ∷ [])) web [] web fds in
    (program ≡ web)
    × (argv ≡ web ∷ [])
    × (file_at 5 final ≡ none)
    × (file_at 2 final ≡ some web)
    × (file_at 1 final ≡ some web)
    × (file_at 0 final ≡ file_at 0 fds)
child-descriptors_example =
    child-descriptors 3 3 (5 ∷ []) web [] web fds refl (omega arith) (omega arith) only_five 5
      (omega arith)

abbrev port : Port
port = record { socket = pos 3; bind = pos 0; listen = pos 0 }

abbrev turn : ℤ → Turn ℤ
turn fd = record { select = pos 1; accept = fd; bytes = web; hosts = held }

abbrev no_file : Bytes → Option ℕ
no_file path = none

abbrev no_output : Bytes → Bytes
no_output command = []

serve_loop-closes_example :
    let loop = turn (pos 4) ∷ turn (negsuc 0) ∷ turn (pos 5) ∷ [] in
    let acts = serve_loop no_file no_output port loop in
    (times_closed (pos 4) acts ≡ times_opened (pos 4) acts)
    × (answers acts ≡ responses no_file no_output (accepted loop))
serve_loop-closes_example =
    serve_loop-closes no_file no_output port (turn (pos 4) ∷ turn (negsuc 0) ∷ turn (pos 5) ∷ [])
      (pos 4)

abbrev settings : List Setting
settings = http_port web ∷ grpc_addr web ∷ http_port [] ∷ []

abbrev stoi : Bytes → Option ℤ
stoi [] = some (pos 80)
stoi (c ∷ s) = some (pos 81)

manager_main-printed_example :
    manager_main stoi none (some []) (printed settings) ≡ runs web (pos 80)
unfolding env_or_default codes
manager_main-printed_example = manager_main-printed stoi none (some []) settings
