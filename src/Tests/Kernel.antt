-- ===== src/Tests/Kernel.antt =====
-- A connection that two sends and a receive go through, as the kernel programs see it.
use perf_monitor.Prelude.{ℕ, ◌+◌, ◌*◌, ◌%◌, ◌^◌, ◌≡◌, ◌≢◌, refl, List, [], ◌∷◌, ◌++◌, none, some}
use perf_monitor.Prelude.Int.{ℤ, pos, to_u64}
use perf_monitor.Double.Exact.{exact_double}
use perf_monitor.Table.{Table, lookup, insert, number_eq}
use perf_monitor.Message.{MonitorInfo}
use perf_monitor.Host.{get}
use perf_monitor.Rpc.{set_monitor_info}
use perf_monitor.Rpc.Stored.{wrapped}
use perf_monitor.Worker.Kernel.Counted.{flow_counted}
use perf_monitor.Worker.Observe.{BpfFlowEvent, flow_event_size}
use perf_monitor.Worker.Kernel.{Context}
use perf_monitor.Worker.Kernel.Flow.{
  FlowKey, FlowVal, FlowState, Sock, fill_flow_key, tcp_sendmsg, tcp_cleanup_rbuf, tcp_set_state,
  tcp_done, on_flow, sent, received, moved, note_connect, is_syn_sent, emit_flow,
}
use perf_monitor.Worker.Kernel.Calls.{Call, sendmsg, cleanup_rbuf, set_state, done, run, same_key}
use perf_monitor.Worker.Kernel.Tracked.{entry}
use perf_monitor.Worker.Kernel.Lifetime.{total, size_of, copied_of, last_state}
use perf_monitor.Worker.Kernel.Report.{closed_flow}
use perf_monitor.Worker.Kernel.Silent.{reported, unsent_flow}
use perf_monitor.Worker.Kernel.Process.{ProcInfo, ExecEvent, ProcessState}
use perf_monitor.Worker.Kernel.Traced.{Trace, exec, exit, trace, traced}
use perf_monitor.Worker.Pusher.{Readings, push}
use perf_monitor.Tests.Manager.{web, held}
use perf_monitor.Tests.Worker.{machine, quiet}
use perf_monitor.Tests.Pusher.{pusher, no_double, dotted}
use perf_monitor.Tests.Maps.{table_map, flow_key_eq, updated, remove}

abbrev Flows : Type 0
Flows = FlowState (Table FlowKey FlowVal) (Table ℕ ℕ)

abbrev idle : Flows
idle = record { flow_map = []; connect_start = []; flow_events = [] }

abbrev context : ℕ → Context
context t = record { pid_tgid = 7 * 2 ^ 32 + 9; comm = web; clock = λ n. t + n }

abbrev socket : Sock
socket = record { rcv_saddr = 1; daddr = 2; num = 80; dport = 81; family = 2 }

abbrev same_port : ℕ → ℕ
same_port n = n

abbrev key : FlowKey
key = fill_flow_key same_port (context 10) socket

abbrev traffic : List Call
traffic =
    set_state (context 20) socket (pos 1)
    ∷ sendmsg (context 30) socket 50
    ∷ cleanup_rbuf (context 40) socket (pos 24)
    ∷ []

key_family : key.family ≡ 2
unfolding fill_flow_key
key_family = refl

same_flow : fill_flow_key same_port (context 50) socket ≡ key
unfolding fill_flow_key
same_flow = refl

not_yet : entry same_port key idle ≡ none
unfolding lookup
not_yet = refl

has_room : entry same_port key (tcp_sendmsg same_port (context 10) socket 100 idle) ≢ none
unfolding fill_flow_key tcp_sendmsg on_flow sent lookup insert updated same_key
has_room e = absurd (cc)

closed_flow_example :
    let before = run same_port traffic (tcp_sendmsg same_port (context 10) socket 100 idle) in
    let end = tcp_done same_port (context 50) socket before in
    (entry same_port key end ≡ none)
    × ((ev : BpfFlowEvent) × (end.flow_events ≡ before.flow_events ++ (flow_event_size, ev) ∷ [])
        × (ev.bytes_sent ≡ (100 + total same_port key size_of traffic) % 2 ^ 64)
        × (ev.bytes_recv ≡ total same_port key copied_of traffic % 2 ^ 64)
        × (ev.start_ns ≡ 10)
        × (ev.state ≡ last_state same_port key 0 traffic)
        × (ev.saddr ≡ key.saddr)
        × (ev.daddr ≡ key.daddr)
        × (ev.sport ≡ key.sport)
        × (ev.dport ≡ key.dport))
closed_flow_example =
    closed_flow same_port idle (context 10) socket 100 traffic (context 50) socket key_family
      not_yet has_room (tt, (tt, (tt, tt))) same_flow

-- The run by the definitions: 150 bytes out, 24 in, and the state set last.
abbrev counts_of : List (ℕ × BpfFlowEvent) → List (ℕ × ℕ × ℕ)
counts_of [] = []
counts_of ((sz, ev) ∷ rest) = (ev.bytes_sent, ev.bytes_recv, ev.state) ∷ counts_of rest

counts_run :
    counts_of
      (tcp_done same_port
        (context 50)
        socket
        (run same_port traffic (tcp_sendmsg same_port (context 10) socket 100 idle))).flow_events
    ≡ (150, 24, 1) ∷ []
unfolding fill_flow_key tcp_sendmsg tcp_cleanup_rbuf tcp_set_state tcp_done on_flow sent received
    moved note_connect is_syn_sent to_u64 emit_flow lookup insert updated remove same_key
counts_run = refl

-- The same traffic without a send
abbrev unsent : List Call
unsent =
    set_state (context 20) socket (pos 2)
    ∷ cleanup_rbuf (context 40) socket (pos 24)
    ∷ done (context 50) socket
    ∷ []

unsent_flow_example :
    (entry same_port key (run same_port unsent idle) ≡ none)
    × (reported same_port key (run same_port unsent idle) ≡ [])
unfolding lookup
unsent_flow_example = unsent_flow same_port unsent key idle (tt, (tt, (tt, tt))) refl

abbrev no_processes : ProcessState (Table ℕ ProcInfo)
no_processes = record { processes = []; process_events = [] }

abbrev shell : ExecEvent
shell = record { parent_tgid = 1; data_loc_filename = 8; read_str = λ size offset. web }

abbrev traces : List Trace
traces = exec (context 10) shell ∷ exit (context 20) ∷ exec (context 30) shell ∷ []

abbrev readings : Readings
readings = record {
  text = record { loadavg = []; stat = []; meminfo = []; diskstats = []; net_dev = [] };
  processes = (trace traces no_processes).process_events;
  flows = [];
}

traced_example :
    (info : MonitorInfo ℤ) × ((push machine no_double dotted pusher readings quiet).0.1 ≡ some info)
    × ((get (set_monitor_info held (pos 9) info).0 info.hostname).proc_exec_count ≡ pos 2)
    × ((get (set_monitor_info held (pos 9) info).0 info.hostname).proc_exit_count ≡ pos 1)
traced_example =
    traced machine no_double dotted pusher traces no_processes readings quiet held (pos 9) refl refl
      refl refl refl

-- The worker that reads the one sample of the traffic.
abbrev flow_readings : Readings
flow_readings = record readings {
  processes = [];
  flows =
      (tcp_done same_port (context 50) socket
        (run same_port traffic (tcp_sendmsg same_port (context 10) socket 100 idle))).flow_events;
}

none_before :
    (run same_port traffic (tcp_sendmsg same_port (context 10) socket 100 idle)).flow_events ≡ []
unfolding fill_flow_key tcp_sendmsg tcp_cleanup_rbuf tcp_set_state on_flow note_connect is_syn_sent
    lookup insert updated same_key
none_before = refl

flow_counted_example :
    (info : MonitorInfo ℤ) × ((push machine no_double dotted pusher flow_readings quiet).0.1
      ≡ some info)
    × ((get (set_monitor_info held (pos 9) info).0 info.hostname).tcp_flow_count ≡ pos 1)
    × ((get (set_monitor_info held (pos 9) info).0 info.hostname).tcp_bytes_sent
        ≡ wrapped (100 + total same_port key size_of traffic))
    × ((get (set_monitor_info held (pos 9) info).0 info.hostname).tcp_bytes_recv
        ≡ wrapped (total same_port key copied_of traffic))
flow_counted_example =
    flow_counted machine no_double dotted same_port idle (context 10) socket 100 traffic
      (context 50) socket pusher flow_readings quiet held (pos 9) key_family not_yet has_room
      (tt, (tt, (tt, tt))) same_flow none_before refl refl refl refl
