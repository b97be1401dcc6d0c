-- ===== src/Worker/Observe.antt =====
-- worker/src/observe/observe_collector.cpp, its header, and worker/src/ebpf/observe_events.h: the
-- events that the kernel side sends. Setup has how the programs are loaded, Kernel the programs;
-- `inet_ntop` is an argument. A sample is its size and the struct that stands at its start.
pub mod Setup
use perf_monitor.Prelude.{ℕ, List, [], ◌∷◌, ◌++◌, ◌==◌, if◌then◌else◌, take, ltb}
use perf_monitor.Prelude.Int.{ℤ, to_i64}
use perf_monitor.Text.{Bytes, codes, until_nul}

abbrev pub max_comm_len : ℕ
max_comm_len = 16

abbrev pub max_filename_len : ℕ
max_filename_len = 128

-- `struct process_event`
pub record BpfProcessEvent : Type 0 where
  pub pid : ℕ
  pub ppid : ℕ
  pub comm : Bytes
  pub filename : Bytes
  pub event_type : ℕ
  pub ts_ns : ℕ

-- `struct flow_event`; of an address the code reads the first word.
pub record BpfFlowEvent : Type 0 where
  pub pid : ℕ
  pub comm : Bytes
  pub ppid_comm : Bytes
  pub exe : Bytes
  pub saddr : ℕ
  pub daddr : ℕ
  pub sport : ℕ
  pub dport : ℕ
  pub family : ℕ
  pub protocol : ℕ
  pub state : ℕ
  pub bytes_sent : ℕ
  pub bytes_recv : ℕ
  pub connect_latency_ns : ℕ
  pub start_ns : ℕ
  pub last_ns : ℕ

pub record CppProcessEvent : Type 0 where
  pub comm : Bytes
  pub pid : ℕ
  pub ppid : ℕ
  pub filename : Bytes
  pub event : Bytes
  pub ts_ns : ℤ

pub record CppFlowEvent : Type 0 where
  pub pid : ℕ
  pub comm : Bytes
  pub ppid_comm : Bytes
  pub exe : Bytes
  pub src_ip : Bytes
  pub dst_ip : Bytes
  pub src_port : ℕ
  pub dst_port : ℕ
  pub bytes_sent : ℕ
  pub bytes_recv : ℕ
  pub connect_latency_ns : ℕ
  pub state : Bytes
  pub start_ns : ℕ
  pub last_ns : ℕ

pub record ObserveCollector : Type 0 where
  pub process_events : List CppProcessEvent
  pub flow_events : List CppFlowEvent

unfoldable pub bpf_state_str : ℕ → Bytes
bpf_state_str state =
    if state == 1
    then codes "ESTABLISHED"
    else if state == 2
    then codes "SYN_SENT"
    else if state == 3
    then codes "SYN_RECV"
    else if state == 4
    then codes "FIN_WAIT1"
    else if state == 5
    then codes "FIN_WAIT2"
    else if state == 6
    then codes "TIME_WAIT"
    else if state == 7
    then codes "CLOSE"
    else if state == 8
    then codes "CLOSE_WAIT"
    else if state == 9
    then codes "LAST_ACK"
    else if state == 10
    then codes "LISTEN"
    else if state == 11
    then codes "CLOSING"
    else codes "UNKNOWN"

-- `std::string(s, strnlen(s, len))`
abbrev pub text_of : ℕ → Bytes → Bytes
text_of len s = until_nul (take len s)

unfoldable pub bpf_to_process : BpfProcessEvent → CppProcessEvent
bpf_to_process raw = record {
  pid = raw.pid;
  ppid = raw.ppid;
  comm = text_of max_comm_len raw.comm;
  filename = text_of max_filename_len raw.filename;
  event = if raw.event_type == 0 then codes "exec" else codes "exit";
  ts_ns = to_i64 raw.ts_ns;
}

unfoldable pub bpf_to_flow : (ℕ → Bytes) → BpfFlowEvent → CppFlowEvent
unfolding bpf_state_str
bpf_to_flow inet_ntop raw = record {
  pid = raw.pid;
  comm = text_of max_comm_len raw.comm;
  ppid_comm = text_of max_comm_len raw.ppid_comm;
  exe = text_of max_filename_len raw.exe;
  src_port = raw.sport;
  dst_port = raw.dport;
  src_ip = inet_ntop raw.saddr;
  dst_ip = inet_ntop raw.daddr;
  bytes_sent = raw.bytes_sent;
  bytes_recv = raw.bytes_recv;
  connect_latency_ns = raw.connect_latency_ns;
  state = bpf_state_str raw.state;
  start_ns = raw.start_ns;
  last_ns = raw.last_ns;
}

-- `sizeof` of the two structs, whose 64-bit members are aligned to eight bytes
abbrev pub process_event_size : ℕ
process_event_size = 168

abbrev pub flow_event_size : ℕ
flow_event_size = 248

unfoldable pub on_process_event : ObserveCollector → ℕ × BpfProcessEvent → ObserveCollector
unfolding bpf_to_process
on_process_event self (sz, raw) =
    if ltb sz process_event_size
    then self
    else record self { process_events = self.process_events ++ bpf_to_process raw ∷ [] }

unfoldable pub on_flow_event : (ℕ → Bytes) → ObserveCollector → ℕ × BpfFlowEvent → ObserveCollector
unfolding bpf_to_flow
on_flow_event inet_ntop self (sz, raw) =
    if ltb sz flow_event_size
    then self
    else record self { flow_events = self.flow_events ++ bpf_to_flow inet_ntop raw ∷ [] }

-- `perf_buffer__poll` calls back for every sample that waits, in order.
unfoldable pub poll_processes : ObserveCollector → List (ℕ × BpfProcessEvent) → ObserveCollector
unfolding on_process_event
poll_processes self [] = self
poll_processes self (sample ∷ rest) = poll_processes (on_process_event self sample) rest

unfoldable pub poll_flows :
    (ℕ → Bytes) → ObserveCollector → List (ℕ × BpfFlowEvent) → ObserveCollector
unfolding on_flow_event
poll_flows inet_ntop self [] = self
poll_flows inet_ntop self (sample ∷ rest) =
    poll_flows inet_ntop (on_flow_event inet_ntop self sample) rest

unfoldable pub collect :
    (ℕ → Bytes)
    → ObserveCollector
    → List (ℕ × BpfProcessEvent)
    → List (ℕ × BpfFlowEvent)
    → ObserveCollector
unfolding poll_processes poll_flows
collect inet_ntop self processes flows = poll_flows inet_ntop (poll_processes self processes) flows

unfoldable pub reset : ObserveCollector → ObserveCollector
reset self = record self { process_events = []; flow_events = [] }
