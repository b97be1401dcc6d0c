-- ===== src/Lib.antt =====
-- PerfMonitor: workers that watch their hosts and report to a manager, which keeps the latest state
-- of each host and serves it to Prometheus and to a web page.
--
-- The parts, from the worker's end. A worker's `MonitorPusher` runs in rounds: it reads the metrics
-- of the host from /proc, drains the events of two kernel programs, polls the tools that diagnose
-- single processes, and sends all of it in one message. The manager's gRPC server turns a message
-- into a snapshot and gives it to the host manager, which a sweep rids of hosts that went silent.
-- The metrics exporter answers HTTP requests from what the host manager holds.
--
-- Shared modules:
--   Prelude, Prelude/Tests, Lists, Int   names, Boolean tests, lists over the native numbers,
--     integers and their 64-bit conversions
--   Text, Text/Search, Decimal, Stream   std::string as bytes, std::to_string, std::getline and the
--     extraction of numbers and words from a stream
--   Double, Double/Exact   double as an interface with the laws of IEEE 754 that are used, and
--     whole numbers as a value of it
--   Table   std::unordered_map and std::map as association lists
--   Tests   runs at concrete values
--
-- The manager:
--   Host   manager/src/host_manager.cpp: `update`, `get`, `get_all`, `remove_expired` and
--     `compute_health` are Update, Get, GetAll, RemoveExpired and ComputeHealth. The mutex makes
--     each call one step. Host/Refinement has the calls as a data type, their runs, and what they are
--     to keep.
--   Message   proto/*.proto
--   Rpc   manager/src/rpc/grpc_server.cpp: `set_monitor_info` and `get_monitor_info`
--   Exporter   manager/src/rpc/metrics_exporter.cpp: Query, Filename, Flamegraph, Pipeline,
--     Events and Metrics are its functions; Server is serve_loop, and Request what it does with one
--     connection (Parsing is about the request, Framing about the response).
--   Program   manager/src/main.cpp and worker/src/main.cpp: the arguments
--   Manager   the rest of manager/src/main.cpp: the sweeps, gRPC's calls, the exporter's thread and
--     the signals as a step relation. Manager/Presence is about the hosts.
--   Thread   Start and Stop of manager/src/rpc/metrics_exporter.cpp, Collect and Stop of
--     worker/src/diagnose/perf_diagnoser.cpp, as far as they start and join threads
--
-- The worker:
--   Worker/Monitor   worker/src/monitor/*.cpp: CpuStat, Net, Disk, Mem, Load (load averages and the
--     host's names) and Collector. Percent, Shares, Rates, DiskRates and Rounds are about what is
--     collected.
--   Worker/Kernel   worker/src/ebpf/*.bpf.c: Flow and Process are the programs, Calls and Traced
--     their runs; Tracked, Lifetime, Report and Silent are about the flows
--   Worker/Observe   worker/src/observe/observe_collector.cpp; Observe/Setup is Init and ~Impl
--   Worker/Runner, Child   worker/src/diagnose/cmd_runner.cpp: the parent and the child
--   Worker/Directories   Init of bpf_diagnoser.cpp and perf_diagnoser.cpp
--   Worker/ReadFile   worker/src/utils/read_file.cpp
--   Worker/Proc, Files, Bpf   worker/src/diagnose/bpf_diagnoser.cpp: the lookup of a process by its
--     name, the rotation of output files, the tools and their cycle
--   Worker/Perf   worker/src/diagnose/perf_diagnoser.cpp: one round of the thread's loop. Perf/Shared
--     interleaves the rounds with what do_push does to the events.
--   Worker/Config   worker/include/config/config_manager.h, and in Load, Steps and Loaded
--     worker/src/config/config_manager.cpp
--   Worker/Pusher   worker/src/rpc/monitor_pusher.cpp: the message and the round, and in
--     Pusher/Start, Run and Ready what `Run` does. Pusher/Lifecycle is `push_loop`, `Stop`, the
--     perf diagnoser's thread and the end of worker/src/main.cpp as a step relation; Shutdown and
--     Late are about the order in which it ends. Delivered and Scraped follow a round to the manager
--     and to the page of the exporter.
--   Worker/System   the operating system: its answers are functions of the number of the calls made
--     before, and what is done to other processes is a list of acts.
--
-- The benchmark:
--   Bench   benchmarks/manager_fake_worker.cpp: its arguments; Bench/Report is make_report, Threads
--     run_thread and the threads of main, Summary percentile and main. Delivered joins it to the
--     manager.
--
-- Numbers: counters of 32 and 64 bits are natural numbers, and what the source computes with them
-- keeps its wrap-around at 2^64 or 2^32. Three definitions run on fuel: `to_string_ℕ`, which has more
-- than the number has digits; `strided`, the loop over every n-th fake worker, which has as much as
-- there are workers; and `read_lines`, which has as much as there are bytes to read. Every other loop of the
-- source that is modelled runs over a list, or is a step of a relation.
--
-- What is not under the repository is a parameter: the helpers and hash maps of the kernel, libbpf,
-- nlohmann::json, getopt_long, std::stoi, mkdir and unlink, the sockets and the processes of the
-- system.
--
-- Not modelled: the interleaving of kernel programs on several processors, whether a call without a
-- deadline returns, what a data race may do
-- besides losing an event, the wire formats of gRPC, output on the terminal but for the benchmark's
-- summary, and the scripts.
pub mod Prelude
pub mod Text
pub mod Double
pub mod Table
pub mod Host
pub mod Message
pub mod Rpc
pub mod Exporter
pub mod Worker
pub mod Program
pub mod Manager
pub mod Thread
pub mod Bench
pub mod Tests
