-- ===== src/Worker/Pusher/Lifecycle.antt =====
-- The threads of the worker: `main` of worker/src/main.cpp with `MonitorPusher::Stop`, `push_loop` of
-- worker/src/rpc/monitor_pusher.cpp, and that of the perf diagnoser, interleaved in any order. A step
-- is what one thread does up to the next access to a shared flag; a call that does not return takes no
-- step, and nothing says that one is taken. A round of the perf diagnoser comes before or after one of
-- the push loop here, and within it in Perf/Shared.
pub mod Shutdown
pub mod Late
use perf_monitor.Prelude.{ℕ, ◌≡◌, Bool, true, false, List, [], ◌∷◌, ◌++◌, Option, none, some}
use perf_monitor.Text.Stream.{Stream}
use perf_monitor.Text.{Bytes}
use perf_monitor.Double.{Double}
use perf_monitor.Message.{MonitorInfo}
use perf_monitor.Worker.System.{System, World}
use perf_monitor.Worker.Pusher.{MonitorPusher, Readings, do_push}
use perf_monitor.Worker.Bpf.Cycle
use perf_monitor.Worker.Perf.{PerfDiagnoser, Probe}
use perf_monitor.Worker.Perf.Round.{round}
use perf_monitor.Worker.Pusher.Run.{stop_perf}

-- `push_loop`: before the test of `running_`, before `do_push`, in `sleep_for`, and at its end
pub data LoopAt : Type 0 where
  testing pushing sleeping ended : LoopAt

-- `main`: in the loop on `g_running`; in `Stop` before its first line, in `join`, behind it, and in the
-- `join` of `PerfDiagnoser::Stop`; and past it. An exception in the push loop ends the program.
pub data MainAt : Type 0 where
  waiting stopping joining joined perf_joining finished died : MainAt

-- The thread of the perf diagnoser: not started, in its loop, and at its end
pub data PerfAt : Type 0 where
  absent looping over : PerfAt

-- `PerfDiagnoser::Collect` starts it once.
abbrev pub collected : PerfAt → PerfAt
collected absent = looping
collected looping = looping
collected over = over

-- `worker_.joinable()` fails, or the thread has ended.
abbrev pub can_join : PerfAt → Bool
can_join absent = true
can_join looping = false
can_join over = true

pub record State (D : Type 0) : Type 0 where
  pub go : Bool
  pub running : Bool
  pub perf_running : Bool
  pub main : MainAt
  pub loop : LoopAt
  pub perf : PerfAt
  pub worker : MonitorPusher D
  pub world : World
  pub sent : List (MonitorInfo D)

-- The message of a round, if it has a connection
abbrev pub messages : {D : Type 0} → Option (MonitorInfo D) → List (MonitorInfo D)
messages none = []
messages (some info) = info ∷ []

-- `pusher.Run()` has returned.
abbrev pub started : {D : Type 0} → MonitorPusher D → World → State D
started worker world = record {
  go = true;
  running = true;
  perf_running = false;
  main = waiting;
  loop = testing;
  perf = absent;
  worker = worker;
  world = world;
  sent = [];
}

module _ {D : Type 0} ⦃d : Double D⦄ (os : System) (probe : Probe)
    (extract_double : D → Stream → D × Stream) (inet_ntop : ℕ → Bytes) where
  pub data Step (s : State D) : State D → Type 0 where
    -- `signal_handler`
    signal : Step s (record s { go = false })
    -- `while (g_running)`
    leave : s.main ≡ waiting → s.go ≡ false → Step s (record s { main = stopping })
    -- `running_ = false`
    clear : s.main ≡ stopping → Step s (record s { main = joining; running = false })
    join : s.main ≡ joining → s.loop ≡ ended → Step s (record s { main = joined })
    -- `Reset`, and the first line of `perf_diagnoser_.Stop`
    reset :
        s.main ≡ joined
        → Step s (record s {
          main = perf_joining;
          perf_running = false;
          worker = record s.worker { bpf_diagnoser = Cycle.reset s.worker.bpf_diagnoser };
        })
    -- the rest of it, once the thread can be joined
    stop :
        (perf : PerfDiagnoser D) (world : World)
        → s.main ≡ perf_joining
        → can_join s.perf ≡ true
        → stop_perf os s.worker.perf_diagnoser s.world ≡ (perf, world)
        → Step s (record s {
          main = finished;
          worker = record s.worker { perf_diagnoser = perf };
          world = world;
        })
    -- one round of `worker_loop`; and its end, at `while (running_)`
    scan :
        (perf : PerfDiagnoser D) (world : World)
        → s.perf ≡ looping
        → round os probe s.worker.perf_diagnoser s.world ≡ (perf, world)
        → Step s (record s { worker = record s.worker { perf_diagnoser = perf }; world = world })
    quit : s.perf ≡ looping → s.perf_running ≡ false → Step s (record s { perf = over })
    -- `while (running_)`
    enter : s.loop ≡ testing → s.running ≡ true → Step s (record s { loop = pushing })
    exit : s.loop ≡ testing → s.running ≡ false → Step s (record s { loop = ended })
    push :
        (readings : Readings) (worker : MonitorPusher D) (info : Option (MonitorInfo D))
        (world : World)
        → s.loop ≡ pushing
        → do_push os extract_double inet_ntop s.worker readings s.world
          ≡ (some (worker, info), world)
        → Step s (record s {
          loop = sleeping;
          perf = collected s.perf;
          perf_running = true;
          worker = worker;
          world = world;
          sent = s.sent ++ messages info;
        })
    throw :
        (readings : Readings) (world : World)
        → s.loop ≡ pushing
        → do_push os extract_double inet_ntop s.worker readings s.world ≡ (none, world)
        → Step s (record s { main = died; loop = ended; world = world })
    wake : s.loop ≡ sleeping → Step s (record s { loop = testing })

  pub data Reach (s : State D) : State D → Type 0 where
    here : Reach s s
    next : {t u : State D} → Reach s t → Step t u → Reach s u
