-- ===== src/Tests/Lifecycle.antt =====
-- A worker that is told to stop while a round is under way, and the pipeline.
use perf_monitor.Prelude.{◌≡◌, refl, true, false, Option, none, some, [], ◌∷◌, ◌++◌, arith}
use perf_monitor.Prelude.Int.{ℤ}
use perf_monitor.Text.{Bytes}
use perf_monitor.Text.Stream.{lines_onto}
use perf_monitor.Double.Exact.{exact_double}
use perf_monitor.Message.{MonitorInfo}
use perf_monitor.Exporter.Pipeline.{read_lines, run_pipeline, run_pipeline-whole}
use perf_monitor.Worker.System.{World}
use perf_monitor.Worker.Pusher.{MonitorPusher, do_push}
use perf_monitor.Worker.Pusher.Lifecycle.{
  State, pushing, sleeping, joining, looping, started, messages, Step, signal, leave, clear, enter,
  push, Reach, here, next,
}
use perf_monitor.Worker.Pusher.Lifecycle.Shutdown.{IsOrdered}
use perf_monitor.Worker.Pusher.Lifecycle.Late.{SentAtMost, stop-SentAtMost}
use perf_monitor.Tests.Worker.{machine, quiet}
use perf_monitor.Tests.Tools.{probe}
use perf_monitor.Tests.Pusher.{pusher, readings, no_double, dotted}

abbrev begun : State ℤ
begun = started pusher quiet

-- The flag is cleared in the middle of a round.
abbrev told : State ℤ
told = record begun { go = false; running = false; main = joining; loop = pushing }

told-Reach : Reach machine probe no_double dotted begun told
told-Reach = next (next (next (next here (enter refl refl)) signal) (leave refl refl)) (clear refl)

abbrev pushed : MonitorPusher ℤ × Option (MonitorInfo ℤ)
pushed = elim (do_push machine no_double dotted pusher readings quiet).0 [
  | none ↦ (pusher, none)
  | some r ↦ r
]

abbrev world : World
world = (do_push machine no_double dotted pusher readings quiet).1

pushed_lem : do_push machine no_double dotted pusher readings quiet ≡ (some pushed, world)
unfolding do_push lines_onto
pushed_lem = refl

abbrev slept : State ℤ
slept = record told {
  loop = sleeping;
  perf = looping;
  perf_running = true;
  worker = pushed.0;
  world = world;
  sent = [] ++ messages pushed.1;
}

last_push : Step machine probe no_double dotted told slept
last_push = push readings pushed.0 pushed.1 world refl pushed_lem

stop-SentAtMost_example : SentAtMost machine probe no_double dotted told slept × IsOrdered slept
stop-SentAtMost_example =
    stop-SentAtMost machine probe no_double dotted pusher quiet told slept told-Reach refl
      (next here last_push)

abbrev two_lines : Bytes
two_lines = b'a' ∷ b'\n' ∷ b'b' ∷ []

abbrev prints : Bytes → Option Bytes
prints cmd = some two_lines

run_pipeline-whole_example :
    (run_pipeline prints [] ≡ two_lines) × (read_lines 5 [] two_lines ≡ run_pipeline prints [])
run_pipeline-whole_example =
    run_pipeline-whole prints [] two_lines 5 refl (omega arith) (omega arith)
