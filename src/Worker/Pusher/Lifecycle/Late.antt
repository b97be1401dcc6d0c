-- ===== src/Worker/Pusher/Lifecycle/Late.antt =====
-- What the worker still sends when it is told to stop.
use perf_monitor.Prelude.{
  ℕ, ◌+◌, ◌≤◌, ◌≡◌, refl, ap, sym, ◌∙◌, false, List, [], ◌++◌, Option, none, some, arith, length,
  length-append, append_assoc, append-nil,
}
use perf_monitor.Text.Stream.{Stream}
use perf_monitor.Text.{Bytes}
use perf_monitor.Double.{Double}
use perf_monitor.Message.{MonitorInfo}
use perf_monitor.Worker.System.{System, World}
use perf_monitor.Worker.Perf.{Probe}
use perf_monitor.Worker.Pusher.{MonitorPusher}
use perf_monitor.Worker.Pusher.Lifecycle.{
  LoopAt, testing, pushing, sleeping, ended, State, messages, started, Step, signal, leave, clear,
  join, reset, stop, scan, quit, enter, exit, push, throw, wake, Reach, here, next,
}
use perf_monitor.Worker.Pusher.Lifecycle.Shutdown.{IsOrdered, Reach-IsOrdered, started-IsOrdered}

-- The round that is under way
abbrev pub under_way : LoopAt → ℕ
under_way pushing = 1
under_way testing = 0
under_way sleeping = 0
under_way ended = 0

module _ {D : Type 0} ⦃d : Double D⦄ (os : System) (probe : Probe)
    (extract_double : D → Stream → D × Stream) (inet_ntop : ℕ → Bytes) where
  -- What was sent since, with what may come
  abbrev pub SentAtMost : State D → State D → Type 0
  SentAtMost s t =
      (late : List (MonitorInfo D)) × (t.sent ≡ s.sent ++ late)
      × (length late + under_way t.loop ≤ under_way s.loop)

  length-messages : (info : Option (MonitorInfo D)) → length (messages info) ≤ 1
  length-messages none = omega arith
  length-messages (some info) = omega arith

  Step-running :
      {s t : State D}
      → Step os probe extract_double inet_ntop s t
      → s.running ≡ false
      → t.running ≡ false
  Step-running signal off = off
  Step-running (leave at e) off = off
  Step-running (clear at) off = refl
  Step-running (join at over) off = off
  Step-running (reset at) off = off
  Step-running (stop perf world at ends e) off = off
  Step-running (scan perf world at e) off = off
  Step-running (quit at e) off = off
  Step-running (enter at on) off = off
  Step-running (exit at e) off = off
  Step-running (push readings worker info world at e) off = off
  Step-running (throw readings world at e) off = off
  Step-running (wake at) off = off

  Step-SentAtMost :
      (s : State D) {t u : State D}
      → Step os probe extract_double inet_ntop t u
      → t.running ≡ false
      → SentAtMost s t
      → SentAtMost s u
  Step-SentAtMost s signal off h = h
  Step-SentAtMost s (leave at e) off h = h
  Step-SentAtMost s (clear at) off h = h
  Step-SentAtMost s (join at over) off h = h
  Step-SentAtMost s (reset at) off h = h
  Step-SentAtMost s (stop perf world at ends e) off h = h
  Step-SentAtMost s (scan perf world at e) off h = h
  Step-SentAtMost s (quit at e) off h = h
  Step-SentAtMost s (enter at on) off h = absurd (cc)
  Step-SentAtMost s (exit at e) off (late, sent, few) = (late, sent, ground (arith, at))
  Step-SentAtMost s {t} (push readings worker info world at e) off (late, sent, few) = (
    late ++ messages info,
    ap (λ l. l ++ messages info) sent ∙ append_assoc s.sent late (messages info),
    omega (arith, length-append late (messages info), length-messages info, ap under_way at),
  )
  Step-SentAtMost s (throw readings world at e) off (late, sent, few) =
      (late, sent, ground (arith, at))
  Step-SentAtMost s (wake at) off (late, sent, few) = (late, sent, ground (arith, at))

  Reach-SentAtMost :
      {s t : State D}
      → Reach os probe extract_double inet_ntop s t
      → s.running ≡ false
      → (t.running ≡ false) × SentAtMost s t
  Reach-SentAtMost {s} here off = (off, ([], sym (append-nil s.sent), omega arith))
  Reach-SentAtMost {s} (next r st) off =
      let (still, sent) = Reach-SentAtMost r off in
      (Step-running st still, Step-SentAtMost s st still sent)

  Reach-append :
      {r s t : State D}
      → Reach os probe extract_double inet_ntop r s
      → Reach os probe extract_double inet_ntop s t
      → Reach os probe extract_double inet_ntop r t
  Reach-append a here = a
  Reach-append a (next b st) = next (Reach-append a b) st

  -- From the moment on when the flag is cleared, whatever the threads do, the worker sends at most one
  -- more message, and only if a round was under way then; and the diagnosers are reset only after
  -- the thread has ended, so that no message follows.
  pub stop-SentAtMost :
      (worker : MonitorPusher D) (world : World) (s t : State D)
      → Reach os probe extract_double inet_ntop (started worker world) s
      → s.running ≡ false
      → Reach os probe extract_double inet_ntop s t
      → SentAtMost s t × IsOrdered t
  stop-SentAtMost worker world s t r off later = (
    (Reach-SentAtMost later off).1,
    Reach-IsOrdered (started-IsOrdered worker world) (Reach-append r later),
  )
