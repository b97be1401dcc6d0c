-- ===== src/Worker/Pusher/Lifecycle/Shutdown.antt =====
-- In which order the worker ends.
use perf_monitor.Prelude.{ℕ, ◌≡◌, refl, ap, Bool, true, false}
use perf_monitor.Text.Stream.{Stream}
use perf_monitor.Text.{Bytes}
use perf_monitor.Double.{Double}
use perf_monitor.Worker.System.{System, World}
use perf_monitor.Worker.Perf.{Probe}
use perf_monitor.Worker.Pusher.{MonitorPusher}
use perf_monitor.Worker.Pusher.Lifecycle.{
  ended, MainAt, waiting, stopping, joining, joined, perf_joining, finished, died, State, started,
  Step, signal, leave, clear, join, reset, stop, scan, quit, enter, exit, push, throw, wake, Reach,
  here, next,
}

-- `Stop` was called; has cleared the flag; has joined the thread, or the program is dead.
abbrev pub has_left : MainAt → Bool
has_left waiting = false
has_left stopping = true
has_left joining = true
has_left joined = true
has_left perf_joining = true
has_left finished = true
has_left died = false

abbrev pub has_cleared : MainAt → Bool
has_cleared waiting = false
has_cleared stopping = false
has_cleared joining = true
has_cleared joined = true
has_cleared perf_joining = true
has_cleared finished = true
has_cleared died = false

abbrev pub has_joined : MainAt → Bool
has_joined waiting = false
has_joined stopping = false
has_joined joining = false
has_joined joined = true
has_joined perf_joining = true
has_joined finished = true
has_joined died = true

pub record IsOrdered {D : Type 0} (s : State D) : Type 0 where
  pub left : has_left s.main ≡ true → s.go ≡ false
  pub cleared : has_cleared s.main ≡ true → s.running ≡ false
  pub joined : has_joined s.main ≡ true → s.loop ≡ ended
  pub off : s.running ≡ false → s.go ≡ false

pub started-IsOrdered :
    {D : Type 0} (worker : MonitorPusher D) (world : World) → IsOrdered (started worker world)
started-IsOrdered worker world = record {
  left = λ e. absurd (cc);
  cleared = λ e. absurd (cc);
  joined = λ e. absurd (cc);
  off = λ e. absurd (cc);
}

module _ {D : Type 0} ⦃d : Double D⦄ {os : System} {probe : Probe}
    {extract_double : D → Stream → D × Stream} {inet_ntop : ℕ → Bytes} where
  Step-IsOrdered :
      {s t : State D} → Step os probe extract_double inet_ntop s t → IsOrdered s → IsOrdered t
  Step-IsOrdered signal h = record {
    left = λ e. refl;
    cleared = h.cleared;
    joined = h.joined;
    off = λ e. refl;
  }
  Step-IsOrdered (leave at off) h = record {
    left = λ e. off;
    cleared = λ e. absurd (cc);
    joined = λ e. absurd (cc);
    off = h.off;
  }
  Step-IsOrdered (clear at) h = record {
    left = λ e. h.left (ap has_left at);
    cleared = λ e. refl;
    joined = λ e. absurd (cc);
    off = λ e. h.left (ap has_left at);
  }
  Step-IsOrdered (join at over) h = record {
    left = λ e. h.left (ap has_left at);
    cleared = λ e. h.cleared (ap has_cleared at);
    joined = λ e. over;
    off = h.off;
  }
  Step-IsOrdered (reset at) h = record {
    left = λ e. h.left (ap has_left at);
    cleared = λ e. h.cleared (ap has_cleared at);
    joined = λ e. h.joined (ap has_joined at);
    off = h.off;
  }
  Step-IsOrdered (stop perf world at ends e) h = record {
    left = λ e. h.left (ap has_left at);
    cleared = λ e. h.cleared (ap has_cleared at);
    joined = λ e. h.joined (ap has_joined at);
    off = h.off;
  }
  Step-IsOrdered (scan perf world at e) h = record {
    left = h.left;
    cleared = h.cleared;
    joined = h.joined;
    off = h.off;
  }
  Step-IsOrdered (quit at e) h = record {
    left = h.left;
    cleared = h.cleared;
    joined = h.joined;
    off = h.off;
  }
  Step-IsOrdered (enter at on) h = record {
    left = h.left;
    cleared = h.cleared;
    joined = λ e. absurd (cc (h.joined e));
    off = h.off;
  }
  Step-IsOrdered (exit at off) h = record {
    left = h.left;
    cleared = h.cleared;
    joined = λ e. refl;
    off = h.off;
  }
  Step-IsOrdered (push readings worker info world at e) h = record {
    left = h.left;
    cleared = h.cleared;
    joined = λ e. absurd (cc (h.joined e));
    off = h.off;
  }
  Step-IsOrdered (throw readings world at e) h = record {
    left = λ e. absurd (cc);
    cleared = λ e. absurd (cc);
    joined = λ e. refl;
    off = h.off;
  }
  Step-IsOrdered (wake at) h = record {
    left = h.left;
    cleared = h.cleared;
    joined = λ e. absurd (cc (h.joined e));
    off = h.off;
  }

  pub Reach-IsOrdered :
      {s t : State D} → IsOrdered s → Reach os probe extract_double inet_ntop s t → IsOrdered t
  Reach-IsOrdered h here = h
  Reach-IsOrdered h (next r st) = Step-IsOrdered st (Reach-IsOrdered h r)
