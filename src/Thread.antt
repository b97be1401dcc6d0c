-- ===== src/Thread.antt =====
-- The threads of the two programs, as the flag `running_` and the `std::thread` beside it:
-- `Start`, `Stop` and the destructor in manager/src/rpc/metrics_exporter.cpp, `Collect` and `Stop` in
-- worker/src/diagnose/perf_diagnoser.cpp. A thread that is assigned while it is joinable ends the
-- program.
use perf_monitor.Prelude.{
  ℕ, ◌+◌, ◌≡◌, refl, ap, Bool, true, false, ◌||◌, List, [], ◌∷◌, if◌then◌else◌, arith,
}

pub record Thread : Type 0 where
  pub running : Bool
  pub joinable : Bool
  pub started : ℕ
  pub joined : ℕ
  pub terminated : Bool

abbrev pub no_thread : Thread
no_thread = record {
  running = false;
  joinable = false;
  started = 0;
  joined = 0;
  terminated = false;
}

-- `running_ = true; thread_ = std::thread(...)`
unfoldable pub start : Thread → Thread
start t = record {
  running = true;
  joinable = true;
  started = t.started + 1;
  joined = t.joined;
  terminated = t.terminated || t.joinable;
}

-- `running_ = false; if (thread_.joinable()) thread_.join();`
unfoldable pub stop : Thread → Thread
stop t = record t {
  running = false;
  joinable = false;
  joined = t.joined + (if t.joinable then 1 else 0);
}

-- `if (!running_.exchange(true)) worker_ = std::thread(...)`
abbrev pub start_unless : Bool → Thread → Thread
start_unless true t = t
start_unless false t = start t

unfoldable pub collect : Thread → Thread
collect t = start_unless t.running t

-- The exporter's destructor stops once more.
unfoldable pub destroy : Thread → Thread
destroy t = stop t

pub data Call : Type 0 where
  collects stops : Call

abbrev pub step : Call → Thread → Thread
step collects t = collect t
step stops t = stop t

abbrev pub run : List Call → Thread → Thread
run [] t = t
run (c ∷ calls) t = run calls (step c t)

-- The flag says whether the thread can be joined; all that were started are joined but this one; and
-- the program was not ended.
pub record IsValid (t : Thread) : Type 0 where
  pub flag : t.joinable ≡ t.running
  pub balance : t.started ≡ t.joined + (if t.running then 1 else 0)
  pub alive : t.terminated ≡ false

start-IsValid : (t : Thread) → t.running ≡ false → IsValid t → IsValid (start t)
unfolding start
start-IsValid t idle h =
    let flag = h.flag in
    let balance = h.balance in
    let alive = h.alive in record { flag = refl; balance = ground arith; alive = ground arith }

start_unless-IsValid :
    (b : Bool) (t : Thread) → t.running ≡ b → IsValid t → IsValid (start_unless b t)
start_unless-IsValid true t on h = h
start_unless-IsValid false t off h = start-IsValid t off h

step-IsValid : (c : Call) (t : Thread) → IsValid t → IsValid (step c t)
unfolding collect stop
step-IsValid collects t h = start_unless-IsValid t.running t refl h
step-IsValid stops t h =
    let flag = h.flag in
    let balance = h.balance in record { flag = refl; balance = ground arith; alive = h.alive }

run-IsValid : (calls : List Call) (t : Thread) → IsValid t → IsValid (run calls t)
run-IsValid [] t h = h
run-IsValid (c ∷ calls) t h = run-IsValid calls (step c t) (step-IsValid c t h)

-- After any calls of Collect and Stop on a new perf diagnoser no running thread was overwritten,
-- every thread that was started is joined but the one that runs, and after a last Stop all are,
-- with nothing left to do for a further one.
pub threads-joined :
    (calls : List Call)
    → let t = run calls no_thread in
      IsValid t × ((stop t).joined ≡ (stop t).started) × (destroy (stop t) ≡ stop t)
unfolding stop destroy
threads-joined calls =
    let t = run calls no_thread in
    let h : IsValid t =
      run-IsValid calls no_thread (record { flag = refl; balance = refl; alive = refl }) in
    let flag = h.flag in
    let balance = h.balance in
    let none_left : (stop t).joined + 0 ≡ (stop t).joined = omega arith in
    (h, ground arith, ap (λ n. record (stop t) { joined = n }) none_left)
