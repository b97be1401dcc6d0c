-- ===== src/Worker/Perf/Shared.antt =====
-- The list of events that two threads of the worker share: `worker_loop` of
-- worker/src/diagnose/perf_diagnoser.cpp appends to it, and `do_push` of
-- worker/src/rpc/monitor_pusher.cpp copies it into a message and clears it, with no lock. A step is
-- one access of one thread, taken as a whole; a round of the loop has one, and the rest of it touches
-- nothing that the other thread uses.
pub mod Kept
use perf_monitor.Prelude.{ℕ, ◌≡◌, Bool, true, false, List, [], ◌∷◌, ◌++◌, map, length, drop}
use perf_monitor.Double.{Double}
use perf_monitor.Message.{DiagnoseEvent}
use perf_monitor.Worker.System.{System, World}
use perf_monitor.Worker.Event.{CppDiagnoseEvent}
use perf_monitor.Worker.Perf.{PerfDiagnoser, Probe, reset}
use perf_monitor.Worker.Perf.Round.{round}
use perf_monitor.Worker.Pusher.{event_message}

-- `filling`: `do_push` has copied the events and not yet cleared them. `copied` has the events of all
-- messages so far, and `recorded` those that the loop appended, with the value of `filling` then.
pub record State (D : Type 0) : Type 0 where
  pub perf : PerfDiagnoser D
  pub world : World
  pub filling : Bool
  pub copied : List (DiagnoseEvent D)
  pub recorded : List (Bool × CppDiagnoseEvent D)

abbrev pub started : {D : Type 0} → PerfDiagnoser D → World → State D
started perf world = record {
  perf = perf;
  world = world;
  filling = false;
  copied = [];
  recorded = [];
}

abbrev pub marked :
    {D : Type 0} → Bool → List (CppDiagnoseEvent D) → List (Bool × CppDiagnoseEvent D)
marked late events = map (λ ev. (late, ev)) events

-- What the second list has behind the length of the first
abbrev pub appended :
    {D : Type 0} → List (CppDiagnoseEvent D) → List (CppDiagnoseEvent D) → List (CppDiagnoseEvent D)
appended before after = drop (length before) after

module _ {D : Type 0} ⦃d : Double D⦄ (os : System) (probe : Probe) where
  pub data Step (s : State D) : State D → Type 0 where
    -- one round of `worker_loop`
    turn :
        (perf : PerfDiagnoser D) (world : World)
        → round os probe s.perf s.world ≡ (perf, world)
        → Step s (record s {
          perf = perf;
          world = world;
          recorded = s.recorded ++ marked s.filling (appended s.perf.events perf.events);
        })
    -- `for (auto& ev : perf_diagnoser_.events)`
    fill :
        s.filling ≡ false
        → Step s (record s { filling = true; copied = s.copied ++ map event_message s.perf.events })
    -- `perf_diagnoser_.Reset()`
    clear : s.filling ≡ true → Step s (record s { filling = false; perf = reset s.perf })

  pub data Reach (s : State D) : State D → Type 0 where
    here : Reach s s
    next : {t u : State D} → Reach s t → Step t u → Reach s u
