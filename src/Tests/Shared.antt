-- ===== src/Tests/Shared.antt =====
-- A tool that ends while a message is being filled.
use perf_monitor.Prelude.{◌≡◌, refl, true, false, [], ◌∷◌, some}
use perf_monitor.Prelude.Int.{ℤ}
use perf_monitor.Double.Exact.{exact_double}
use perf_monitor.Worker.System.{System, World}
use perf_monitor.Worker.Runner.{is_running}
use perf_monitor.Worker.Perf.{PerfDiagnoser, reset, event_of}
use perf_monitor.Worker.Perf.Round.{round, scan, finish, emit_pending}
use perf_monitor.Worker.Perf.Shared.{
  State, started, marked, appended, turn, fill, clear, Reach, here, next,
}
use perf_monitor.Worker.Perf.Shared.Kept.{Kept, reached-Kept}
use perf_monitor.Tests.Manager.{web}
use perf_monitor.Tests.Worker.{machine, quiet}
use perf_monitor.Tests.Pusher.{perf}
use perf_monitor.Tests.Tools.{probe}

-- Every file has data.
abbrev writing : System
writing = record machine { stat_size = λ n path. some 3 }

abbrev busy : PerfDiagnoser ℤ
busy = record perf {
  target_processes = [];
  triggered_tags = web ∷ [];
  pending_ev = record perf.pending_ev { pending = true };
}

abbrev begun : State ℤ
begun = started busy quiet

abbrev filling : State ℤ
filling = record begun { filling = true; copied = [] }

abbrev after : PerfDiagnoser ℤ × World
after = round writing probe busy quiet

-- The loop records one event.
records : after.0.events ≡ event_of busy.pending_ev ∷ []
unfolding round finish emit_pending scan is_running
records = refl

abbrev turned : State ℤ
turned = record filling {
  perf = after.0;
  world = after.1;
  recorded = marked true (appended [] after.0.events);
}

turned-Reach : Reach writing probe begun turned
turned-Reach = next (next here (fill refl)) (turn after.0 after.1 refl)

abbrev lost : State ℤ
lost = record turned { filling = false; perf = reset after.0 }

reached-Kept_example : Kept writing probe lost
reached-Kept_example =
    reached-Kept writing probe busy quiet lost refl (next turned-Reach (clear refl))
