-- ===== src/Host/Invariant.antt =====
-- What holds of the manager's map between two calls.
use perf_monitor.Prelude.{◌≤◌, ◌≡◌, refl, List, [], ◌∷◌, length}
use perf_monitor.Text.{Bytes}
use perf_monitor.Double.{Double, IsOrdered, ◌≼◌}
use perf_monitor.Table.{bytes_eq, IsMap, Entries, insert-Entries, erase_if-Entries}
use perf_monitor.Host.{HostSnapshot, Hosts, max_events, renewed, update, remove_expired}
use perf_monitor.Host.Tail.{length-keep_last}
use perf_monitor.Host.Health.{compute_health_bounds}
use perf_monitor.Host.Refinement.{Call, report, sweep, step, run, step-IsMap}

-- An entry stands under its own name, keeps few events and has a score in range.
pub record IsEntry {D : Type 0} ⦃d : Double D⦄ (name : Bytes) (snap : HostSnapshot D) : Type 0 where
  pub named : snap.hostname ≡ name
  pub few : length snap.diagnose_events ≤ max_events
  pub healthy : (d.of_ℕ 0 ≼ snap.health_score) × (snap.health_score ≼ d.of_ℕ 100)

pub record IsValid {D : Type 0} ⦃d : Double D⦄ (hosts : Hosts D) : Type 0 where
  pub distinct : IsMap hosts
  pub entries : Entries IsEntry hosts

module _ {D : Type 0} ⦃d : Double D⦄ (laws : IsOrdered D) where
  renewed-IsEntry :
      (previous snap : HostSnapshot D) (name : Bytes) → IsEntry name (renewed previous name snap)
  unfolding renewed
  renewed-IsEntry previous snap name = record {
    named = refl;
    few = length-keep_last max_events _;
    healthy = compute_health_bounds laws snap;
  }

  step-IsValid : (hosts : Hosts D) (c : Call D) → IsValid hosts → IsValid (step hosts c)
  unfolding step update remove_expired
  step-IsValid hosts (report name snap) v = record {
    distinct = step-IsMap hosts (report name snap) v.distinct;
    entries = insert-Entries IsEntry name _ hosts (renewed-IsEntry _ snap name) v.entries;
  }
  step-IsValid hosts (sweep now max_age) v = record {
    distinct = step-IsMap hosts (sweep now max_age) v.distinct;
    entries = erase_if-Entries IsEntry _ hosts v.entries;
  }

  run-IsValid : (hosts : Hosts D) (cs : List (Call D)) → IsValid hosts → IsValid (run hosts cs)
  unfolding run
  run-IsValid hosts [] v = v
  run-IsValid hosts (c ∷ cs) v = run-IsValid (step hosts c) cs (step-IsValid hosts c v)

  -- After any reports and sweeps from the empty map, no host stands twice, each entry stands under
  -- its own name, holds at most twenty diagnose events, and its health score is from 0 to 100.
  pub reached-IsValid : (cs : List (Call D)) → IsValid (run {D = D} [] cs)
  reached-IsValid cs = run-IsValid [] cs (record { distinct = tt; entries = tt })
