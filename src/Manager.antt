-- ===== src/Manager.antt =====
-- The running manager: `main` of manager/src/main.cpp from the start of its servers on, the calls of
-- gRPC and the thread of the exporter, interleaved in any order. A step is one call that takes the
-- host manager's mutex, or one access to a flag.
pub mod Presence
use perf_monitor.Prelude.{ℕ, ◌≡◌, Bool, true, false, Option, List, [], ◌∷◌, ◌++◌}
use perf_monitor.Prelude.Int.{ℤ, ◌≤ℤ◌}
use perf_monitor.Text.{Bytes}
use perf_monitor.Double.{Double}
use perf_monitor.Message.{MonitorInfo}
use perf_monitor.Host.{Hosts, remove_expired}
use perf_monitor.Rpc.{set_monitor_info}
use perf_monitor.Exporter.Server.{Act, Turn, turn}
use perf_monitor.Program.{max_age}

-- `main`: at the test of `g_running`, in `sleep_for`, in `exporter.Stop` before its first line and in
-- `join`, and behind it
pub data MainAt : Type 0 where
  testing sleeping stopping joining over : MainAt

-- `clock` is when the last sweep was; `reports` has the host of every report so far with the time that
-- `SetMonitorInfo` took for it, newest first.
pub record State (D : Type 0) : Type 0 where
  pub go : Bool
  pub main : MainAt
  pub exporting : Bool
  pub serving : Bool
  pub hosts : Hosts D
  pub acts : List Act
  pub clock : ℤ
  pub reports : List (Bytes × ℤ)

module _ {D : Type 0} where
  abbrev pub started : ℤ → State D
  started clock = record {
    go = true;
    main = testing;
    exporting = true;
    serving = true;
    hosts = [];
    acts = [];
    clock = clock;
    reports = [];
  }

module _ {D : Type 0} ⦃d : Double D⦄ (stat : Bytes → Option ℕ) (run_pipeline : Bytes → Bytes) where
  pub data Step (s : State D) : State D → Type 0 where
    -- `signal_handler`
    signal : Step s (record s { go = false })
    -- `SetMonitorInfo`
    report :
        (now : ℤ) (request : MonitorInfo D)
        → Step s (record s {
          hosts = (set_monitor_info s.hosts now request).0;
          reports = (request.hostname, now) ∷ s.reports;
        })
    -- `while (g_running)`
    sleep : s.main ≡ testing → s.go ≡ true → Step s (record s { main = sleeping })
    leave : s.main ≡ testing → s.go ≡ false → Step s (record s { main = stopping })
    -- `host_mgr.RemoveExpired(60)`; the time does not fall.
    sweep :
        (now : ℤ)
        → s.main ≡ sleeping
        → s.clock ≤ℤ now
        → Step s
            (record s { main = testing; hosts = remove_expired s.hosts now max_age; clock = now })
    -- `exporter.Stop()`
    clear : s.main ≡ stopping → Step s (record s { main = joining; exporting = false })
    join : s.main ≡ joining → s.serving ≡ false → Step s (record s { main = over })
    -- One turn of `serve_loop`, and its end
    answer :
        (select accept : ℤ) (bytes : Bytes)
        → s.serving ≡ true
        → Step s (record s {
          acts =
              s.acts
              ++ turn stat run_pipeline
                  (record { select = select; accept = accept; bytes = bytes; hosts = s.hosts });
        })
    end_loop : s.serving ≡ true → s.exporting ≡ false → Step s (record s { serving = false })

  pub data Reach (s : State D) : State D → Type 0 where
    here : Reach s s
    next : {t u : State D} → Reach s t → Step t u → Reach s u
