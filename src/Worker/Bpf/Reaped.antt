-- ===== src/Worker/Bpf/Reaped.antt =====
-- What reaping a finished tool does to the others.
use perf_monitor.Prelude.{
  ℕ, suc, ◌+◌, ◌≡◌, ◌∙◌, ap, refl, true, false, arith, List, [], ◌∷◌, ◌++◌, append_assoc,
  append-nil, All, All-append, sym, Bool-cases, inl, inr, leb,
}
use perf_monitor.Prelude.Int.{pos, negsuc}
use perf_monitor.Double.{Double}
use perf_monitor.Worker.System.{System, World, sigterm, ask}
use perf_monitor.Worker.Runner.{CmdRunner, eq_ℤ, is_running}
use perf_monitor.Worker.Event.{CppDiagnoseEvent}
use perf_monitor.Worker.Bpf.{RunnerEntry, BpfDiagnoser}
use perf_monitor.Worker.Bpf.Launch.{destroy-acts}
use perf_monitor.Worker.Bpf.Cycle.{last_runner, has_data, emit, reap_one, reap, clean}

-- A runner whose process has ended.
abbrev pub finished : CmdRunner → CmdRunner
finished runner = record runner { pid = negsuc 0 }

suc_not_leb : (q : ℕ) → leb (suc q + 0) 0 ≡ false
suc_not_leb q = ground arith

eq_same : (q : ℕ) → eq_ℤ (pos (suc q)) (pos (suc q)) ≡ true
eq_same q = ground arith

is_running-finished :
    (os : System) (runner : CmdRunner) (w : World) (q : ℕ)
    → runner.pid ≡ pos (suc q)
    → os.waitpid w.calls (pos (suc q)) ≡ pos (suc q)
    → is_running os runner w ≡ ((false, finished runner), record w { calls = w.calls + 1 })
unfolding is_running ask
is_running-finished os runner w q e ended = rw (e, suc_not_leb q, ended, eq_same q) refl

eq_zero : (q : ℕ) → eq_ℤ (pos 0) (pos (suc q)) ≡ false
eq_zero q = ground arith

is_running-alive :
    (os : System) (runner : CmdRunner) (w : World) (q : ℕ)
    → runner.pid ≡ pos (suc q)
    → os.waitpid w.calls (pos (suc q)) ≡ pos 0
    → is_running os runner w ≡ ((true, runner), record w { calls = w.calls + 1 })
unfolding is_running ask
is_running-alive os runner w q e runs = rw (e, suc_not_leb q, runs, eq_zero q) refl

module _ {D : Type 0} ⦃d : Double D⦄ (os : System) where
  emit-acts :
      (self : BpfDiagnoser D) (ev : CppDiagnoseEvent D) (w : World)
      → (emit os self ev w).1.acts ≡ w.acts
  unfolding emit ask clean
  emit-acts self ev w = elim (Bool-cases (has_data (os.stat_size w.calls ev.file_path))) [
    | inl full ↦ rw full refl
    | inr empty ↦ rw empty refl
  ]

  -- The entry of a tool that has ended is taken out.
  reap_one-ended :
      (self : BpfDiagnoser D) (done : List (RunnerEntry D)) (e : RunnerEntry D)
      (rest : List (RunnerEntry D)) (w : World) (q p : ℕ)
      → e.runner.pid ≡ pos (suc q)
      → os.waitpid w.calls (pos (suc q)) ≡ pos (suc q)
      → (last_runner (finished e.runner) rest).pid ≡ pos (suc p)
      → let (result, after) = reap_one os self done e rest w in
        (result.1 ≡ done) × (after.acts ≡ sigterm (pos (suc p)) ∷ w.acts)
  unfolding reap_one
  reap_one-ended self done e rest w q p started ended alive =
      rw (is_running-finished os e.runner w q started ended) (
        refl,
        destroy-acts os _ _ p alive
            ∙ ap (◌∷◌ (sigterm (pos (suc p))))
                (emit-acts self e.pending_ev (record w { calls = w.calls + 1 })),
      )

  -- The process of an entry runs on, whenever it is asked for.
  abbrev pub RunsOn : RunnerEntry D → Type 0
  RunsOn e = (k : ℕ) × (e.runner.pid ≡ pos (suc k)) × ((n : ℕ) → os.waitpid n (pos (suc k)) ≡ pos 0)

  reap_one-alive :
      (self : BpfDiagnoser D) (done : List (RunnerEntry D)) (e : RunnerEntry D)
      (rest : List (RunnerEntry D)) (w : World)
      → RunsOn e
      → reap_one os self done e rest w ≡ ((self, done ++ e ∷ []), record w { calls = w.calls + 1 })
  unfolding reap_one
  reap_one-alive self done e rest w (k, numbered, runs) =
      rw (is_running-alive os e.runner w k numbered (runs w.calls)) refl

  -- The loop passes over tools that run on.
  reap-alive :
      (self : BpfDiagnoser D) (done xs ys : List (RunnerEntry D)) (w : World)
      → All RunsOn xs
      → (v : World) × (v.acts ≡ w.acts)
        × (reap os self done (xs ++ ys) w ≡ reap os self (done ++ xs) ys v)
  unfolding reap
  reap-alive self done [] ys w a = (w, refl, rw append-nil refl)
  reap-alive self done (x ∷ xs) ys w (a, more) =
      let (v, same, e) =
        reap-alive self (done ++ x ∷ []) xs ys (record w { calls = w.calls + 1 }) more in
      (
        v,
        same,
        rw (reap_one-alive self done x (xs ++ ys) w a)
            (e ∙ rw (append_assoc done (x ∷ []) xs) refl),
      )

  last_runner-last :
      (current : CmdRunner) (rest : List (RunnerEntry D)) (last : RunnerEntry D)
      → last_runner current (rest ++ last ∷ []) ≡ last.runner
  unfolding last_runner
  last_runner-last current [] last = refl
  last_runner-last current (e ∷ rest) last = last_runner-last e.runner rest last

  -- Of the tools in the list one has ended, which is not the last one, and the others run on. The
  -- loop of `Collect` then leaves the others in the list, in their order, and sends one SIGTERM: to
  -- the process of the last entry, which runs and stays in the list.
  pub reap-kills :
      (self : BpfDiagnoser D) (before rest : List (RunnerEntry D)) (e last : RunnerEntry D)
      (w : World) (q : ℕ)
      → e.runner.pid ≡ pos (suc q)
      → ((n : ℕ) → os.waitpid n (pos (suc q)) ≡ pos (suc q))
      → All RunsOn before
      → All RunsOn rest
      → RunsOn last
      → let (after, v) = reap os self [] (before ++ e ∷ (rest ++ last ∷ [])) w in
        (after.runners ≡ before ++ (rest ++ last ∷ []))
        × (v.acts ≡ sigterm last.runner.pid ∷ w.acts)
  unfolding reap
  reap-kills self before rest e last w q numbered ended early late (p, alive, runs) =
      let tail = rest ++ last ∷ [] in
      let others = All-append RunsOn rest (last ∷ []) late ((p, alive, runs), tt) in
      let (v, idle, skip) = reap-alive self [] before (e ∷ tail) w early in
      let r = reap_one os self before e tail v in
      let shifted = ap (λ runner. runner.pid) (last_runner-last (finished e.runner) rest last) in
      let (kept, killed) =
        reap_one-ended self before e tail v q p numbered (ended v.calls) (shifted ∙ alive) in
      let (u, quiet, pass) = reap-alive r.0.0 r.0.1 tail [] r.1 others in
      let whole =
        skip ∙ ap (λ entries. reap os r.0.0 r.0.1 entries r.1) (sym (append-nil tail)) ∙ pass in
      (
        ap (λ z. z.0.runners) whole ∙ ap (λ entries. entries ++ tail) kept,
        ap (λ z. z.1.acts) whole
            ∙ quiet
            ∙ killed
            ∙ ap (λ acts. sigterm (pos (suc p)) ∷ acts) idle
            ∙ ap (λ pid. sigterm pid ∷ w.acts) (sym alive),
      )
