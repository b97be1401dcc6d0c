-- ===== src/Worker/Bpf/Launch.antt =====
-- What starting a tool and reaping another do to the processes.
use perf_monitor.Prelude.{
  ℕ, suc, ◌+◌, ◌≡◌, ◌∙◌, ap, sym, append_assoc, refl, true, false, List, [], ◌∷◌, ◌++◌, arith,
  length, ltb, leb, Bool-cases, inl, inr,
}
use mathlib.Core.Path.{subst}
use perf_monitor.Prelude.Int.{pos, leb_ℤ}
use perf_monitor.Text.{Bytes, is_empty}
use perf_monitor.Double.{Double}
use perf_monitor.Worker.System.{System, World, Act, exec, sigterm, ask, note}
use perf_monitor.Worker.Runner.{CmdRunner, new_runner, start, stop, destroy}
use perf_monitor.Worker.Bpf.{
  OffcpuConfig, ProfileConfig, RunnerEntry, start_offcpu, start_profile, BpfDiagnoser, push_back,
  destroy_all, run_tool, launch_offcpu, launch_profile, target_args,
}

-- Every `fork` gives the parent a child's number.
abbrev pub ForksWork : System → Type 0
ForksWork os = (n : ℕ) → (p : ℕ) × (os.fork n ≡ pos (suc p))

-- What is done after `before`: a process is forked, others may be sent SIGTERM, and the last two acts
-- send SIGTERM to the process that was forked.
pub record SignalledAtOnce (before after : List Act) : Type 0 where
  pub pid : ℕ
  pub bin : Bytes
  pub args : List Bytes
  pub between : List Act
  pub signalled :
      after
      ≡ sigterm (pos (suc pid)) ∷ sigterm (pos (suc pid)) ∷ between
        ++ exec (pos (suc pid)) bin args ∷ before

suc_not_leb : (p : ℕ) → leb (suc p + 0) 0 ≡ false
suc_not_leb p = ground arith

suc_not_ltb : (p : ℕ) → ltb (suc p + 0) 0 ≡ false
suc_not_ltb p = ground arith

pub destroy-acts :
    (os : System) (runner : CmdRunner) (w : World) (p : ℕ)
    → runner.pid ≡ pos (suc p)
    → (destroy os runner w).1.acts ≡ sigterm (pos (suc p)) ∷ w.acts
unfolding destroy stop ask note
destroy-acts os runner w p e = rw e (rw (suc_not_leb p) refl)

pub start-works :
    (os : System) (bin : Bytes) (args : List Bytes) (file : Bytes) (w : World) (p : ℕ)
    → os.fork w.calls ≡ pos (suc p)
    → start os new_runner bin args file w ≡ (
      (true, record { pid = pos (suc p); output_path = file }),
      record w { calls = w.calls + 1; acts = exec (pos (suc p)) bin args ∷ w.acts },
    )
unfolding start ask note
start-works os bin args file w p e = rw e (rw (suc_not_ltb p) refl)

module _ {D : Type 0} ⦃d : Double D⦄ (os : System) where
  destroy_all-appends :
      (entries : List (RunnerEntry D)) (w : World)
      → (added : List Act) × ((destroy_all os entries w).1.acts ≡ added ++ w.acts)
  unfolding destroy_all destroy stop ask note
  destroy_all-appends [] w = ([], refl)
  destroy_all-appends (e ∷ rest) w = elim (Bool-cases (leb_ℤ e.runner.pid (pos 0))) [
    | inl idle ↦ rw idle (destroy_all-appends rest w)
    | inr runs ↦ rw runs (
        let more =
          destroy_all-appends rest
            (record w { calls = w.calls + 1; acts = sigterm e.runner.pid ∷ w.acts }) in
        (more.0 ++ sigterm e.runner.pid ∷ [], more.1 ∙ sym (append_assoc more.0 _ _)))
  ]

  push_back-appends :
      (entries : List (RunnerEntry D)) (entry : RunnerEntry D) (w : World)
      → (added : List Act) × ((push_back os entries entry w).1.acts ≡ added ++ w.acts)
  unfolding push_back
  push_back-appends entries entry w = elim (Bool-cases (os.grows (length entries))) [
    | inl grows ↦ rw grows (destroy_all-appends entries w)
    | inr fits ↦ rw fits ([], refl)
  ]

module _ {D : Type 0} ⦃d : Double D⦄ (os : System) where
  run_tool-acts :
      (self : BpfDiagnoser D) (bin : Bytes) (args : List Bytes) (kind process thread file : Bytes)
      (w : World) (p : ℕ)
      → os.fork w.calls ≡ pos (suc p)
      → SignalledAtOnce w.acts (run_tool os self bin args kind process thread file w).1.acts
  unfolding run_tool ask
  run_tool-acts self bin args kind process thread file w p e =
      rw (start-works os bin args file w p e) (
        let w1 : World = record w {
          calls = w.calls + 1 + 1;
          acts = exec (pos (suc p)) bin args ∷ w.acts;
        } in
        let entry : RunnerEntry D = record {
          runner = record { pid = pos (suc p); output_path = file };
          pending_ev = record {
            type = kind;
            process_name = process;
            thread_name = thread;
            file_path = file;
            timestamp = os.time (w.calls + 1);
            cpu_percent = d.of_ℕ 0;
          };
        } in
        let w2 : World = (push_back os self.runners entry w1).1 in
        let w3 : World = (destroy os entry.runner w2).1 in
        let pushed = push_back-appends os self.runners entry w1 in
        record {
          pid = p;
          bin = bin;
          args = args;
          between = pushed.0;
          signalled =
              destroy-acts os entry.runner w3 p refl
              ∙ ap (λ a. sigterm (pos (suc p)) ∷ a) (destroy-acts os entry.runner w2 p refl)
              ∙ ap (λ a. sigterm (pos (suc p)) ∷ sigterm (pos (suc p)) ∷ a) pushed.1;
        })

module _ (os : System) where
  target_args-acts :
      (process thread : Bytes) (w : World) → (target_args os process thread w).1.acts ≡ w.acts
  unfolding target_args ask
  target_args-acts process thread w = elim (Bool-cases (is_empty process)) [
    | inl all ↦ rw all refl
    | inr one ↦ rw one (elim (Bool-cases (is_empty thread)) [
      | inl whole ↦ rw whole refl
      | inr part ↦ rw part refl
    ])
  ]

module _ {D : Type 0} ⦃d : Double D⦄ (os : System) where
  launch_offcpu-signals :
      (forks : ForksWork os) (self : BpfDiagnoser D) (cfg : OffcpuConfig) (w : World)
      → SignalledAtOnce w.acts (launch_offcpu os self cfg w).1.acts
  unfolding launch_offcpu ask
  launch_offcpu-signals forks self cfg w =
      let found : World = (target_args os cfg.process cfg.thread w).1 in
      let w1 : World = record found { calls = found.calls + 1 } in
      let forked = forks w1.calls in
      subst (λ before. SignalledAtOnce before (launch_offcpu os self cfg w).1.acts)
        (target_args-acts os cfg.process cfg.thread w)
        (run_tool-acts os self _ _ _ _ _ _ w1 forked.0 forked.1)

  launch_profile-signals :
      (forks : ForksWork os) (self : BpfDiagnoser D) (cfg : ProfileConfig) (w : World)
      → SignalledAtOnce w.acts (launch_profile os self cfg w).1.acts
  unfolding launch_profile ask
  launch_profile-signals forks self cfg w =
      let found : World = (target_args os cfg.process cfg.thread w).1 in
      let w1 : World = record found { calls = found.calls + 1 } in
      let forked = forks w1.calls in
      subst (λ before. SignalledAtOnce before (launch_profile os self cfg w).1.acts)
        (target_args-acts os cfg.process cfg.thread w)
        (run_tool-acts os self _ _ _ _ _ _ w1 forked.0 forked.1)

  -- While `fork` works, `start_offcpu` and `start_profile` both fork a process for their tool, and the
  -- last two things they do to processes before they return are to send SIGTERM to that process.
  pub start-signals :
      (forks : ForksWork os) (self : BpfDiagnoser D) (o : OffcpuConfig) (c : ProfileConfig)
      (w : World)
      → SignalledAtOnce w.acts (start_offcpu os self o w).1.acts
        × SignalledAtOnce w.acts (start_profile os self c w).1.acts
  unfolding start_offcpu start_profile
  start-signals forks self o c w =
      (launch_offcpu-signals forks _ o w, launch_profile-signals forks _ c w)
