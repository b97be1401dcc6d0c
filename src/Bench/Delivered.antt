-- ===== src/Bench/Delivered.antt =====
-- The benchmark against the manager that it is written for.
use perf_monitor.Prelude.{
  ℕ, ap, false, ◌%◌, ◌==◌, ◌⊎◌, ◌<◌, ◌≡◌, ◌≢◌, refl, ◌∙◌, Option, none, some, List, [], ◌∷◌, arith,
  if◌then◌else◌, Bool-cases, inl, inr,
}
use perf_monitor.Prelude.Int.{ℤ, pos, ◌+ℤ◌, ◌-ℤ◌, ltb_ℤ, pos_part}
use perf_monitor.Text.{Bytes, str_eq, str_eq_iff, codes}
use perf_monitor.Table.{
  lookup, bytes_eq, unless, IsMap, insert-IsMap, erase_if-IsMap, lookup-insert, lookup-erase_if,
}
use perf_monitor.Double.{Double}
use perf_monitor.Host.{HostSnapshot, Hosts, update, renewed, get, is_expired, remove_expired}
use perf_monitor.Program.{max_age}
use perf_monitor.Message.{MonitorInfo}
use perf_monitor.Rpc.{set_monitor_info, snapshot_of, observe, count_processes, count_flows}
use perf_monitor.Bench.{Options, default_options, parsed, parse_args}
use perf_monitor.Bench.Arguments.{HasCounts, read_args-HasCounts}
use perf_monitor.Bench.Report.{hostname, make_report}
use perf_monitor.Bench.Threads.{Call, threads}
use perf_monitor.Bench.Threads.Interleaving.{Interleaving, sum_of}
use perf_monitor.Bench.Threads.Once.{below, sum_of-calls}
use perf_monitor.Bench.Threads.Sums.{sum_range, sum_range_zero, sum_range_zero_each}

-- The times of one call: the two that the client takes and the one that the manager takes.
pub record Times : Type 0 where
  pub now : ℤ
  pub later : ℤ
  pub received : ℤ

-- What the manager does: it handles a call, or sweeps at a time.
pub data Event : Type 0 where
  handle : Call → Event
  sweep : ℤ → Event

abbrev pub calls_of : List Event → List Call
calls_of [] = []
calls_of (handle c ∷ events) = c ∷ calls_of events
calls_of (sweep now ∷ events) = calls_of events

-- No sweep is more than sixty seconds after the time of a call.
abbrev pub IsBrief : (Call → Times) → List Event → Type 0
IsBrief times [] = Unit
IsBrief times (handle c ∷ events) = IsBrief times events
IsBrief times (sweep now ∷ events) =
    ((c : Call) → ltb_ℤ max_age (now -ℤ (times c).received) ≡ false) × IsBrief times events

-- How often a name is reported
abbrev hit : Bytes → Call → ℕ
hit name c = if str_eq (hostname c.0) name then 1 else 0

module _ (o : Options) (calls : List Call) (counts : HasCounts o)
    (order : Interleaving (threads o) calls) where
  abbrev column : Bytes → ℕ → ℕ → ℕ
  column name i = below (pos_part o.workers) (λ w. hit name (w, i))

  hits-planned :
      (worker : ℕ) → worker < pos_part o.workers → sum_of (hit (hostname worker)) calls ≢ 0
  hits-planned worker small zero =
      let n = pos_part o.workers in
      let m = pos_part o.iterations in
      let name = hostname worker in
      let grid = sum_of-calls o (hit name) calls counts order in
      let iterations = counts.iterations in
      let turn =
        sum_range_zero_each (λ i. sum_range (column name i) 0 n) 0 m 0 (omega (arith, grid, zero))
          (omega arith) (omega arith) in
      let one = sum_range_zero_each (column name 0) 0 n worker turn (omega arith) (omega arith) in
      ground (arith, one, str_eq_iff name name)

  hits-others :
      (name : Bytes)
      → ((worker : ℕ) → worker < pos_part o.workers → hostname worker ≢ name)
      → sum_of (hit name) calls ≡ 0
  hits-others name others =
      let n = pos_part o.workers in
      let m = pos_part o.iterations in
      sum_of-calls o (hit name) calls counts order
      ∙ sum_range_zero (λ i. sum_range (column name i) 0 n) 0 m
          (λ i k early.
            sum_range_zero (column name i) 0 n
              (λ w l small. ground (arith, others w (omega arith), str_eq_iff (hostname w) name)))

module _ {D : Type 0} ⦃d : Double D⦄ where
  -- The manager handles one call.
  pub receive : Times → Hosts D → Call → Hosts D
  unfolding set_monitor_info
  receive t hosts c = (set_monitor_info hosts t.received (make_report t.now t.later c.0 c.1)).0

  -- The calls of the benchmark as the manager handles them, and its sweeps between them
  pub deliver : (Call → Times) → Hosts D → List Event → Hosts D
  unfolding remove_expired
  deliver times hosts [] = hosts
  deliver times hosts (handle c ∷ events) = deliver times (receive (times c) hosts c) events
  deliver times hosts (sweep now ∷ events) = deliver times (remove_expired hosts now max_age) events

  -- A host with the events of one report
  abbrev pub Present : Bytes → Hosts D → Type 0
  Present name hosts =
      (snap : HostSnapshot D) × (lookup name hosts ≡ some snap)
      × (snap.tcp_flow_count ≡ pos 1)
      × (snap.proc_exec_count +ℤ snap.proc_exit_count ≡ pos 1)

  -- The entry that a call leaves
  entry : Times → Hosts D → Call → HostSnapshot D
  unfolding renewed
  entry t hosts c =
      let name = hostname c.0 in
      let report : MonitorInfo D = make_report t.now t.later c.0 c.1 in
      renewed (get hosts name) name (snapshot_of t.received report)

  lookup-receive :
      (t : Times) (hosts : Hosts D) (c : Call) (name : Bytes)
      → lookup name (receive t hosts c)
        ≡ (if str_eq (hostname c.0) name then some (entry t hosts c) else lookup name hosts)
  unfolding receive update entry make_report
  lookup-receive t hosts c name = lookup-insert (hostname c.0) name _ hosts

  -- One report has one process event and one flow.
  entry_counts :
      (t : Times) (hosts : Hosts D) (c : Call)
      → let snap = entry t hosts c in
        (snap.tcp_flow_count ≡ pos 1) × (snap.proc_exec_count +ℤ snap.proc_exit_count ≡ pos 1)
  unfolding entry snapshot_of observe count_processes count_flows make_report codes str_eq ◌+ℤ◌
  entry_counts t hosts c = elim (Bool-cases (c.1 % 2 == 0)) [
    | inl even ↦ rw even (refl, refl)
    | inr odd ↦ rw odd (refl, refl)
  ]

  receive-IsMap : (t : Times) (hosts : Hosts D) (c : Call) → IsMap hosts → IsMap (receive t hosts c)
  unfolding receive update make_report
  receive-IsMap t hosts c m = insert-IsMap (hostname c.0) _ hosts m

  deliver-other :
      (times : Call → Times) (events : List Event) (hosts : Hosts D) (name : Bytes)
      → IsMap hosts
      → sum_of (hit name) (calls_of events) ≡ 0
      → lookup name hosts ≡ none
      → lookup name (deliver times hosts events) ≡ none
  unfolding deliver remove_expired
  deliver-other times [] hosts name m h e = e
  deliver-other times (handle c ∷ events) hosts name m h e =
      elim (Bool-cases (str_eq (hostname c.0) name)) [
        | inl same ↦ absurd (ground (arith, same))
        | inr other ↦
            deliver-other times events (receive (times c) hosts c) name
              (receive-IsMap (times c) hosts c m) (ground arith)
              (lookup-receive (times c) hosts c name ∙ rw other e)
      ]
  deliver-other times (sweep now ∷ events) hosts name m h e =
      let old = is_expired now max_age in
      deliver-other times events (remove_expired hosts now max_age) name
        (erase_if-IsMap old hosts m) h (lookup-erase_if old name hosts m ∙ ap (unless old) e)

  -- Such a host that a report of the benchmark left
  abbrev Held : (Call → Times) → Bytes → Hosts D → Type 0
  Held times name hosts =
      (c : Call) × (snap : HostSnapshot D) × (lookup name hosts ≡ some snap)
      × (snap.tcp_flow_count ≡ pos 1)
      × (snap.proc_exec_count +ℤ snap.proc_exit_count ≡ pos 1)
      × (snap.last_update ≡ (times c).received)

  entry-last_update :
      (t : Times) (hosts : Hosts D) (c : Call) → (entry t hosts c).last_update ≡ t.received
  unfolding entry snapshot_of observe count_processes count_flows make_report codes str_eq
  entry-last_update t hosts c = elim (Bool-cases (c.1 % 2 == 0)) [
    | inl even ↦ rw even refl
    | inr odd ↦ rw odd refl
  ]

  deliver-Held :
      (times : Call → Times) (events : List Event) (hosts : Hosts D) (name : Bytes)
      → IsMap hosts
      → IsBrief times events
      → (0 < sum_of (hit name) (calls_of events)) ⊎ Held times name hosts
      → Present name (deliver times hosts events)
  unfolding deliver remove_expired
  deliver-Held times [] hosts name m b (inl h) = absurd (omega arith)
  deliver-Held times [] hosts name m b (inr (c, snap, e, flows, processes, _)) =
      (snap, e, flows, processes)
  deliver-Held times (handle c ∷ events) hosts name m b h =
      let found = lookup-receive (times c) hosts c name in
      let after = receive (times c) hosts c in
      let counts = entry_counts (times c) hosts c in
      let m' = receive-IsMap (times c) hosts c m in
      elim (Bool-cases (str_eq (hostname c.0) name)) [
        | inl same ↦
            let taken = entry-last_update (times c) hosts c in
            deliver-Held times events after name m' b
              (inr (c, entry (times c) hosts c, found ∙ rw same refl, counts.0, counts.1, taken))
        | inr other ↦ deliver-Held times events after name m' b (elim h [
          | inl more ↦ inl (ground (arith, other))
          | inr (i, old, e, flows, processes, taken) ↦
              inr (i, old, found ∙ rw other e, flows, processes, taken)
        ])
      ]
  deliver-Held times (sweep now ∷ events) hosts name m b h =
      let old = is_expired now max_age in
      let m' = erase_if-IsMap old hosts m in
      deliver-Held times events (remove_expired hosts now max_age) name m' b.1 (elim h [
        | inl more ↦ inl more
        | inr (c, snap, e, flows, processes, taken) ↦
            let recent : old snap ≡ false = ap (λ t. ltb_ℤ max_age (now -ℤ t)) taken ∙ b.0 c in
            let stays = lookup-erase_if old name hosts m ∙ ap (unless old) e ∙ rw recent refl in
            inr (c, snap, stays, flows, processes, taken)
      ])

  -- Whatever the arguments, the order and the times, when a new manager has handled all calls of the
  -- benchmark, and swept any number of times between, but at no time more than sixty seconds after
  -- it received a call, it has every worker as a host, with one flow and one process event however
  -- many iterations there were, and no host of a name that no worker has.
  pub deliver-hosts :
      (stoi : Bytes → Option ℤ) (args : List Bytes) (o : Options) (events : List Event)
      (times : Call → Times) (worker : ℕ) (name : Bytes)
      → parse_args stoi args ≡ parsed o
      → Interleaving (threads o) (calls_of events)
      → IsBrief times events
      → worker < pos_part o.workers
      → ((other : ℕ) → other < pos_part o.workers → hostname other ≢ name)
      → let hosts : Hosts D = deliver times [] events in
        Present (hostname worker) hosts × (lookup name hosts ≡ none)
  unfolding parse_args lookup
  deliver-hosts stoi args o events times worker name h order brief small others =
      let counts = read_args-HasCounts stoi args default_options o h in
      let calls = calls_of events in
      let hits = hits-planned o calls counts order worker small in
      let none_hit = hits-others o calls counts order name others in
      (
        deliver-Held times events [] (hostname worker) tt brief (inl (ground (arith, hits))),
        deliver-other times events [] name tt none_hit refl,
      )
