-- ===== src/Exporter/Server.antt =====
-- `serve_loop` of manager/src/rpc/metrics_exporter.cpp: its descriptors and its turns. What the calls
-- of the system return is an argument, and so is what the host manager holds when a turn reads it.
use perf_monitor.Prelude.{
  Option, not, ◌&&◌, append-nil, ℕ, ◌+◌, ◌≡◌, refl, ap, ◌∙◌, true, false, List, [], ◌∷◌, ◌++◌,
  if◌then◌else◌, arith, Bool-cases, inl, inr,
}
use perf_monitor.Prelude.Int.{ℤ, pos, ltb_ℤ, leb_ℤ}
use perf_monitor.Text.{Bytes}
use perf_monitor.Double.{Double}
use perf_monitor.Host.{Hosts}
use perf_monitor.Exporter.Request.{serve}
use perf_monitor.Worker.Runner.{eq_ℤ}

pub data Act : Type 0 where
  opened : ℤ → Act
  written : ℤ → Bytes → Act
  closed : ℤ → Act

-- What `socket`, `bind` and `listen` return
pub record Port : Type 0 where
  pub socket : ℤ
  pub bind : ℤ
  pub listen : ℤ

-- One turn of the loop: what `select` and `accept` return, and what is read
pub record Turn (D : Type 0) : Type 0 where
  pub select : ℤ
  pub accept : ℤ
  pub bytes : Bytes
  pub hosts : Hosts D

module _ {D : Type 0} where
  -- The connections that the turns accept
  abbrev pub accepted : List (Turn D) → List (Turn D)
  accepted [] = []
  accepted (t ∷ rest) =
      if ltb_ℤ (pos 0) t.select
      then (if ltb_ℤ t.accept (pos 0) then accepted rest else t ∷ accepted rest)
      else accepted rest

module _ {D : Type 0} ⦃d : Double D⦄ (stat : Bytes → Option ℕ) (run_pipeline : Bytes → Bytes) where
  unfoldable pub turn : Turn D → List Act
  turn t =
      if leb_ℤ t.select (pos 0)
      then []
      else if ltb_ℤ t.accept (pos 0)
      then []
      else opened t.accept
        ∷ written t.accept (serve stat run_pipeline t.hosts t.bytes)
        ∷ closed t.accept
        ∷ []

  -- `while (running_)`, with the turns that it makes
  unfoldable pub turns : List (Turn D) → List Act
  turns [] = []
  turns (t ∷ rest) = turn t ++ turns rest

  unfoldable pub serve_loop : Port → List (Turn D) → List Act
  serve_loop port loop =
      if ltb_ℤ port.socket (pos 0)
      then []
      else if ltb_ℤ port.bind (pos 0)
      then opened port.socket ∷ closed port.socket ∷ []
      else if ltb_ℤ port.listen (pos 0)
      then opened port.socket ∷ closed port.socket ∷ []
      else opened port.socket ∷ (turns loop ++ closed port.socket ∷ [])

-- How often a descriptor is opened and closed, and what is written, in order.
abbrev pub times_opened : ℤ → List Act → ℕ
times_opened fd [] = 0
times_opened fd (opened n ∷ acts) = (if eq_ℤ n fd then 1 else 0) + times_opened fd acts
times_opened fd (written n text ∷ acts) = times_opened fd acts
times_opened fd (closed n ∷ acts) = times_opened fd acts

abbrev pub times_closed : ℤ → List Act → ℕ
times_closed fd [] = 0
times_closed fd (opened n ∷ acts) = times_closed fd acts
times_closed fd (written n text ∷ acts) = times_closed fd acts
times_closed fd (closed n ∷ acts) = (if eq_ℤ n fd then 1 else 0) + times_closed fd acts

abbrev pub answers : List Act → List (ℤ × Bytes)
answers [] = []
answers (opened n ∷ acts) = answers acts
answers (written n text ∷ acts) = (n, text) ∷ answers acts
answers (closed n ∷ acts) = answers acts

times_opened-append :
    (fd : ℤ) (a b : List Act) → times_opened fd (a ++ b) ≡ times_opened fd a + times_opened fd b
times_opened-append fd [] b = omega arith
times_opened-append fd (opened n ∷ a) b = omega (arith, times_opened-append fd a b)
times_opened-append fd (written n text ∷ a) b = times_opened-append fd a b
times_opened-append fd (closed n ∷ a) b = times_opened-append fd a b

times_closed-append :
    (fd : ℤ) (a b : List Act) → times_closed fd (a ++ b) ≡ times_closed fd a + times_closed fd b
times_closed-append fd [] b = omega arith
times_closed-append fd (opened n ∷ a) b = times_closed-append fd a b
times_closed-append fd (written n text ∷ a) b = times_closed-append fd a b
times_closed-append fd (closed n ∷ a) b = omega (arith, times_closed-append fd a b)

answers-append : (a b : List Act) → answers (a ++ b) ≡ answers a ++ answers b
answers-append [] b = refl
answers-append (opened n ∷ a) b = answers-append a b
answers-append (written n text ∷ a) b = ap (λ l. (n, text) ∷ l) (answers-append a b)
answers-append (closed n ∷ a) b = answers-append a b

module _ {D : Type 0} ⦃d : Double D⦄ (stat : Bytes → Option ℕ) (run_pipeline : Bytes → Bytes) where
  -- The answer to each of some connections
  abbrev pub responses : List (Turn D) → List (ℤ × Bytes)
  responses [] = []
  responses (t ∷ rest) = (t.accept, serve stat run_pipeline t.hosts t.bytes) ∷ responses rest

  turn-balanced :
      (fd : ℤ) (t : Turn D)
      → times_closed fd (turn stat run_pipeline t) ≡ times_opened fd (turn stat run_pipeline t)
  unfolding turn
  turn-balanced fd t = elim (Bool-cases (leb_ℤ t.select (pos 0))) [
    | inl idle ↦ rw idle refl
    | inr ready ↦ rw ready (elim (Bool-cases (ltb_ℤ t.accept (pos 0))) [
      | inl failed ↦ rw failed refl
      | inr connected ↦ rw connected refl
    ])
  ]

  turns-balanced :
      (fd : ℤ) (loop : List (Turn D))
      → times_closed fd (turns stat run_pipeline loop)
        ≡ times_opened fd (turns stat run_pipeline loop)
  unfolding turns
  turns-balanced fd [] = refl
  turns-balanced fd (t ∷ rest) = omega (
    arith,
    turns-balanced fd rest,
    times_closed-append fd (turn stat run_pipeline t) (turns stat run_pipeline rest),
    times_opened-append fd (turn stat run_pipeline t) (turns stat run_pipeline rest),
    turn-balanced fd t,
  )

  turns-answers :
      (loop : List (Turn D)) → answers (turns stat run_pipeline loop) ≡ responses (accepted loop)
  unfolding turns turn
  turns-answers [] = refl
  turns-answers (t ∷ rest) = elim (Bool-cases (leb_ℤ t.select (pos 0))) [
    | inl idle ↦
        let no_event : ltb_ℤ (pos 0) t.select ≡ false = ground arith in
        rw (idle, no_event) (turns-answers rest)
    | inr ready ↦
        let event : ltb_ℤ (pos 0) t.select ≡ true = ground arith in
        rw (ready, event)
          (elim (Bool-cases (ltb_ℤ t.accept (pos 0))) [
            | inl failed ↦ rw failed (turns-answers rest)
            | inr connected ↦ rw connected (
                ap (λ l. (t.accept, serve stat run_pipeline t.hosts t.bytes) ∷ l)
                  (turns-answers rest))
          ])
  ]

  set_up :
      (server : ℤ) (loop : List (Turn D)) (fd : ℤ)
      → let acts = opened server ∷ (turns stat run_pipeline loop ++ closed server ∷ []) in
        (times_closed fd acts ≡ times_opened fd acts) × (answers acts ≡ responses (accepted loop))
  set_up server loop fd =
      let acts = turns stat run_pipeline loop in
      (
        omega (
          arith,
          turns-balanced fd loop,
          times_closed-append fd acts (closed server ∷ []),
          times_opened-append fd acts (closed server ∷ []),
        ),
        answers-append acts (closed server ∷ []) ∙ append-nil _ ∙ turns-answers loop,
      )

  -- Whatever the calls of the system return, the loop closes every descriptor as often as it opened
  -- it, also where it gives up. If the port can be set up, what it writes is the answer to each
  -- accepted connection, in order, and nothing else.
  pub serve_loop-closes :
      (port : Port) (loop : List (Turn D)) (fd : ℤ)
      → let acts = serve_loop stat run_pipeline port loop in
        let ready =
          not (ltb_ℤ port.socket (pos 0))
          && not (ltb_ℤ port.bind (pos 0))
          && not (ltb_ℤ port.listen (pos 0)) in
        (times_closed fd acts ≡ times_opened fd acts)
        × (answers acts ≡ (if ready then responses (accepted loop) else []))
  unfolding serve_loop
  serve_loop-closes port loop fd = elim (Bool-cases (ltb_ℤ port.socket (pos 0))) [
    | inl bad ↦ rw bad (refl, refl)
    | inr socket ↦ rw socket (elim (Bool-cases (ltb_ℤ port.bind (pos 0))) [
      | inl bad ↦ rw bad (refl, refl)
      | inr bound ↦ rw bound (elim (Bool-cases (ltb_ℤ port.listen (pos 0))) [
        | inl bad ↦ rw bad (refl, refl)
        | inr listens ↦ rw listens (set_up port.socket loop fd)
      ])
    ])
  ]
