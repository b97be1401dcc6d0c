-- ===== src/Worker/Perf/Shared/Kept.antt =====
-- Which events of the perf diagnoser come into a message.
use perf_monitor.Prelude.{
  ◌≡◌, refl, sym, ap, ◌∙◌, Bool, true, false, List, [], ◌∷◌, ◌++◌, map, map-append, length, drop,
  append_assoc, append-nil, drop-append, if◌then◌else◌, Bool-cases, inl, inr,
}
use perf_monitor.Double.{Double}
use perf_monitor.Worker.System.{System, World}
use perf_monitor.Worker.Event.{CppDiagnoseEvent}
use perf_monitor.Worker.Perf.{PerfDiagnoser, Probe, reset}
use perf_monitor.Worker.Perf.Round.{round}
use perf_monitor.Worker.Perf.Appends.{round-events}
use perf_monitor.Worker.Pusher.{event_message}
use perf_monitor.Worker.Perf.Shared.{
  State, started, marked, appended, Step, turn, fill, clear, Reach, here, next,
}

-- The events that the next message is to have
abbrev pub waiting : {D : Type 0} → State D → List (CppDiagnoseEvent D)
waiting s = if s.filling then [] else s.perf.events

-- The events that were not appended while a message was being filled
abbrev pub on_time : {D : Type 0} → List (Bool × CppDiagnoseEvent D) → List (CppDiagnoseEvent D)
on_time [] = []
on_time ((late, ev) ∷ rest) = if late then on_time rest else ev ∷ on_time rest

on_time-append :
    {D : Type 0} (xs ys : List (Bool × CppDiagnoseEvent D))
    → on_time (xs ++ ys) ≡ on_time xs ++ on_time ys
on_time-append [] ys = refl
on_time-append ((true, ev) ∷ xs) ys = on_time-append xs ys
on_time-append ((false, ev) ∷ xs) ys = ap (λ l. ev ∷ l) (on_time-append xs ys)

on_time-marked :
    {D : Type 0} (late : Bool) (events : List (CppDiagnoseEvent D))
    → on_time (marked late events) ≡ (if late then [] else events)
on_time-marked true [] = refl
on_time-marked false [] = refl
on_time-marked true (ev ∷ events) = on_time-marked true events
on_time-marked false (ev ∷ events) = ap (λ l. ev ∷ l) (on_time-marked false events)

module _ {D : Type 0} ⦃d : Double D⦄ (os : System) (probe : Probe) where
  abbrev pub Kept : State D → Type 0
  Kept s = s.copied ++ map event_message (waiting s) ≡ map event_message (on_time s.recorded)

  round-appended :
      (before after : PerfDiagnoser D) (v w : World)
      → round os probe before v ≡ (after, w)
      → after.events ≡ before.events ++ appended before.events after.events
  round-appended before after v w e =
      let (new, grew) = round-events os probe before v in
      let h : after.events ≡ before.events ++ new = sym (ap (λ r. r.0.events) e) ∙ grew in
      let rest = ap (drop (length before.events)) h ∙ drop-append before.events new in
      h ∙ ap (λ l. before.events ++ l) (sym rest)

  step-Kept : (s t : State D) → Step os probe s t → Kept s → Kept t
  unfolding reset
  step-Kept s t (turn perf world e) k =
      let new = appended s.perf.events perf.events in
      let before = s.perf.events in
      let copied = s.copied in
      let recorded = on_time s.recorded in
      let grown = on_time-append s.recorded (marked s.filling new) in
      let kind = on_time-marked s.filling new in
      elim (Bool-cases s.filling) [
        | inl filling ↦
            let h : copied ++ [] ≡ map event_message recorded = rw filling at k in
            rw (grown, kind, filling) (h ∙ ap (map event_message) (sym (append-nil recorded)))
        | inr outside ↦
            let h : copied ++ map event_message before ≡ map event_message recorded =
              rw outside at k in
            rw (grown, kind, outside)
              (ap (λ l. copied ++ map event_message l) (round-appended s.perf perf s.world world e)
                ∙ ap (λ l. copied ++ l) (map-append event_message before new)
                ∙ sym (append_assoc copied (map event_message before) (map event_message new))
                ∙ ap (λ l. l ++ map event_message new) h
                ∙ sym (map-append event_message recorded new))
      ]
  step-Kept s t (fill e) k = append-nil (s.copied ++ map event_message s.perf.events) ∙ rw e at k
  step-Kept s t (clear e) k = rw e at k

  -- The thread of the perf diagnoser may run between any two accesses of the push loop, and also
  -- between the copying of the events into a message and their clearing. Whatever the order, the
  -- events copied so far and those that wait for the next message are, in order and each once, those
  -- that the thread recorded while no message was being filled; one that it recorded while a message
  -- was being filled comes into no message.
  pub reached-Kept :
      (perf : PerfDiagnoser D) (w : World) (s : State D)
      → perf.events ≡ []
      → Reach os probe (started perf w) s
      → Kept s
  reached-Kept perf w s empty here = ap (map event_message) empty
  reached-Kept perf w s empty (next {t} r step) = step-Kept t s step (reached-Kept perf w t empty r)
