-- ===== src/Engine/Manage/Drain.antt =====
-- The events that `me_run_events` hands over.
use profit_playground.Common.{
  ℕ, zero, suc, ◌<◌, ◌≡◌, refl, ap, ◌∙◌, arith, List, [], ◌∷◌, length, none, some, true,
}
use profit_playground.Ring.{Ring}
use profit_playground.Ring.Queue.{IsValid, contents, dequeue, pop_refines, distance, length-window}
use profit_playground.Engine.State.{Engine, Event, event_queue_cap}
use profit_playground.Engine.Emit.{eq_pop}
use profit_playground.Engine.Manage.{drain, run_events}

popped :
    (q : Ring Event)
    → IsValid event_queue_cap q
    → ((contents event_queue_cap (eq_pop q).0, (eq_pop q).1) ≡ dequeue (contents event_queue_cap q))
      × IsValid event_queue_cap (eq_pop q).0
unfolding eq_pop
popped q v = pop_refines event_queue_cap (omega arith) q v

drain_lem :
    (f : ℕ) (evs : List Event) (q : Ring Event)
    → IsValid event_queue_cap q
    → contents event_queue_cap q ≡ evs
    → length evs < f
    → ((drain f q).1 ≡ evs) × (contents event_queue_cap (drain f q).0 ≡ [])
unfolding drain dequeue
drain_lem zero evs q v e h = absurd (omega (arith, h))
drain_lem (suc f) [] q v e h =
    let none_left : (eq_pop q).1 ≡ none = ap (λ p. p.1) ((popped q v).0 ∙ ap dequeue e) in
    let empty : contents event_queue_cap (eq_pop q).0 ≡ [] =
      ap (λ p. p.0) ((popped q v).0 ∙ ap dequeue e) in
    (rw (drain, none_left) refl, rw (drain, none_left) empty)
drain_lem (suc f) (ev ∷ evs) q v e h =
    let oldest : (eq_pop q).1 ≡ some ev = ap (λ p. p.1) ((popped q v).0 ∙ ap dequeue e) in
    let rest : contents event_queue_cap (eq_pop q).0 ≡ evs =
      ap (λ p. p.0) ((popped q v).0 ∙ ap dequeue e) in
    let (all, empty) = drain_lem f evs (eq_pop q).0 (popped q v).1 rest (omega (arith, h)) in
    (rw (drain, oldest) (ap (λ r. ev ∷ r) all), rw (drain, oldest) empty)

length-queue :
    (q : Ring Event)
    → IsValid event_queue_cap q
    → length (contents event_queue_cap q) < event_queue_cap
unfolding contents
length-queue q v = ground (
  arith,
  v.head_in,
  v.tail_in,
  length-window event_queue_cap (omega arith) q.buf q.tail (distance event_queue_cap q.tail q.head),
)

-- With a handler and an event queue whose indices lie inside its buffer, every queued event is
-- delivered once, oldest first, and the queue is empty afterwards.
pub run_events_lem :
    (me : Engine)
    → me.has_handler ≡ true
    → IsValid event_queue_cap me.eq
    → ((run_events me).1 ≡ contents event_queue_cap me.eq)
      × (contents event_queue_cap (run_events me).0.eq ≡ [])
unfolding run_events
run_events_lem me handled v =
    let (all, empty) =
      drain_lem event_queue_cap (contents event_queue_cap me.eq) me.eq v refl
        (length-queue me.eq v) in
    (rw (run_events, handled) all, rw (run_events, handled) empty)
