-- ===== src/Bridge/Registry/Queue.antt =====
-- bridge/bridge.c, `push_event` and `bridge_poll_event`: the queue of events as the bounded first-in
-- first-out queue that drops its oldest element.
use profit_playground.Common.{
  ℕ, suc, ◌^◌, ◌≤◌, ◌≡◌, ◌∙◌, refl, sym, ap, inl, inr, not, update, Bool-cases, subst, Bool, true,
  false, Option, none, some, List, [], ◌∷◌, ◌++◌, arith, if◌then◌else◌, ◌==◌, ltb, length,
}
use profit_playground.Common.Words.{add64}
use profit_playground.Ring
use profit_playground.Ring.{Ring}
use profit_playground.Ring.Queue
use profit_playground.Ring.Queue.{IsValid, contents, dequeue, contents-push, pop_refines}
use profit_playground.Bridge.State.{BridgePipeline, BridgeEvent, event_queue_cap}
use profit_playground.Bridge.Registry.{next_event, push_event, poll_event}

-- The queue that the events wait in, with the number of the events that it has lost.
pub record Backlog : Type 0 where
  pub waiting : List BridgeEvent
  pub lost : ℕ

abbrev pub drop_first : List BridgeEvent → List BridgeEvent
drop_first [] = []
drop_first (x ∷ q) = q

-- A new event joins at the end; a queue of 4095 events loses its oldest.
unfoldable pub join : Backlog → BridgeEvent → Backlog
join b ev =
    if ltb (suc (length b.waiting)) event_queue_cap
    then record b { waiting = b.waiting ++ (ev ∷ []) }
    else record { waiting = drop_first b.waiting ++ (ev ∷ []); lost = add64 b.lost 1 }

abbrev pub ring_of : BridgePipeline → Ring BridgeEvent
ring_of bp = record { buf = bp.evq; head = bp.evq_head; tail = bp.evq_tail; dropped = 0 }

unfoldable pub backlog : BridgePipeline → Backlog
backlog bp = record { waiting = contents event_queue_cap (ring_of bp); lost = bp.evq_dropped }

abbrev pub IsEventQueue : BridgePipeline → Type 0
IsEventQueue bp = IsValid event_queue_cap (ring_of bp)

-- The number that a new event gets.
abbrev pub numbered : BridgePipeline → BridgeEvent → BridgeEvent
numbered bp ev = record ev { seq = add64 bp.next_seq 1 }

small : event_queue_cap ≤ 2 ^ 31
small = omega arith

abbrev is_full : BridgePipeline → Bool
is_full bp = next_event bp.evq_head == bp.evq_tail

-- The ring of the same events in which a push finds room.
abbrev with_room : BridgePipeline → Ring BridgeEvent
with_room bp = if is_full bp then (Ring.pop event_queue_cap (ring_of bp)).0 else ring_of bp

push-room :
    (r : Ring BridgeEvent) (x : BridgeEvent)
    → (Ring.next event_queue_cap r.head == r.tail) ≡ false
    → Ring.push event_queue_cap 1 r x
      ≡ (record r { buf = update r.buf r.head x; head = Ring.next event_queue_cap r.head }, true)
unfolding Ring.push
push-room r x h = rw h refl

pop-full :
    (r : Ring BridgeEvent)
    → (r.tail == r.head) ≡ false
    → (Ring.pop event_queue_cap r).0 ≡ record r { tail = Ring.next event_queue_cap r.tail }
unfolding Ring.pop
pop-full r h = rw h refl

-- A push to the queue is a push to that ring, which finds room.
push_event-ring :
    (bp : BridgePipeline) (ev : BridgeEvent)
    → IsEventQueue bp
    → Ring.push event_queue_cap 1 (with_room bp) (numbered bp ev)
      ≡ (ring_of (push_event bp ev), true)
unfolding push_event
push_event-ring bp ev v = elim (Bool-cases (is_full bp)) [
  | inr room ↦ rw room (push-room (ring_of bp) (numbered bp ev) room)
  | inl full ↦
      let apart : (bp.evq_tail == bp.evq_head) ≡ false =
        ground (arith, Queue.next_lem event_queue_cap small bp.evq_head v.head_in, full) in
      let room : (Ring.next event_queue_cap bp.evq_head == Ring.next event_queue_cap bp.evq_tail)
          ≡ false =
        ground (arith, Queue.next_lem event_queue_cap small bp.evq_tail v.tail_in, full) in
      rw full (
        rw (pop-full (ring_of bp) apart)
          (push-room (record (ring_of bp) { tail = next_event bp.evq_tail }) (numbered bp ev) room))
]

push-answer :
    (r : Ring BridgeEvent) (x : BridgeEvent)
    → (Ring.push event_queue_cap 1 r x).1 ≡ not (Ring.next event_queue_cap r.head == r.tail)
unfolding Ring.push
push-answer r x = elim (Bool-cases (Ring.next event_queue_cap r.head == r.tail)) [
  | inl h ↦ rw h refl
  | inr h ↦ rw h refl
]

enqueue-answer :
    (q : List BridgeEvent) (x : BridgeEvent)
    → (Queue.enqueue event_queue_cap q x).1 ≡ ltb (suc (length q)) event_queue_cap
unfolding Queue.enqueue
enqueue-answer q x = elim (Bool-cases (ltb (suc (length q)) event_queue_cap)) [
  | inl h ↦ rw h refl
  | inr h ↦ rw h refl
]

-- The queue has room where its events are fewer than 4095.
is_full_lem :
    (bp : BridgePipeline)
    → IsEventQueue bp
    → not (is_full bp) ≡ ltb (suc (length (contents event_queue_cap (ring_of bp)))) event_queue_cap
is_full_lem bp v =
    sym (push-answer (ring_of bp) (bp.evq 0))
    ∙ ap (λ p. p.1) (Queue.push_refines event_queue_cap small 1 (ring_of bp) (bp.evq 0) v).0
    ∙ enqueue-answer (contents event_queue_cap (ring_of bp)) (bp.evq 0)

dequeue_lem : (q : List BridgeEvent) → (dequeue q).0 ≡ drop_first q
unfolding dequeue
dequeue_lem [] = refl
dequeue_lem (x ∷ q) = refl

-- What the ring with room holds.
contents-with_room :
    (bp : BridgePipeline)
    → IsEventQueue bp
    → let q = contents event_queue_cap (ring_of bp) in
      (contents event_queue_cap (with_room bp) ≡ (if is_full bp then drop_first q else q))
      × IsValid event_queue_cap (with_room bp)
contents-with_room bp v = elim (Bool-cases (is_full bp)) [
  | inr room ↦ rw room (refl, v)
  | inl full ↦
      let (same, valid) = pop_refines event_queue_cap small (ring_of bp) v in
      rw full (ap (λ p. p.0) same ∙ dequeue_lem (contents event_queue_cap (ring_of bp)), valid)
]

lost-push_event :
    (bp : BridgePipeline) (ev : BridgeEvent)
    → (push_event bp ev).evq_dropped
      ≡ (if is_full bp then add64 bp.evq_dropped 1 else bp.evq_dropped)
unfolding push_event
lost-push_event bp ev = refl

pub push_event_refines :
    (bp : BridgePipeline) (ev : BridgeEvent)
    → IsEventQueue bp
    → (backlog (push_event bp ev) ≡ join (backlog bp) (numbered bp ev))
      × IsEventQueue (push_event bp ev)
unfolding backlog join
push_event_refines bp ev v =
    let (held, valid) = contents-with_room bp v in
    let pushed = push_event-ring bp ev v in
    let (queued, _, valid') =
      contents-push event_queue_cap small 1 (with_room bp) (numbered bp ev) valid in
    let waiting : contents event_queue_cap (ring_of (push_event bp ev))
        ≡ contents event_queue_cap (with_room bp) ++ (numbered bp ev ∷ []) =
      sym (ap (λ p. contents event_queue_cap p.0) pushed) ∙ queued (ap (λ p. p.1) pushed) in
    (
      elim (Bool-cases (is_full bp)) [
        | inl full ↦
            rw (sym (is_full_lem bp v), full, waiting, held, full, lost-push_event bp ev, full) refl
        | inr room ↦
            rw (sym (is_full_lem bp v), room, waiting, held, room, lost-push_event bp ev, room) refl
      ],
      subst (λ p. IsValid event_queue_cap p.0) pushed valid',
    )

poll_event-ring :
    (bp : BridgePipeline)
    → let (r, out) = Ring.pop event_queue_cap (ring_of bp) in
      (ring_of (poll_event bp).0 ≡ r)
      × ((poll_event bp).1 ≡ out)
      × ((poll_event bp).0.evq_dropped ≡ bp.evq_dropped)
unfolding Ring.pop poll_event
poll_event-ring bp = elim (Bool-cases (bp.evq_tail == bp.evq_head)) [
  | inl h ↦ rw h (refl, refl, refl)
  | inr h ↦ rw h (refl, refl, refl)
]

unfoldable pub first : List BridgeEvent → Option BridgeEvent
first [] = none
first (x ∷ q) = some x

dequeue-first : (q : List BridgeEvent) → (dequeue q).1 ≡ first q
unfolding dequeue first
dequeue-first [] = refl
dequeue-first (x ∷ q) = refl

pub poll_event_refines :
    (bp : BridgePipeline)
    → IsEventQueue bp
    → let (bp', out) = poll_event bp in
      (backlog bp' ≡ record (backlog bp) { waiting = drop_first (backlog bp).waiting })
      × (out ≡ first (backlog bp).waiting)
      × IsEventQueue bp'
unfolding backlog
poll_event_refines bp v =
    let (same, valid) = pop_refines event_queue_cap small (ring_of bp) v in
    let (ring, out, lost) = poll_event-ring bp in
    let q = contents event_queue_cap (ring_of bp) in
    (
      rw (ap (contents event_queue_cap) ring, ap (λ p. p.0) same, dequeue_lem q, lost) refl,
      out ∙ ap (λ p. p.1) same ∙ dequeue-first q,
      subst (IsValid event_queue_cap) (sym ring) valid,
    )

-- With both indices inside the buffer, publishing an event does to the waiting events and the
-- count of lost ones what joining a queue of at most 4095 events does that drops its oldest when
-- it is full, and polling takes the oldest waiting event, if there is one; both keep the indices
-- inside the buffer.
pub backlog_refines :
    (bp : BridgePipeline) (ev : BridgeEvent)
    → IsEventQueue bp
    → let (bp', out) = poll_event bp in
      (backlog (push_event bp ev) ≡ join (backlog bp) (numbered bp ev))
      × IsEventQueue (push_event bp ev)
      × (backlog bp' ≡ record (backlog bp) { waiting = drop_first (backlog bp).waiting })
      × (out ≡ first (backlog bp).waiting)
      × IsEventQueue bp'
backlog_refines bp ev v =
    let (pushed, valid) = push_event_refines bp ev v in
    let (rest, out, valid') = poll_event_refines bp v in (pushed, valid, rest, out, valid')
