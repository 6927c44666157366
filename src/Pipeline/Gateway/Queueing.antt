-- ===== src/Pipeline/Gateway/Queueing.antt =====
-- What a submission does to the queue of the stages behind the gateway.
use profit_playground.Common.{
  ◌⊎◌, ℕ, ◌^◌, ◌≡◌, ◌≢◌, refl, sym, ap, ◌∙◌, subst, arith, true, false, Bool-cases, inl, inr,
  Option-cases, List, [], ◌∷◌, ◌++◌,
}
use profit_playground.Ring.Queue.{IsValid, contents, contents-push}
use profit_playground.Pipeline.Message.{AckStatus, RawMsg, Ack, OrderEvent}
use profit_playground.Pipeline.Gateway.{
  Gateway, GwClock, Admission, ring_cap, ring_push, submit, stage_a_ingress, stage_b_normalize,
  stage_c_admit, finish, enqueue, deduplicate, assign, count_refused,
}
use profit_playground.Pipeline.Gateway.FullRing.{ring-stage_c}

abbrev pub queue : Gateway → List OrderEvent
queue g = contents ring_cap g.out_ring

-- The event carries every field of the message under the id of the acknowledgement.
pub record Carries (m : RawMsg) (id : ℕ) (ev : OrderEvent) : Type 0 where
  pub server_id : ev.server_order_id ≡ id
  pub account : ev.account_id ≡ m.account_id
  pub key : ev.client_order_id ≡ m.client_order_id
  pub action : ev.action ≡ m.action
  pub type : ev.type ≡ m.type
  pub side : ev.side ≡ m.side
  pub price : ev.price ≡ m.price
  pub trigger_price : ev.trigger_price ≡ m.trigger_price
  pub qty : ev.qty ≡ m.qty
  pub target : ev.target_order_id ≡ m.target_order_id
  pub source : ev.source ≡ m.source
  pub lifetime : ev.ttl_ns ≡ m.ttl_ns
  pub changed_price : ev.new_price ≡ m.new_price
  pub changed_qty : ev.new_qty ≡ m.new_qty

pushes :
    (g : Gateway) (ev : OrderEvent)
    → IsValid ring_cap g.out_ring
    → ((ring_push g.out_ring ev).1 ≡ true
        → contents ring_cap (ring_push g.out_ring ev).0 ≡ queue g ++ (ev ∷ []))
      × ((ring_push g.out_ring ev).1 ≡ false
          → contents ring_cap (ring_push g.out_ring ev).0 ≡ queue g)
      × IsValid ring_cap (ring_push g.out_ring ev).0
unfolding ring_push
pushes g ev v = contents-push ring_cap (omega arith) (2 ^ 64) g.out_ring ev v

-- What an answer tells of the queue, which was `q`.
abbrev pub Queued : RawMsg → List OrderEvent → Gateway × Ack → Type 0
Queued m q r =
    (r.1.status ≡ AckStatus.accepted
      → (ev : OrderEvent) × (queue r.0 ≡ q ++ (ev ∷ [])) × Carries m r.1.server_order_id ev)
    × (r.1.status ≢ AckStatus.accepted → queue r.0 ≡ q)
    × IsValid ring_cap r.0.out_ring

Queued-enqueue :
    (m : RawMsg) (g : Gateway) (ev : OrderEvent) (id : ℕ) (t : GwClock)
    → IsValid ring_cap g.out_ring
    → Carries m id ev
    → Queued m (queue g) (enqueue g ev id t)
unfolding enqueue
Queued-enqueue m g ev id t v carries =
    let (full, dropped, valid) = pushes g ev v in
    elim (Bool-cases (ring_push g.out_ring ev).1) [
      | inl pushed ↦ rw pushed ((λ h. (ev, full pushed, carries)), (λ h. absurd (h refl)), valid)
      | inr lost ↦ rw lost ((λ h. absurd (ground (arith, h))), (λ h. dropped lost), valid)
    ]

Carries-stage_c :
    (g : Gateway) (m : RawMsg) (t now : ℕ)
    → let c = stage_c_admit g (stage_b_normalize m) t now in
      c.1.status ≡ AckStatus.accepted → Carries m c.1.server_id c.1.event
unfolding stage_c_admit stage_b_normalize deduplicate assign
Carries-stage_c g m t now h = record {
  server_id = ground (arith, h);
  account = ground (arith, h);
  key = ground (arith, h);
  action = ground (arith, h);
  type = ground (arith, h);
  side = ground (arith, h);
  price = ground (arith, h);
  trigger_price = ground (arith, h);
  qty = ground (arith, h);
  target = ground (arith, h);
  source = ground (arith, h);
  lifetime = ground (arith, h);
  changed_price = ground (arith, h);
  changed_qty = ground (arith, h);
}

-- An admission that is not an acceptance leaves the ring.
finish-refused :
    (g : Gateway) (a : Admission) (t : GwClock)
    → a.status ≢ AckStatus.accepted
    → ((finish g a t).1.status ≢ AckStatus.accepted) × ((finish g a t).0.out_ring ≡ g.out_ring)
unfolding finish count_refused
finish-refused g a t h = (λ e. ground (arith, h, e), ground (arith, h))

finish-accepted :
    (g : Gateway) (a : Admission) (t : GwClock)
    → a.status ≡ AckStatus.accepted
    → finish g a t ≡ enqueue g a.event a.server_id t
unfolding finish
finish-accepted g a t h = ground (arith, h)

is_accepted : (s : AckStatus) → (s ≡ AckStatus.accepted) ⊎ (s ≢ AckStatus.accepted)
is_accepted s = ground arith

Queued-unchanged :
    (m : RawMsg) (g : Gateway) (r : Gateway × Ack)
    → IsValid ring_cap g.out_ring
    → r.1.status ≢ AckStatus.accepted
    → r.0.out_ring ≡ g.out_ring
    → Queued m (queue g) r
Queued-unchanged m g r v refused same = (
  (λ h. absurd (refused h)),
  (λ h. ap (contents ring_cap) same),
  subst (IsValid ring_cap) (sym same) v,
)

-- On a gateway whose ring indices lie inside the buffer, a submission that is accepted adds one
-- event at the end of the queue, which has every field of the message, from its source and action
-- to its lifetime and the new price and quantity of a change, under the acknowledged id; any other
-- answer leaves the queue as it was; and the ring indices stay inside the buffer.
pub submit-Queued :
    (g : Gateway) (m : RawMsg) (t : GwClock)
    → IsValid ring_cap g.out_ring
    → Queued m (queue g) (submit g m t)
unfolding submit
submit-Queued g m t v = elim (Option-cases (stage_a_ingress m)) [
  | inr (err, bad) ↦ rw (submit, bad) ((λ h. absurd (ground (arith, h))), (λ h. refl), v)
  | inl fine ↦
      rw (submit, fine)
        (elim (is_accepted c.1.status) [
          | inr refused ↦
              let (status, ring) = finish-refused c.0 c.1 t refused in
              Queued-unchanged m g (finish c.0 c.1 t) v status (ring ∙ kept)
          | inl ok ↦ rw (finish-accepted c.0 c.1 t ok) (
              subst (λ q. Queued m q (enqueue c.0 c.1.event c.1.server_id t))
                (ap (contents ring_cap) kept)
                (Queued-enqueue m c.0 c.1.event c.1.server_id t
                  (subst (IsValid ring_cap) (sym kept) v)
                  (Carries-stage_c g m t.ingress t.normalized ok)))
        ])
]
  where
    c : Gateway × Admission
    c = stage_c_admit g (stage_b_normalize m) t.ingress t.normalized

    kept : c.0.out_ring ≡ g.out_ring
    kept = ring-stage_c g (stage_b_normalize m) t.ingress t.normalized
