-- ===== src/Pipeline/Gateway/FullRing.antt =====
-- A submission that meets a full out ring.
use profit_playground.Common.{ℕ, ◌≡◌, ◌≢◌, false, arith, none, List, ◌^◌, ◌+◌, ◌%◌}
use profit_playground.Ring
use profit_playground.Ring.{Ring, next}
use profit_playground.Pipeline.Idem.Recall.{HasRoomFor, idem_find-idem_insert}
use profit_playground.Pipeline.Message.{AckStatus, RawMsg, OrderEvent}
use profit_playground.Pipeline.Gateway.{
  Gateway, GwClock, ring_cap, submit, stage_a_ingress, stage_b_normalize, stage_c_admit, finish,
  enqueue, deduplicate, assign, rl_refill, rl_take, ring_push,
}
use profit_playground.Pipeline.Gateway.Policy.{
  Recalls, submit_all, Recalls-submit_all, duplicates, admitted,
}

ring-rl_refill : (g : Gateway) (now : ℕ) → (rl_refill g now).out_ring ≡ g.out_ring
unfolding rl_refill
ring-rl_refill g now = ground arith

ring-rl_take : (g : Gateway) → (rl_take g).0.out_ring ≡ g.out_ring
unfolding rl_take
ring-rl_take g = ground arith

-- Stage C does not touch the ring.
pub ring-stage_c :
    (g : Gateway) (ev : OrderEvent) (t now : ℕ) → (stage_c_admit g ev t now).0.out_ring ≡ g.out_ring
unfolding stage_c_admit deduplicate assign
ring-stage_c g ev t now = ground (arith, ring-rl_refill g t, ring-rl_take (rl_refill g t))

-- The ring after a push that did not succeed.
abbrev pub one_dropped : Ring OrderEvent → Ring OrderEvent
one_dropped r = record r { dropped = (r.dropped + 1) % 2 ^ 64 }

push_full :
    (r : Ring OrderEvent) (ev : OrderEvent)
    → next ring_cap r.head ≡ r.tail
    → ring_push r ev ≡ (one_dropped r, false)
unfolding ring_push Ring.push
push_full r ev full = ground (arith, full)

at_full :
    (g : Gateway) (m : RawMsg) (t : GwClock)
    → stage_a_ingress m ≡ none
    → (stage_c_admit g (stage_b_normalize m) t.ingress t.normalized).1.status ≡ AckStatus.accepted
    → next ring_cap g.out_ring.head ≡ g.out_ring.tail
    → ((submit g m t).1.status ≡ AckStatus.throttled)
      × ((submit g m t).0.out_ring ≡ one_dropped g.out_ring)
      × ((submit g m t).0.idem
          ≡ (stage_c_admit g (stage_b_normalize m) t.ingress t.normalized).0.idem)
unfolding submit finish enqueue
at_full g m t passed ok full =
    let c = stage_c_admit g (stage_b_normalize m) t.ingress t.normalized in
    let same = ring-stage_c g (stage_b_normalize m) t.ingress t.normalized in
    let pushed : ring_push c.0.out_ring c.1.event ≡ (one_dropped c.0.out_ring, false) =
      push_full c.0.out_ring c.1.event (rw same full) in
    (
      ground (arith, passed, ok, pushed),
      ground (arith, passed, ok, pushed, same),
      ground (arith, passed, ok, pushed),
    )

-- A client order id other than 0 that is accepted by the stages, with an idempotency cache that
-- has room for it, and meets a full ring is answered as throttled and nothing is queued, yet the
-- id is recalled, so that no later submission of it is accepted.
pub full_ring_loses :
    (g : Gateway) (m : RawMsg) (t : GwClock) (later : List (RawMsg × GwClock)) (again : RawMsg)
    (t' : GwClock)
    → m.client_order_id ≢ 0
    → HasRoomFor g.idem m.account_id m.client_order_id
    → stage_a_ingress m ≡ none
    → (stage_c_admit g (stage_b_normalize m) t.ingress t.normalized).1.status ≡ AckStatus.accepted
    → next ring_cap g.out_ring.head ≡ g.out_ring.tail
    → again.account_id ≡ m.account_id
    → again.client_order_id ≡ m.client_order_id
    → ((submit g m t).1.status ≡ AckStatus.throttled)
      × ((submit g m t).0.out_ring ≡ one_dropped g.out_ring)
      × ((submit (submit_all (submit g m t).0 later) again t').1.status ≢ AckStatus.accepted)
unfolding stage_b_normalize
full_ring_loses g m t later again t' key room passed ok full same_account same_key = (
  refused.0,
  refused.1,
  (duplicates _ again t' id (
      rw (same_account, same_key)
        (Recalls-submit_all (submit g m t).0 later _ _ _ (recalled refused.2)))).0,
)
  where
    g' : Gateway
    g' = (stage_c_admit g (stage_b_normalize m) t.ingress t.normalized).0

    id : ℕ
    id = (stage_c_admit g (stage_b_normalize m) t.ingress t.normalized).1.server_id

    refused :
        ((submit g m t).1.status ≡ AckStatus.throttled)
        × ((submit g m t).0.out_ring ≡ one_dropped g.out_ring)
        × ((submit g m t).0.idem ≡ g'.idem)
    refused = at_full g m t passed ok full

    recalled :
        (submit g m t).0.idem ≡ g'.idem → Recalls (submit g m t).0 m.account_id m.client_order_id id
    recalled kept =
        let (fresh, added) = admitted g (stage_b_normalize m) t.ingress t.normalized ok in
        rw (kept, added)
          (idem_find-idem_insert g.idem m.account_id m.client_order_id _ key room fresh)
