-- ===== src/Bridge/Submit/Outcome.antt =====
-- bridge/bridge.c, `bridge_submit`: what a submission leaves in the registry of orders.
use profit_playground.Common.{
  ℕ, ◌<◌, ◌≡◌, ◌≢◌, refl, ◌∙◌, subst, true, some, arith, update_self, update_ne,
}
use profit_playground.Pipeline.Message.{Ack, Action, is_new}
use profit_playground.Pipeline.Gateway.{GwClock}
use profit_playground.Pipeline.State.{Pipeline, pipeline_submit}
use profit_playground.Bridge.State.{
  BridgePipeline, BridgeMsg, BridgeAck, OrderSlot, order_registry_cap,
}
use profit_playground.Bridge.Registry.{local_of, slot_for, push_event}
use profit_playground.Bridge.Staging.Kept.{SameOrder}
use profit_playground.Bridge.Submit.Kept.{processed, Kept-processed, Kept-finished}
use profit_playground.Bridge.Submit.{
  target_of, new_slot, fresh_slot, pre_register, reject_untouched, run_accepted, is_accepted,
  forward, submit, to_gateway, bridge_ack,
}

-- The slot of an order that was accepted is touched in the end.
touched-reject_untouched :
    (bp : BridgePipeline) (i : ℕ) (ack : Ack)
    → (bp.orders i).order_id ≡ ack.server_order_id
    → ((reject_untouched bp (some i) ack).orders i).touched ≡ true
unfolding reject_untouched push_event
touched-reject_untouched bp i ack h = ground (arith, h)

new_slot_lem :
    (bp : BridgePipeline) (action : Action) (id : ℕ)
    → is_new action ≡ true
    → bp.id_base < id
    → local_of bp id < order_registry_cap
    → new_slot bp action id ≡ some (local_of bp id)
unfolding new_slot
new_slot_lem bp action id new above small = ground (arith, new, above, small)

-- The slot holds the order of a message under an id, and an event has touched it.
pub record IsSettled (m : BridgeMsg) (id : ℕ) (s : OrderSlot) : Type 0 where
  pub order_id_of : s.order_id ≡ id
  pub client_of : s.client_order_id ≡ m.client_order_id
  pub account_of : s.account_id ≡ m.account_id
  pub type_of : s.type ≡ m.type
  pub side_of : s.side ≡ m.side
  pub trigger_of : s.trigger_price ≡ m.trigger_price
  pub original_of : s.qty_original ≡ m.qty
  pub touched_of : s.touched ≡ true

settled :
    (m : BridgeMsg) (ack : Ack) (s : OrderSlot)
    → SameOrder (fresh_slot m ack) s
    → s.touched ≡ true
    → IsSettled m ack.server_order_id s
unfolding fresh_slot
settled m ack s k touched = record {
  order_id_of = k.order_id_kept;
  client_of = k.client_kept;
  account_of = k.account_kept;
  type_of = k.type_kept;
  side_of = k.side_kept;
  trigger_of = k.trigger_kept;
  original_of = k.original_kept;
  touched_of = touched;
}

fresh_slot-order_id :
    (m : BridgeMsg) (ack : Ack) → (fresh_slot m ack).order_id ≡ ack.server_order_id
unfolding fresh_slot
fresh_slot-order_id m ack = refl

-- What the registry holds after an accepted new order.
run_accepted-IsSettled :
    (bp : BridgePipeline) (m : BridgeMsg) (ack : Ack) (i : ℕ)
    → new_slot bp m.action ack.server_order_id ≡ some i
    → let bp' = run_accepted bp m ack in
      (bp'.id_base ≡ bp.id_base)
      × IsSettled m ack.server_order_id (bp'.orders i)
      × ((j : ℕ) → j ≢ i → SameOrder (bp.orders j) (bp'.orders j))
unfolding run_accepted pre_register
run_accepted-IsSettled bp m ack i found =
    let k = Kept-finished bp (some i) m ack in
    let here : SameOrder (fresh_slot m ack) ((processed bp (some i) m ack).orders i) =
      subst (λ s. SameOrder s ((processed bp (some i) m ack).orders i))
        (update_self bp.orders i (fresh_slot m ack))
        ((Kept-processed bp (some i) m ack).slots_kept i) in
    rw found (
      k.base_kept,
      settled m ack _
          (subst
            (λ s.
              SameOrder s ((reject_untouched (processed bp (some i) m ack) (some i) ack).orders i))
            (update_self bp.orders i (fresh_slot m ack)) (k.slots_kept i))
          (touched-reject_untouched (processed bp (some i) m ack) i ack
            (here.order_id_kept ∙ fresh_slot-order_id m ack)),
      λ j ne.
          subst
            (λ s.
              SameOrder s ((reject_untouched (processed bp (some i) m ack) (some i) ack).orders j))
            (update_ne bp.orders i (fresh_slot m ack) j ne) (k.slots_kept j),
    )

target_of-new :
    (bp : BridgePipeline) (m : BridgeMsg) → is_new m.action ≡ true → target_of bp m ≡ some 0
unfolding target_of
target_of-new bp m new = ground (arith, new)

-- What the gateway makes of a new order.
abbrev admitted : BridgePipeline → BridgeMsg → GwClock → Pipeline × Ack
admitted bp m t = pipeline_submit bp.pl (to_gateway m 0) t

submit-new :
    (bp : BridgePipeline) (m : BridgeMsg) (t : GwClock)
    → is_new m.action ≡ true
    → submit bp m t ≡ forward bp m 0 t
unfolding submit
submit-new bp m t new = rw (submit, target_of-new bp m new) refl

ack-forward :
    (bp : BridgePipeline) (m : BridgeMsg) (t : GwClock)
    → (forward bp m 0 t).1 ≡ bridge_ack (admitted bp m t).1
unfolding forward
ack-forward bp m t = refl

forward-accepted :
    (bp : BridgePipeline) (m : BridgeMsg) (t : GwClock)
    → is_accepted (admitted bp m t).1.status ≡ true
    → (forward bp m 0 t).0
      ≡ run_accepted (record bp { pl = (admitted bp m t).0 }) m (admitted bp m t).1
unfolding forward
forward-accepted bp m t yes_accepted = rw yes_accepted refl

-- The registry after a call that acknowledged the order of a message: the order is found under its
-- id, and the other slots are as they were.
pub record Settles (bp : BridgePipeline) (m : BridgeMsg) (res : BridgePipeline × BridgeAck)
    : Type 0 where
  pub slot_found : slot_for res.0 res.1.server_order_id ≡ some (local_of bp res.1.server_order_id)
  pub slot_settled :
      IsSettled m res.1.server_order_id (res.0.orders (local_of bp res.1.server_order_id))
  pub others_kept :
      (j : ℕ) → j ≢ local_of bp res.1.server_order_id → SameOrder (bp.orders j) (res.0.orders j)

at_base :
    (bp bp' : BridgePipeline) (id : ℕ)
    → bp'.id_base ≡ bp.id_base
    → bp.id_base < id
    → local_of bp id < order_registry_cap
    → (bp'.orders (local_of bp id)).order_id ≡ id
    → slot_for bp' id ≡ some (local_of bp id)
unfolding slot_for
at_base bp bp' id base above small same = rw (base) (ground (arith, above, small, same, base))

forward-Settles :
    (bp : BridgePipeline) (m : BridgeMsg) (t : GwClock)
    → is_new m.action ≡ true
    → is_accepted (forward bp m 0 t).1.status ≡ true
    → bp.id_base < (forward bp m 0 t).1.server_order_id
    → local_of bp (forward bp m 0 t).1.server_order_id < order_registry_cap
    → Settles bp m (forward bp m 0 t)
forward-Settles bp m t new = rw (ack-forward bp m t) (λ yes_accepted above small.
    let bp1 : BridgePipeline = record bp { pl = (admitted bp m t).0 } in
    let ack = (admitted bp m t).1 in
    let i = local_of bp ack.server_order_id in
    let done = forward-accepted bp m t yes_accepted in
    let (base, holds, others) =
      run_accepted-IsSettled bp1 m ack i
        (new_slot_lem bp1 m.action ack.server_order_id new above small) in
    record {
      slot_found = rw done (at_base bp _ ack.server_order_id base above small holds.order_id_of);
      slot_settled = rw done holds;
      others_kept = rw done others;
    })

-- A new order that the bridge answers ACCEPTED, under an id within the registry of its symbol, is
-- found under that id afterwards, with the ids, the account, the type, the side, the trigger price
-- and the quantity of its message, and an event has touched it; every other slot of the registry
-- still describes the order that it described before.
pub submit-Settles :
    (bp : BridgePipeline) (m : BridgeMsg) (t : GwClock)
    → is_new m.action ≡ true
    → is_accepted (submit bp m t).1.status ≡ true
    → bp.id_base < (submit bp m t).1.server_order_id
    → local_of bp (submit bp m t).1.server_order_id < order_registry_cap
    → Settles bp m (submit bp m t)
submit-Settles bp m t new = rw (submit-new bp m t new) (forward-Settles bp m t new)
