-- ===== src/Bridge/Staging/Kept.antt =====
-- bridge/bridge.c: what the handling of events leaves in the registry of orders.
use profit_playground.Common.{
  ℕ, ◌≡◌, refl, ◌∙◌, Bool, true, false, inl, inr, Bool-cases, ==_iff, Option, none, some, List, [],
  ◌∷◌, arith, if◌then◌else◌, ◌==◌, ltb, length, update, update_self,
}
use profit_playground.Engine.State.{Event, Trade}
use profit_playground.Pipeline.Bus.{Msg, Payload, Topic}
use profit_playground.Bridge.State.{BridgePipeline, BridgeEvent, OrderSlot, stage_cap}
use profit_playground.Bridge.Registry.{
  slot_for, push_event, gw_from_me, apply_fill, slot_apply_fill, set_slot, emit_order_snapshot,
}
use profit_playground.Bridge.Staging.{
  on_bus_event, stage_payload, stage, is_order_or_trade, is_book_updated, emit_resting,
  update_order, is_terminal, is_trade, process_trade, update_amounts, update_slot,
  process_order_event, process_event, process_events, process_staged_events,
}

-- A slot that another one describes too: the order and what its owner asked for, apart from the
-- price, which an amendment moves. An order that an event has touched stays touched.
pub record SameOrder (s s' : OrderSlot) : Type 0 where
  pub order_id_kept : s'.order_id ≡ s.order_id
  pub client_kept : s'.client_order_id ≡ s.client_order_id
  pub account_kept : s'.account_id ≡ s.account_id
  pub type_kept : s'.type ≡ s.type
  pub side_kept : s'.side ≡ s.side
  pub trigger_kept : s'.trigger_price ≡ s.trigger_price
  pub original_kept : s'.qty_original ≡ s.qty_original
  pub created_kept : s'.created_ts_ns ≡ s.created_ts_ns
  pub touched_kept : s.touched ≡ true → s'.touched ≡ true

pub SameOrder-refl : (s : OrderSlot) → SameOrder s s
SameOrder-refl s = record {
  order_id_kept = refl;
  client_kept = refl;
  account_kept = refl;
  type_kept = refl;
  side_kept = refl;
  trigger_kept = refl;
  original_kept = refl;
  created_kept = refl;
  touched_kept = λ h. h;
}

pub SameOrder-trans : (s t u : OrderSlot) → SameOrder s t → SameOrder t u → SameOrder s u
SameOrder-trans s t u p q = record {
  order_id_kept = q.order_id_kept ∙ p.order_id_kept;
  client_kept = q.client_kept ∙ p.client_kept;
  account_kept = q.account_kept ∙ p.account_kept;
  type_kept = q.type_kept ∙ p.type_kept;
  side_kept = q.side_kept ∙ p.side_kept;
  trigger_kept = q.trigger_kept ∙ p.trigger_kept;
  original_kept = q.original_kept ∙ p.original_kept;
  created_kept = q.created_kept ∙ p.created_kept;
  touched_kept = λ h. q.touched_kept (p.touched_kept h);
}

SameOrder-apply_fill : (s : OrderSlot) (qty ts : ℕ) → SameOrder s (apply_fill s qty ts)
unfolding apply_fill
SameOrder-apply_fill s qty ts = record {
  order_id_kept = refl;
  client_kept = refl;
  account_kept = refl;
  type_kept = refl;
  side_kept = refl;
  trigger_kept = refl;
  original_kept = refl;
  created_kept = refl;
  touched_kept = λ h. refl;
}

SameOrder-update_slot : (s : OrderSlot) (ev : Event) → SameOrder s (update_slot s ev)
unfolding update_slot update_amounts
SameOrder-update_slot s ev = record {
  order_id_kept = ground arith;
  client_kept = ground arith;
  account_kept = ground arith;
  type_kept = ground arith;
  side_kept = ground arith;
  trigger_kept = ground arith;
  original_kept = ground arith;
  created_kept = ground arith;
  touched_kept = λ h. ground arith;
}

-- Every slot of the registry still describes its order, under the offset of the symbol.
pub record Kept (bp bp' : BridgePipeline) : Type 0 where
  pub base_kept : bp'.id_base ≡ bp.id_base
  pub slots_kept : (i : ℕ) → SameOrder (bp.orders i) (bp'.orders i)

pub Kept-refl : (bp : BridgePipeline) → Kept bp bp
Kept-refl bp = record { base_kept = refl; slots_kept = λ i. SameOrder-refl (bp.orders i) }

pub Kept-trans : (a b c : BridgePipeline) → Kept a b → Kept b c → Kept a c
Kept-trans a b c p q = record {
  base_kept = q.base_kept ∙ p.base_kept;
  slots_kept =
      λ i. SameOrder-trans (a.orders i) (b.orders i) (c.orders i) (p.slots_kept i) (q.slots_kept i);
}

pub SameOrder-update :
    (f : ℕ → OrderSlot) (i : ℕ) (s : OrderSlot)
    → SameOrder (f i) s
    → (j : ℕ) → SameOrder (f j) (update f i s j)
SameOrder-update f i s h j = elim (Bool-cases (j == i)) [
  | inl same ↦ let e : j ≡ i = (==_iff j i).0 same in rw e (rw (update_self f i s) h)
  | inr other ↦ rw other (SameOrder-refl (f j))
]

pub Kept-set_slot :
    (bp : BridgePipeline) (i : ℕ) (s : OrderSlot)
    → SameOrder (bp.orders i) s
    → Kept bp (set_slot bp i s)
Kept-set_slot bp i s h = record { base_kept = refl; slots_kept = SameOrder-update bp.orders i s h }

pub Kept-push_event : (bp : BridgePipeline) (ev : BridgeEvent) → Kept bp (push_event bp ev)
unfolding push_event
Kept-push_event bp ev = record { base_kept = refl; slots_kept = λ i. SameOrder-refl (bp.orders i) }

Kept-slot_apply_fill :
    (bp : BridgePipeline) (slot : Option ℕ) (qty ts : ℕ) → Kept bp (slot_apply_fill bp slot qty ts)
unfolding slot_apply_fill
Kept-slot_apply_fill bp none qty ts = Kept-refl bp
Kept-slot_apply_fill bp (some i) qty ts =
    Kept-set_slot bp i _ (SameOrder-apply_fill (bp.orders i) qty ts)

pub Kept-if :
    (c : Bool) (bp a b : BridgePipeline) → Kept bp a → Kept bp b → Kept bp (if c then a else b)
Kept-if true bp a b p q = p
Kept-if false bp a b p q = q

Kept-emit_resting :
    (bp : BridgePipeline) (slot : Option ℕ) (ts : ℕ) → Kept bp (emit_resting bp slot ts)
unfolding emit_resting emit_order_snapshot
Kept-emit_resting bp none ts = Kept-refl bp
Kept-emit_resting bp (some i) ts = Kept-push_event bp _

Kept-process_trade : (bp : BridgePipeline) (t : Trade) → Kept bp (process_trade bp t)
unfolding process_trade
Kept-process_trade bp t =
    let agg = slot_for bp (gw_from_me bp t.aggressor_id) in
    let rest = slot_for bp (gw_from_me bp t.resting_id) in
    let bp1 = slot_apply_fill bp agg t.qty t.ts in
    let bp2 = slot_apply_fill bp1 rest t.qty t.ts in
    Kept-trans bp bp1 _ (Kept-slot_apply_fill bp agg t.qty t.ts) (
      Kept-trans bp1 bp2 _ (Kept-slot_apply_fill bp1 rest t.qty t.ts)
        (Kept-trans bp2 _ _ (Kept-push_event bp2 _) (Kept-emit_resting _ rest t.ts)))

Kept-update_order :
    (bp : BridgePipeline) (ev : Event) (gw_id : ℕ) (slot : Option ℕ)
    → Kept bp (update_order bp ev gw_id slot)
unfolding update_order emit_order_snapshot
Kept-update_order bp ev gw_id none = Kept-push_event bp _
Kept-update_order bp ev gw_id (some i) =
    Kept-if (is_terminal (bp.orders i)) bp bp _ (Kept-refl bp) (
      Kept-trans bp _ _ (Kept-set_slot bp i _ (SameOrder-update_slot (bp.orders i) ev))
        (Kept-push_event _ _))

Kept-process_event : (bp : BridgePipeline) (ev : Event) → Kept bp (process_event bp ev)
unfolding process_event process_order_event
Kept-process_event bp ev =
    Kept-if (is_trade ev.type) bp _ _ (Kept-process_trade bp ev.trade) (
      Kept-if (gw_from_me bp ev.order_id == 0) bp bp _ (Kept-refl bp) (Kept-update_order bp ev _ _))

Kept-process_events : (bp : BridgePipeline) (evs : List Event) → Kept bp (process_events bp evs)
unfolding process_events
Kept-process_events bp [] = Kept-refl bp
Kept-process_events bp (ev ∷ evs) =
    Kept-trans bp _ _ (Kept-process_event bp ev) (Kept-process_events (process_event bp ev) evs)

pub Kept-process_staged_events : (bp : BridgePipeline) → Kept bp (process_staged_events bp)
unfolding process_staged_events
Kept-process_staged_events bp =
    let k = Kept-process_events bp bp.staged in
    record { base_kept = k.base_kept; slots_kept = k.slots_kept }

Kept-stage : (bp : BridgePipeline) (ev : Event) → Kept bp (stage bp ev)
Kept-stage bp ev =
    Kept-if (ltb (length bp.staged) stage_cap) bp _ _
      (record { base_kept = refl; slots_kept = λ i. SameOrder-refl (bp.orders i) })
      (record { base_kept = refl; slots_kept = λ i. SameOrder-refl (bp.orders i) })

Kept-stage_payload :
    (bp : BridgePipeline) (topic : Topic) (p : Payload) → Kept bp (stage_payload bp topic p)
unfolding stage_payload
Kept-stage_payload bp topic (Payload.event ev) =
    Kept-if (is_order_or_trade topic) bp _ bp
      (Kept-if (is_book_updated ev.type) bp bp _ (Kept-refl bp) (Kept-stage bp ev)) (Kept-refl bp)
Kept-stage_payload bp topic (Payload.ack a) = Kept-refl bp
Kept-stage_payload bp topic (Payload.reason r) = Kept-refl bp

pub Kept-on_bus_event : (bp : BridgePipeline) (msg : Msg) → Kept bp (on_bus_event bp msg)
unfolding on_bus_event
Kept-on_bus_event bp msg = Kept-stage_payload bp msg.topic msg.payload
