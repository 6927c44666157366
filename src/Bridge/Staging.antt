-- ===== src/Bridge/Staging.antt =====
-- bridge/bridge.c, `on_bus_event` and `process_staged_events`.
pub mod Kept
use profit_playground.Common.{
  ℕ, ◌+◌, ◌-◌, ◌^◌, Bool, true, false, ◌&&◌, ◌||◌, if◌then◌else◌, ◌==◌, ltb, leb, List, [], ◌∷◌,
  ◌++◌, length, Option, none, some,
}
use profit_playground.Common.Words.{add64}
use profit_playground.Engine.State.{Event, EventType, Trade}
use profit_playground.Pipeline.Bus.{Topic, Msg, Payload}
use profit_playground.Bridge.State.{
  BridgePipeline, BridgeEvent, OrderSlot, OrderStatus, Kind, zero_bridge_event, stage_cap,
}
use profit_playground.Bridge.Registry.{
  slot_for, push_event, gw_from_me, slot_apply_fill, set_slot, emit_order_snapshot,
}

abbrev pub is_order_or_trade : Topic → Bool
is_order_or_trade Topic.order = true
is_order_or_trade Topic.trade = true
is_order_or_trade _ = false

abbrev pub is_book_updated : EventType → Bool
is_book_updated EventType.book_updated = true
is_book_updated _ = false

abbrev pub is_trade : EventType → Bool
is_trade EventType.trade = true
is_trade _ = false

abbrev pub is_cancelled_event : EventType → Bool
is_cancelled_event EventType.cancelled = true
is_cancelled_event _ = false

abbrev is_modified : EventType → Bool
is_modified EventType.modified = true
is_modified _ = false

-- The copy into the staging array; a full one drops the event.
abbrev pub stage : BridgePipeline → Event → BridgePipeline
stage bp ev =
    if ltb (length bp.staged) stage_cap
    then record bp { staged = bp.staged ++ (ev ∷ []) }
    else record bp { evq_dropped = add64 bp.evq_dropped 1 }

-- The payload of a message of these topics is an event of the engine.
unfoldable pub stage_payload : BridgePipeline → Topic → Payload → BridgePipeline
stage_payload bp topic (Payload.event ev) =
    if is_order_or_trade topic then (if is_book_updated ev.type then bp else stage bp ev) else bp
stage_payload bp topic (Payload.ack a) = bp
stage_payload bp topic (Payload.reason r) = bp

unfoldable pub on_bus_event : BridgePipeline → Msg → BridgePipeline
on_bus_event bp msg = stage_payload bp msg.topic msg.payload

abbrev account_of : BridgePipeline → Option ℕ → ℕ
account_of bp none = 0
account_of bp (some i) = (bp.orders i).account_id

abbrev trade_event : BridgePipeline → Trade → ℕ → ℕ → Option ℕ → Option ℕ → BridgeEvent
trade_event bp t agg_gw rest_gw agg rest = record zero_bridge_event {
  kind = Kind.trade;
  ts_ns = t.ts;
  trade_id = t.trade_id;
  aggressor_id = agg_gw;
  resting_id = rest_gw;
  aggressor_side = t.aggressor_side;
  trade_price = t.price;
  trade_qty = t.qty;
  aggressor_account_id = account_of bp agg;
  resting_account_id = account_of bp rest;
}

-- The new state of the resting order, where it has a slot.
unfoldable pub emit_resting : BridgePipeline → Option ℕ → ℕ → BridgePipeline
emit_resting bp none ts = bp
emit_resting bp (some i) ts = emit_order_snapshot bp (bp.orders i) ts

-- A trade advances both orders, and is published with the new state of the resting one.
unfoldable pub process_trade : BridgePipeline → Trade → BridgePipeline
process_trade bp t =
    let agg_gw = gw_from_me bp t.aggressor_id in
    let rest_gw = gw_from_me bp t.resting_id in
    let agg = slot_for bp agg_gw in
    let rest = slot_for bp rest_gw in
    let bp2 = slot_apply_fill (slot_apply_fill bp agg t.qty t.ts) rest t.qty t.ts in
    emit_resting (push_event bp2 (trade_event bp2 t agg_gw rest_gw agg rest)) rest t.ts

-- CANCELLED and REJECTED of a slot that an event has touched.
abbrev pub is_terminal : OrderSlot → Bool
is_terminal s = s.touched && is_dead s.status
  where
    is_dead : OrderStatus → Bool
    is_dead OrderStatus.cancelled = true
    is_dead OrderStatus.rejected = true
    is_dead _ = false

-- The `switch` on the type of the event.
unfoldable pub status_of : Event → OrderStatus
status_of ev = elim (ev.type) [
  | EventType.cancelled ↦ OrderStatus.cancelled
  | EventType.rejected ↦ OrderStatus.rejected
  | EventType.filled ↦ OrderStatus.filled
  | EventType.partial ↦ OrderStatus.partial
  | other ↦ if ev.qty_remain == 0 then OrderStatus.filled else OrderStatus.opened
]

-- The quantities and the price of the slot.
unfoldable pub update_amounts : OrderSlot → Event → OrderSlot
update_amounts s ev =
    if is_cancelled_event ev.type
    then record s { qty_remain = 0 }
    else if is_modified ev.type
    then record s { price = ev.price; qty_remain = ev.qty_remain }
    else record s {
      qty_remain = ev.qty_remain;
      qty_filled = if ltb s.qty_filled ev.qty_filled then ev.qty_filled else s.qty_filled;
    }

-- OPEN becomes PARTIAL where something is filled.
abbrev partial_if_filled : OrderStatus → ℕ → OrderStatus
partial_if_filled OrderStatus.opened qty_filled =
    if ltb 0 qty_filled then OrderStatus.partial else OrderStatus.opened
partial_if_filled status qty_filled = status

-- The slot after an event of its order.
unfoldable pub update_slot : OrderSlot → Event → OrderSlot
update_slot s ev =
    let s' = update_amounts (record s { touched = true; updated_ts_ns = ev.ts }) ev in
    record s' { status = partial_if_filled (status_of ev) s'.qty_filled }

-- The event of an order without a slot.
abbrev bare_event : Event → ℕ → BridgeEvent
bare_event ev gw_id = record zero_bridge_event {
  kind = Kind.order;
  ts_ns = ev.ts;
  order_id = gw_id;
  side = ev.side;
  type = ev.order_type;
  price = ev.price;
  qty_original = ev.qty_original;
  qty_remain = ev.qty_remain;
  qty_filled = ev.qty_filled;
  status = status_of ev;
}

-- What follows the search for the slot.
unfoldable pub update_order : BridgePipeline → Event → ℕ → Option ℕ → BridgePipeline
update_order bp ev gw_id none = push_event bp (bare_event ev gw_id)
update_order bp ev gw_id (some i) =
    let s = update_slot (bp.orders i) ev in
    if is_terminal (bp.orders i) then bp else emit_order_snapshot (set_slot bp i s) s ev.ts

unfoldable pub process_order_event : BridgePipeline → Event → BridgePipeline
process_order_event bp ev =
    let gw_id = gw_from_me bp ev.order_id in
    if gw_id == 0 then bp else update_order bp ev gw_id (slot_for bp gw_id)

unfoldable pub process_event : BridgePipeline → Event → BridgePipeline
process_event bp ev =
    if is_trade ev.type then process_trade bp ev.trade else process_order_event bp ev

unfoldable pub process_events : BridgePipeline → List Event → BridgePipeline
process_events bp [] = bp
process_events bp (ev ∷ evs) = process_events (process_event bp ev) evs

-- `process_staged_events`
unfoldable pub process_staged_events : BridgePipeline → BridgePipeline
process_staged_events bp = record (process_events bp bp.staged) { staged = [] }
