-- ===== src/Bridge/Registry.antt =====
-- bridge/bridge.c, the registry of orders and the queue of events.
pub mod Queue
use profit_playground.Common.{
  ℕ, ◌+◌, ◌-◌, ◌%◌, ◌^◌, ◌<◌, Bool, true, ◌||◌, not, if◌then◌else◌, ◌==◌, ltb, leb, update, Option,
  none, some,
}
use profit_playground.Common.Words.{add64, add32}
use profit_playground.Bridge.State.{
  BridgePipeline, BridgeEvent, OrderSlot, OrderStatus, OrderView, Kind, zero_bridge_event,
  event_queue_cap, order_registry_cap,
}

-- The index of an exposed id in the registry of its symbol.
abbrev pub local_of : BridgePipeline → ℕ → ℕ
local_of bp order_id = order_id - bp.id_base - 1

-- `slot_for`, as the index of the slot.
unfoldable pub slot_for : BridgePipeline → ℕ → Option ℕ
slot_for bp order_id =
    if order_id == 0 || leb order_id bp.id_base
    then none
    else if leb order_registry_cap (local_of bp order_id)
    then none
    else if (bp.orders (local_of bp order_id)).order_id == order_id
    then some (local_of bp order_id)
    else none

-- `(i + 1) % BRIDGE_EVENT_QUEUE_CAP`
abbrev pub next_event : ℕ → ℕ
next_event i = add32 i 1 % event_queue_cap

-- A full queue drops its oldest event.
unfoldable pub push_event : BridgePipeline → BridgeEvent → BridgePipeline
push_event bp ev =
    let seq = add64 bp.next_seq 1 in
    let next = next_event bp.evq_head in
    let full = next == bp.evq_tail in
    record bp {
      next_seq = seq;
      evq_tail = if full then next_event bp.evq_tail else bp.evq_tail;
      evq_dropped = if full then add64 bp.evq_dropped 1 else bp.evq_dropped;
      evq = update bp.evq bp.evq_head (record ev { seq = seq });
      evq_head = next;
    }

-- `bridge_poll_event`, for a handle and a buffer that are not NULL.
unfoldable pub poll_event : BridgePipeline → BridgePipeline × Option BridgeEvent
poll_event bp =
    if bp.evq_tail == bp.evq_head
    then (bp, none)
    else (record bp { evq_tail = next_event bp.evq_tail }, some (bp.evq bp.evq_tail))

-- 0 for an id of the engine that is not mapped.
unfoldable pub gw_from_me : BridgePipeline → ℕ → ℕ
gw_from_me bp me_id =
    if me_id == 0 || ltb order_registry_cap me_id then 0 else bp.me_to_gw (me_id - 1)

-- `slot_apply_fill`, on a slot.
unfoldable pub apply_fill : OrderSlot → ℕ → ℕ → OrderSlot
apply_fill s qty ts =
    let remain = if leb qty s.qty_remain then s.qty_remain - qty else 0 in
    record s {
      qty_filled = add64 s.qty_filled qty;
      qty_remain = remain;
      status = if remain == 0 then OrderStatus.filled else OrderStatus.partial;
      updated_ts_ns = ts;
      touched = true;
    }

abbrev pub set_slot : BridgePipeline → ℕ → OrderSlot → BridgePipeline
set_slot bp i s = record bp { orders = update bp.orders i s }

-- `slot_apply_fill`; nothing happens where there is no slot.
unfoldable pub slot_apply_fill : BridgePipeline → Option ℕ → ℕ → ℕ → BridgePipeline
slot_apply_fill bp none qty ts = bp
slot_apply_fill bp (some i) qty ts = set_slot bp i (apply_fill (bp.orders i) qty ts)

-- The state of a slot as an event.
abbrev pub order_event_of : OrderSlot → ℕ → BridgeEvent
order_event_of s ts = record zero_bridge_event {
  kind = Kind.order;
  ts_ns = ts;
  order_id = s.order_id;
  account_id = s.account_id;
  side = s.side;
  type = s.type;
  price = s.price;
  qty_original = s.qty_original;
  qty_remain = s.qty_remain;
  qty_filled = s.qty_filled;
  status = s.status;
}

unfoldable pub emit_order_snapshot : BridgePipeline → OrderSlot → ℕ → BridgePipeline
emit_order_snapshot bp s ts = push_event bp (order_event_of s ts)

-- `bridge_get_order`
unfoldable pub get_order : BridgePipeline → ℕ → Option OrderView
get_order bp order_id = elim (slot_for bp order_id) [
  | none ↦ none
  | some i ↦
      let s = bp.orders i in
      some (record {
        server_order_id = s.order_id;
        client_order_id = s.client_order_id;
        account_id = s.account_id;
        type = s.type;
        side = s.side;
        price = s.price;
        trigger_price = s.trigger_price;
        qty_original = s.qty_original;
        qty_remain = s.qty_remain;
        qty_filled = s.qty_filled;
        status = s.status;
        created_ts_ns = s.created_ts_ns;
        updated_ts_ns = s.updated_ts_ns;
      })
]
