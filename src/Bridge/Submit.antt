-- ===== src/Bridge/Submit.antt =====
-- bridge/bridge.c, `bridge_add_account`, `bridge_submit`, `bridge_cancel` and the market data, for a
-- handle that is not NULL. During `pipeline_step` the handler of the bus writes only the staging
-- array and a counter, which the pipeline does not read, so `deliver` runs it after the step.
pub mod Kept
pub mod Outcome
use profit_playground.Common.{
  ℕ, ◌-◌, ◌<◌, Bool, true, false, not, ◌&&◌, ◌||◌, if◌then◌else◌, ◌==◌, ltb, leb, update, List, [],
  ◌∷◌, map, Option, none, some,
}
use profit_playground.Common.Int.{ℤ, pos}
use profit_playground.Common.Words.{to_i64}
use profit_playground.Book.State.{Side, max_levels}
use profit_playground.Book.Query.{top_levels}
use profit_playground.Orders.State.{OrderType}
use profit_playground.Engine.State.{TopOfBook}
use profit_playground.Engine.Emit.{top_of_book}
use profit_playground.Pipeline.Bus.{Msg}
use profit_playground.Pipeline.Gateway.{GwClock}
use profit_playground.Pipeline.Message.{
  Source, Action, AckStatus, RawMsg, Ack, is_new, is_cancel, is_modify,
}
use profit_playground.Pipeline.State
use profit_playground.Pipeline.State.{pipeline_submit}
use profit_playground.Pipeline.Stages.{pipeline_step}
use profit_playground.Bridge.State.{
  BridgePipeline, BridgeMsg, BridgeAck, BridgeTop, OrderSlot, OrderStatus, zero_slot,
  order_registry_cap,
}
use profit_playground.Bridge.Registry.{local_of, slot_for, push_event, set_slot, order_event_of}
use profit_playground.Bridge.Staging.{on_bus_event, process_staged_events}
use Prim.Native.String.{String}

-- The number by which the bus calls `on_bus_event`.
abbrev pub bus_handler : ℕ
bus_handler = 0

-- `bridge_add_account`
unfoldable pub add_account : BridgePipeline → ℕ → ℤ → ℤ → ℤ → BridgePipeline
add_account bp account_id cash max_position max_order_notional = record bp {
  pl = State.add_account bp.pl account_id cash max_position max_order_notional;
}

-- The message as the gateway takes it; `target` is an id of the engine.
unfoldable pub to_gateway : BridgeMsg → ℕ → RawMsg
to_gateway m target = record {
  source = Source.api;
  action = m.action;
  client_order_id = m.client_order_id;
  account_id = m.account_id;
  type = m.type;
  side = m.side;
  price = m.price;
  trigger_price = m.trigger_price;
  qty = m.qty;
  ttl_ns = m.ttl_ns;
  target_order_id = target;
  new_price = m.new_price;
  new_qty = m.new_qty;
}

-- The engine's id of the order that a message is about; `none` where it is not known.
unfoldable pub target_of : BridgePipeline → BridgeMsg → Option ℕ
target_of bp m =
    let found : Option ℕ = elim (slot_for bp m.target_order_id) [
      | none ↦ none
      | some i ↦ if (bp.orders i).me_id == 0 then none else some (bp.orders i).me_id
    ] in
    if is_cancel m.action || is_modify m.action then found else some 0

abbrev pub refused : String → BridgeAck
refused reason = record {
  status = AckStatus.rejected;
  server_order_id = 0;
  ingress_ts_ns = 0;
  ack_ts_ns = 0;
  reject_reason = some reason;
}

abbrev pub bridge_ack : Ack → BridgeAck
bridge_ack ack = record {
  status = ack.status;
  server_order_id = ack.server_order_id;
  ingress_ts_ns = ack.ingress_ts_ns;
  ack_ts_ns = ack.ack_ts_ns;
  reject_reason = ack.reject_reason;
}

-- The slot of a new order; the sentinel BRIDGE_ORDER_REGISTRY_CAP is `none`.
unfoldable pub new_slot : BridgePipeline → Action → ℕ → Option ℕ
new_slot bp action id =
    if is_new action && ltb bp.id_base id && ltb (local_of bp id) order_registry_cap
    then some (local_of bp id)
    else none

-- The slot as it is before the step.
unfoldable pub fresh_slot : BridgeMsg → Ack → OrderSlot
fresh_slot m ack = record zero_slot {
  order_id = ack.server_order_id;
  client_order_id = m.client_order_id;
  account_id = m.account_id;
  type = m.type;
  side = m.side;
  price = m.price;
  trigger_price = m.trigger_price;
  qty_original = m.qty;
  qty_remain = m.qty;
  created_ts_ns = ack.ingress_ts_ns;
  updated_ts_ns = ack.ack_ts_ns;
}

unfoldable pub pre_register : BridgePipeline → Option ℕ → BridgeMsg → Ack → BridgePipeline
pre_register bp none m ack = bp
pre_register bp (some i) m ack = set_slot bp i (fresh_slot m ack)

-- The calls of the bus, in order.
unfoldable pub deliver_all : List (ℕ × Msg) → BridgePipeline → BridgePipeline
deliver_all [] bp = bp
deliver_all ((h, msg) ∷ calls) bp =
    deliver_all calls (if h == bus_handler then on_bus_event bp msg else bp)

unfoldable pub deliver : BridgePipeline → BridgePipeline
deliver bp = record (deliver_all bp.pl.calls bp) { pl = record (bp.pl) { calls = [] } }

-- The engine's id that the id map got last.
abbrev pub last_me_id : BridgePipeline → ℕ
last_me_id bp = (bp.pl.id_map (bp.pl.id_map_count - 1)).server_order_id

-- The two directions between the engine's id and the exposed one.
unfoldable pub link : BridgePipeline → ℕ → ℕ → ℕ → BridgePipeline
link bp i me_id id = record bp {
  orders = update bp.orders i (record (bp.orders i) { me_id = me_id });
  me_to_gw = update bp.me_to_gw (me_id - 1) id;
}

-- The engine's id of the order in the slot, where the step has entered one into the id map.
unfoldable pub capture_me_id : BridgePipeline → Option ℕ → ℕ → ℕ → BridgePipeline
capture_me_id bp none prev_idmap id = bp
capture_me_id bp (some i) prev_idmap id =
    if ltb prev_idmap bp.pl.id_map_count
    then (if leb 1 (last_me_id bp) && leb (last_me_id bp) order_registry_cap
        then link bp i (last_me_id bp) id
        else bp)
    else bp

abbrev pub is_untouched : OrderSlot → ℕ → Bool
is_untouched s id = s.order_id == id && not s.touched

-- The synthetic REJECTED event of an order that no event has touched.
unfoldable pub reject_untouched : BridgePipeline → Option ℕ → Ack → BridgePipeline
reject_untouched bp none ack = bp
reject_untouched bp (some i) ack =
    let s : OrderSlot = record (bp.orders i) { status = OrderStatus.rejected; touched = true } in
    if is_untouched (bp.orders i) ack.server_order_id
    then push_event (set_slot bp i s) (record (order_event_of s ack.ack_ts_ns) { qty_filled = 0 })
    else bp

-- What follows an acceptance of the gateway.
unfoldable pub run_accepted : BridgePipeline → BridgeMsg → Ack → BridgePipeline
run_accepted bp m ack =
    let slot = new_slot bp m.action ack.server_order_id in
    let pre = pre_register bp slot m ack in
    let stepped = deliver (record pre { pl = (pipeline_step pre.pl).0 }) in
    let mapped = capture_me_id stepped slot pre.pl.id_map_count ack.server_order_id in
    reject_untouched (process_staged_events mapped) slot ack

abbrev pub is_accepted : AckStatus → Bool
is_accepted AckStatus.accepted = true
is_accepted _ = false

-- The submission to the gateway, and what follows it.
unfoldable pub forward : BridgePipeline → BridgeMsg → ℕ → GwClock → BridgePipeline × BridgeAck
forward bp m target t =
    let (pl, ack) = pipeline_submit bp.pl (to_gateway m target) t in
    let bp' : BridgePipeline = record bp { pl = pl } in
    (if is_accepted ack.status then run_accepted bp' m ack else bp', bridge_ack ack)

-- `bridge_submit`
unfoldable pub submit : BridgePipeline → BridgeMsg → GwClock → BridgePipeline × BridgeAck
submit bp m t = elim (target_of bp m) [
  | none ↦ (bp, refused "unknown target order")
  | some target ↦ forward bp m target t
]

abbrev cancel_msg : ℕ → ℕ → BridgeMsg
cancel_msg order_id account_id = record {
  action = Action.cancel;
  client_order_id = 0;
  account_id = account_id;
  type = OrderType.limit;
  side = Side.bid;
  price = pos 0;
  trigger_price = pos 0;
  qty = 0;
  ttl_ns = 0;
  target_order_id = order_id;
  new_price = pos 0;
  new_qty = 0;
}

-- `bridge_cancel`
unfoldable pub cancel : BridgePipeline → ℕ → ℕ → GwClock → BridgePipeline × BridgeAck
cancel bp order_id account_id t = submit bp (cancel_msg order_id account_id) t

-- `bridge_top_of_book`
unfoldable pub top : BridgePipeline → BridgeTop
top bp =
    let t : TopOfBook = top_of_book bp.pl.engine.store.book in
    record {
      bid_price = t.bid_price;
      bid_qty = to_i64 t.bid_qty;
      ask_price = t.ask_price;
      ask_qty = to_i64 t.ask_qty;
      spread = t.spread;
      mid = t.mid;
    }

-- `bridge_book_levels`: the two output arrays as pairs, with the returned length.
unfoldable pub book_levels : BridgePipeline → Side → ℕ → List (ℤ × ℤ)
book_levels bp side depth =
    map (λ lv. (lv.0, to_i64 lv.1))
      (top_levels bp.pl.engine.store.book side (if ltb max_levels depth then max_levels else depth))
