-- ===== src/Bridge/State.antt =====
-- bridge/bridge.h and bridge/bridge.c: the messages, the events, and the state of one symbol. The
-- plain integers that stand for enumerations are the enumerations; `unknown`, `unset` and
-- `Side.count` stand for the numbers outside them. The array `staged` with its count is a list.
use profit_playground.Common.{ℕ, Bool, false, Option, List}
use profit_playground.Common.Int.{ℤ, pos}
use profit_playground.Book.State.{Side}
use profit_playground.Orders.State.{OrderType}
use profit_playground.Engine.State.{Event}
use profit_playground.Pipeline.Message.{Action, AckStatus}
use profit_playground.Pipeline.State.{Pipeline, max_id_map}
use Prim.Native.String.{String}

-- BRIDGE_MAX_SYMBOLS, BRIDGE_ORDER_ID_SPACE, BRIDGE_EVENT_QUEUE_CAP, BRIDGE_ORDER_REGISTRY_CAP,
-- BRIDGE_STAGE_CAP
abbrev pub max_symbols : ℕ
max_symbols = 64

abbrev pub order_id_space : ℕ
order_id_space = 1000000

abbrev pub event_queue_cap : ℕ
event_queue_cap = 4096

abbrev pub order_registry_cap : ℕ
order_registry_cap = max_id_map

abbrev pub stage_cap : ℕ
stage_cap = 1024

-- BRIDGE_STATUS_*
pub data OrderStatus : Type 0 where
  opened partial filled cancelled rejected : OrderStatus

-- BRIDGE_EVENT_*
pub data Kind : Type 0 where
  order trade : Kind

-- `bridge_raw_msg_t`
pub record BridgeMsg : Type 0 where
  pub action : Action
  pub client_order_id : ℕ
  pub account_id : ℕ
  pub type : OrderType
  pub side : Side
  pub price : ℤ
  pub trigger_price : ℤ
  pub qty : ℕ
  pub ttl_ns : ℕ
  pub target_order_id : ℕ
  pub new_price : ℤ
  pub new_qty : ℕ

-- `bridge_ack_t`
pub record BridgeAck : Type 0 where
  pub status : AckStatus
  pub server_order_id : ℕ
  pub ingress_ts_ns : ℕ
  pub ack_ts_ns : ℕ
  pub reject_reason : Option String

-- `bridge_order_view_t`; an order that is not found is `none`.
pub record OrderView : Type 0 where
  pub server_order_id : ℕ
  pub client_order_id : ℕ
  pub account_id : ℕ
  pub type : OrderType
  pub side : Side
  pub price : ℤ
  pub trigger_price : ℤ
  pub qty_original : ℕ
  pub qty_remain : ℕ
  pub qty_filled : ℕ
  pub status : OrderStatus
  pub created_ts_ns : ℕ
  pub updated_ts_ns : ℕ

-- `bridge_tob_t`
pub record BridgeTop : Type 0 where
  pub bid_price : ℤ
  pub bid_qty : ℤ
  pub ask_price : ℤ
  pub ask_qty : ℤ
  pub spread : ℤ
  pub mid : ℤ

-- `bridge_event_t`
pub record BridgeEvent : Type 0 where
  pub kind : Kind
  pub seq : ℕ
  pub ts_ns : ℕ
  pub order_id : ℕ
  pub account_id : ℕ
  pub side : Side
  pub type : OrderType
  pub price : ℤ
  pub qty_original : ℕ
  pub qty_remain : ℕ
  pub qty_filled : ℕ
  pub status : OrderStatus
  pub trade_id : ℕ
  pub aggressor_id : ℕ
  pub resting_id : ℕ
  pub aggressor_account_id : ℕ
  pub resting_account_id : ℕ
  pub aggressor_side : Side
  pub trade_price : ℤ
  pub trade_qty : ℕ

-- `bridge_order_slot_t`
pub record OrderSlot : Type 0 where
  pub order_id : ℕ
  pub me_id : ℕ
  pub client_order_id : ℕ
  pub account_id : ℕ
  pub type : OrderType
  pub side : Side
  pub price : ℤ
  pub trigger_price : ℤ
  pub qty_original : ℕ
  pub qty_remain : ℕ
  pub qty_filled : ℕ
  pub status : OrderStatus
  pub created_ts_ns : ℕ
  pub updated_ts_ns : ℕ
  pub touched : Bool

-- A symbol's name, as the numbers of its characters.
abbrev pub Symbol : Type 0
Symbol = List ℕ

-- `bridge_pipeline_t`
pub record BridgePipeline : Type 0 where
  pub pl : Pipeline
  pub symbol : Symbol
  pub id_base : ℕ
  pub orders : ℕ → OrderSlot
  pub me_to_gw : ℕ → ℕ
  pub staged : List Event
  pub evq : ℕ → BridgeEvent
  pub evq_head : ℕ
  pub evq_tail : ℕ
  pub evq_dropped : ℕ
  pub next_seq : ℕ

-- Cleared memory.
abbrev pub zero_bridge_event : BridgeEvent
zero_bridge_event = record {
  kind = Kind.order;
  seq = 0;
  ts_ns = 0;
  order_id = 0;
  account_id = 0;
  side = Side.bid;
  type = OrderType.limit;
  price = pos 0;
  qty_original = 0;
  qty_remain = 0;
  qty_filled = 0;
  status = OrderStatus.opened;
  trade_id = 0;
  aggressor_id = 0;
  resting_id = 0;
  aggressor_account_id = 0;
  resting_account_id = 0;
  aggressor_side = Side.bid;
  trade_price = pos 0;
  trade_qty = 0;
}

abbrev pub zero_slot : OrderSlot
zero_slot = record {
  order_id = 0;
  me_id = 0;
  client_order_id = 0;
  account_id = 0;
  type = OrderType.limit;
  side = Side.bid;
  price = pos 0;
  trigger_price = pos 0;
  qty_original = 0;
  qty_remain = 0;
  qty_filled = 0;
  status = OrderStatus.opened;
  created_ts_ns = 0;
  updated_ts_ns = 0;
  touched = false;
}
