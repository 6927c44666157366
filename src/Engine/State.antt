-- ===== src/Engine/State.antt =====
-- engine/matching_engine.h: events, dormant stops, and the engine. `store` holds the engine's book
-- with the id table and the clock that the process shares.
use profit_playground.Common.{ℕ, Bool, false, Option, none}
use profit_playground.Common.Int.{ℤ, pos}
use profit_playground.Ring.{Ring}
use profit_playground.Book.State.{Store, Side, Status}
use profit_playground.Orders.State.{OrderType}
use Prim.Native.String.{String}

-- `unset` is the 0 of cleared memory.
pub data EventType : Type 0 where
  unset accepted rejected filled partial cancelled modified trade book_updated stop_triggered :
      EventType

pub record Trade : Type 0 where
  pub trade_id : ℕ
  pub aggressor_id : ℕ
  pub resting_id : ℕ
  pub aggressor_side : Side
  pub price : ℤ
  pub qty : ℕ
  pub ts : ℕ

pub record TopOfBook : Type 0 where
  pub bid_price : ℤ
  pub bid_qty : ℕ
  pub ask_price : ℤ
  pub ask_qty : ℕ
  pub spread : ℤ
  pub mid : ℤ

pub record Event : Type 0 where
  pub type : EventType
  pub ts : ℕ
  pub order_id : ℕ
  pub side : Side
  pub order_type : OrderType
  pub price : ℤ
  pub qty_original : ℕ
  pub qty_remain : ℕ
  pub qty_filled : ℕ
  pub trade : Trade
  pub tob : TopOfBook
  pub reject_reason : Option String

abbrev pub zero_trade : Trade
zero_trade = record {
  trade_id = 0;
  aggressor_id = 0;
  resting_id = 0;
  aggressor_side = Side.bid;
  price = pos 0;
  qty = 0;
  ts = 0;
}

abbrev pub zero_tob : TopOfBook
zero_tob = record {
  bid_price = pos 0;
  bid_qty = 0;
  ask_price = pos 0;
  ask_qty = 0;
  spread = pos 0;
  mid = pos 0;
}

abbrev pub zero_event : Event
zero_event = record {
  type = EventType.unset;
  ts = 0;
  order_id = 0;
  side = Side.bid;
  order_type = OrderType.limit;
  price = pos 0;
  qty_original = 0;
  qty_remain = 0;
  qty_filled = 0;
  trade = zero_trade;
  tob = zero_tob;
  reject_reason = none;
}

-- ME_MAX_STOPS, ME_EVENT_QUEUE_CAP
abbrev pub max_stops : ℕ
max_stops = 256

abbrev pub event_queue_cap : ℕ
event_queue_cap = 1024

pub record StopOrder : Type 0 where
  pub id : ℕ
  pub side : Side
  pub orig_type : OrderType
  pub trigger_price : ℤ
  pub limit_price : ℤ
  pub qty : ℕ
  pub expiry_ts : ℕ
  pub active : Bool

abbrev pub zero_stop : StopOrder
zero_stop = record {
  id = 0;
  side = Side.bid;
  orig_type = OrderType.limit;
  trigger_price = pos 0;
  limit_price = pos 0;
  qty = 0;
  expiry_ts = 0;
  active = false;
}

pub record Engine : Type 0 where
  pub store : Store
  pub eq : Ring Event
  pub trade_seq : ℕ
  pub total_trades : ℕ
  pub total_qty_traded : ℕ
  pub orders_rejected : ℕ
  pub orders_accepted : ℕ
  pub last_tob : TopOfBook
  pub has_handler : Bool
  pub stops : ℕ → StopOrder
  pub stop_count : ℕ
  pub last_trade_price : ℤ

pub record Result : Type 0 where
  pub id : ℕ
  pub status : Status
  pub fills : ℕ
  pub qty_filled : ℕ
  pub qty_remain : ℕ
  pub avg_price : ℤ

-- The result after the `memset`; status 0 is OB_STATUS_OK.
abbrev pub zero_result : Result
zero_result = record {
  id = 0;
  status = Status.ok;
  fills = 0;
  qty_filled = 0;
  qty_remain = 0;
  avg_price = pos 0;
}
