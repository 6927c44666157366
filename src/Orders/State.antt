-- ===== src/Orders/State.antt =====
-- The order types of engine/matching_engine.h and the request of engine/orders.h. `unknown` stands
-- for every number that is none of the enumeration's, which a caller can cast to the type.
use profit_playground.Common.{ℕ, Option, Bool, true, false}
use profit_playground.Common.Int.{ℤ}
use profit_playground.Book.State.{Side}
use Prim.Native.String.{String}

pub data OrderType : Type 0 where
  limit market ioc fok stop stop_limit unknown : OrderType

pub data Flow : Type 0 where
  limit market ioc fok stop reject : Flow

pub record Request : Type 0 where
  pub type : OrderType
  pub side : Side
  pub price : ℤ
  pub eff_price : ℤ
  pub qty : ℕ
  pub flow : Flow
  pub err_msg : Option String
  pub trigger_price : ℤ
  pub expiry_ts : ℕ

abbrev pub is_ioc : OrderType → Bool
is_ioc OrderType.ioc = true
is_ioc _ = false

abbrev pub is_market : OrderType → Bool
is_market OrderType.market = true
is_market _ = false

abbrev pub is_stop : OrderType → Bool
is_stop OrderType.stop = true
is_stop _ = false

abbrev pub is_stop_limit : OrderType → Bool
is_stop_limit OrderType.stop_limit = true
is_stop_limit _ = false
