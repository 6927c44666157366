-- ===== src/Orders/Preprocess.antt =====
-- engine/orders.c, `orders_preprocess`: the one entry point of the layer.
pub mod Admits
use profit_playground.Common.{ℕ, if◌then◌else◌, Option, none, some}
use profit_playground.Common.Int.{ℤ, pos}
use profit_playground.Book.State.{Book, Side}
use profit_playground.Orders.State.{OrderType, Flow, Request}
use profit_playground.Orders.Validate.{
  validate_structural, validate_limit, validate_market, validate_stop, validate_stop_limit,
  market_sentinel,
}
use profit_playground.Orders.Liquidity.{fok_check}
use Prim.Native.String.{String}

unfoldable pub validate_fok : Book → Side → ℤ → ℕ → Option String
validate_fok b side price qty = elim (validate_limit price) [
  | some err ↦ some err
  | none ↦ if fok_check b side price qty then none else some "FOK: insufficient liquidity"
]

-- The request after the `memset` and the four copies; flow 0 is FLOW_LIMIT.
abbrev pub copied : OrderType → Side → ℤ → ℕ → Request
copied type side price qty = record {
  type = type;
  side = side;
  price = price;
  eff_price = pos 0;
  qty = qty;
  flow = Flow.limit;
  err_msg = none;
  trigger_price = pos 0;
  expiry_ts = 0;
}

-- `reject_if`, and what the caller does where it does not fire.
abbrev pub reject_if : Request → Option String → Request → Request
reject_if out (some err) next = record out { flow = Flow.reject; err_msg = some err }
reject_if out none next = next

-- The `switch` on the type.
unfoldable pub by_type : Book → OrderType → Side → ℤ → ℕ → Request → Request
by_type b OrderType.limit side price qty out =
    reject_if out (validate_limit price) (record out { eff_price = price; flow = Flow.limit })
by_type b OrderType.market side price qty out =
    reject_if out (validate_market price)
      (record out { eff_price = market_sentinel side; flow = Flow.market })
by_type b OrderType.ioc side price qty out =
    reject_if out (validate_limit price) (record out { eff_price = price; flow = Flow.ioc })
by_type b OrderType.fok side price qty out =
    reject_if out (validate_fok b side price qty)
      (record out { eff_price = price; flow = Flow.fok })
by_type b OrderType.stop side price qty out =
    reject_if out (validate_stop out.trigger_price price) (record out { flow = Flow.stop })
by_type b OrderType.stop_limit side price qty out =
    reject_if out (validate_stop_limit out.trigger_price price)
      (record out { eff_price = price; flow = Flow.stop })
by_type b OrderType.unknown side price qty out = record out {
  flow = Flow.reject;
  err_msg = some "unknown order type";
}

unfoldable pub preprocess : Book → OrderType → Side → ℤ → ℕ → Request
preprocess b type side price qty =
    let out = copied type side price qty in
    reject_if out (validate_structural side qty) (by_type b type side price qty out)
