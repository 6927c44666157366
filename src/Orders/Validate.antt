-- ===== src/Orders/Validate.antt =====
-- engine/orders.c, the validators: a reason, or `none` where the source returns NULL.
use profit_playground.Common.{ℕ, ◌-◌, ◌^◌, Bool, ◌&&◌, if◌then◌else◌, ◌==◌, Option, none, some}
use profit_playground.Common.Int.{ℤ, pos, ltb_ℤ, leb_ℤ, eqb_ℤ}
use profit_playground.Book.State.{Book, Side, is_bid, is_invalid}
use profit_playground.Book.Query.{best_bid, best_ask}
use profit_playground.Orders.State.{OrderType, is_market}
use Prim.Native.String.{String}

unfoldable pub validate_structural : Side → ℕ → Option String
validate_structural side qty =
    if qty == 0
    then some "qty must be > 0"
    else if is_invalid side
    then some "invalid side"
    else none

unfoldable pub validate_limit : ℤ → Option String
validate_limit price = if leb_ℤ price (pos 0) then some "limit price must be > 0" else none

unfoldable pub validate_market : ℤ → Option String
validate_market price =
    if eqb_ℤ price (pos 0) then none else some "market order must have price = 0"

unfoldable pub validate_stop : ℤ → ℤ → Option String
validate_stop trigger_price limit_price =
    if leb_ℤ trigger_price (pos 0)
    then some "stop trigger price must be > 0"
    else if eqb_ℤ limit_price (pos 0)
    then none
    else some "stop-market must have limit_price = 0"

unfoldable pub validate_stop_limit : ℤ → ℤ → Option String
validate_stop_limit trigger_price limit_price =
    if leb_ℤ trigger_price (pos 0)
    then some "stop trigger price must be > 0"
    else if leb_ℤ limit_price (pos 0)
    then some "stop-limit must have limit_price > 0"
    else none

-- MARKET_BID_PRICE is INT64_MAX, MARKET_ASK_PRICE is 1.
unfoldable pub market_sentinel : Side → ℤ
market_sentinel side = if is_bid side then pos (2 ^ 63 - 1) else pos 1

-- `orders_crosses`
unfoldable pub crosses : Book → Side → ℤ → OrderType → Bool
crosses b side price type =
    if is_market type
    then ltb_ℤ (pos 0) (if is_bid side then best_ask b else best_bid b)
    else if is_bid side
    then ltb_ℤ (pos 0) (best_ask b) && leb_ℤ (best_ask b) price
    else ltb_ℤ (pos 0) (best_bid b) && leb_ℤ price (best_bid b)
