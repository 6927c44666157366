-- ===== src/Pipeline/Portfolio.antt =====
-- pipeline/portfolio.h and pipeline/portfolio.c: one account. The source computes in `int64_t`, whose
-- overflow is undefined in C; the model computes with exact integers. `(int64_t)qty` is `to_i64`.
pub mod Value
pub mod Reserve
use profit_playground.Common.{ℕ, Bool, true, false, not, ◌&&◌, ◌||◌, if◌then◌else◌, ◌==◌, ltb}
use profit_playground.Common.Int.{ℤ, pos, ◌+ℤ◌, ◌-ℤ◌, ◌*ℤ◌, neg, div_pos, ltb_ℤ, eqb_ℤ, nat_abs}
use profit_playground.Common.Words.{to_i64}
use profit_playground.Book.State.{Side, is_bid}

pub record Portfolio : Type 0 where
  pub account_id : ℕ
  pub cash : ℤ
  pub net_qty : ℤ
  pub avg_price : ℤ
  pub realised_pnl : ℤ
  pub open_buy_notional : ℤ
  pub open_sell_qty : ℤ
  pub max_position : ℤ
  pub max_order_notional : ℤ

abbrev pub zero_portfolio : Portfolio
zero_portfolio = record {
  account_id = 0;
  cash = pos 0;
  net_qty = pos 0;
  avg_price = pos 0;
  realised_pnl = pos 0;
  open_buy_notional = pos 0;
  open_sell_qty = pos 0;
  max_position = pos 0;
  max_order_notional = pos 0;
}

unfoldable pub init : ℕ → ℤ → ℤ → ℤ → Portfolio
init account_id starting_cash max_position max_order_notional = record zero_portfolio {
  account_id = account_id;
  cash = starting_cash;
  max_position = max_position;
  max_order_notional = max_order_notional;
}

abbrev pub is_pos : ℤ → Bool
is_pos a = ltb_ℤ (pos 0) a

-- `(old_qty > 0) == (signed_qty > 0)`
abbrev pub same_sign : ℤ → ℤ → Bool
same_sign a b = (is_pos a && is_pos b) || (not (is_pos a) && not (is_pos b))

-- `(side == OB_SIDE_BID) ? (int64_t)qty : -(int64_t)qty`
unfoldable pub signed_qty : Side → ℕ → ℤ
signed_qty side qty = if is_bid side then to_i64 qty else neg (to_i64 qty)

-- The volume-weighted price of a position that grows.
unfoldable pub vwap : ℤ → ℤ → ℤ → ℤ → ℤ → ℤ
vwap avg_price old_qty price qty new_qty =
    if nat_abs new_qty == 0
    then pos 0
    else div_pos (avg_price *ℤ pos (nat_abs old_qty) +ℤ price *ℤ qty) (nat_abs new_qty)

-- The profit of each unit that is closed.
unfoldable pub pnl_per : ℤ → ℤ → ℤ → ℤ
pnl_per old_qty avg_price price = if is_pos old_qty then price -ℤ avg_price else avg_price -ℤ price

-- `min(|signed_qty|, |old_qty|)`
unfoldable pub close_qty : ℤ → ℤ → ℕ
close_qty sq old_qty = if ltb (nat_abs sq) (nat_abs old_qty) then nat_abs sq else nat_abs old_qty

-- The average price after a closing fill.
unfoldable pub closed_avg : ℤ → ℤ → ℤ → ℤ → ℤ → ℤ
closed_avg sq old_qty new_qty avg_price price =
    if eqb_ℤ new_qty (pos 0)
    then pos 0
    else if ltb (nat_abs old_qty) (nat_abs sq)
    then price
    else avg_price

unfoldable pub on_fill : Portfolio → Side → ℤ → ℕ → Portfolio
on_fill p side price qty =
    let sq = signed_qty side qty in
    let notional = price *ℤ to_i64 qty in
    let cash = p.cash +ℤ (if is_bid side then neg notional else notional) in
    let new_qty = p.net_qty +ℤ sq in
    if eqb_ℤ p.net_qty (pos 0) || same_sign p.net_qty sq
    then record p {
      cash = cash;
      avg_price = vwap p.avg_price p.net_qty price (to_i64 qty) new_qty;
      net_qty = new_qty;
    }
    else record p {
      cash = cash;
      realised_pnl =
          p.realised_pnl +ℤ pnl_per p.net_qty p.avg_price price *ℤ pos (close_qty sq p.net_qty);
      avg_price = closed_avg sq p.net_qty new_qty p.avg_price price;
      net_qty = new_qty;
    }

-- The position if the whole order fills.
unfoldable pub projected : Portfolio → Side → ℕ → ℤ
projected p side qty = if is_bid side then p.net_qty +ℤ to_i64 qty else p.net_qty -ℤ to_i64 qty

unfoldable pub breaches : Portfolio → Side → ℤ → ℕ → Bool
breaches p side price qty =
    (is_pos p.max_order_notional && ltb_ℤ p.max_order_notional (price *ℤ to_i64 qty))
    || (is_pos p.max_position && ltb_ℤ p.max_position (pos (nat_abs (projected p side qty))))

unfoldable pub reserve : Portfolio → Side → ℤ → ℕ → Portfolio × Bool
reserve p side price qty =
    if breaches p side price qty
    then (p, false)
    else if is_bid side
    then (record p { open_buy_notional = p.open_buy_notional +ℤ price *ℤ to_i64 qty }, true)
    else (record p { open_sell_qty = p.open_sell_qty +ℤ to_i64 qty }, true)

-- A value below zero becomes zero.
abbrev pub floor_zero : ℤ → ℤ
floor_zero a = if ltb_ℤ a (pos 0) then pos 0 else a

unfoldable pub release : Portfolio → Side → ℤ → ℕ → Portfolio
release p side price qty =
    if is_bid side
    then record p { open_buy_notional = floor_zero (p.open_buy_notional -ℤ price *ℤ to_i64 qty) }
    else record p { open_sell_qty = floor_zero (p.open_sell_qty -ℤ to_i64 qty) }

unfoldable pub unrealised_pnl : Portfolio → ℤ → ℤ
unrealised_pnl p mark =
    if eqb_ℤ p.net_qty (pos 0) || eqb_ℤ mark (pos 0)
    then pos 0
    else (mark -ℤ p.avg_price) *ℤ p.net_qty
