-- ===== src/Pipeline/Risk.antt =====
-- pipeline/risk.h and pipeline/risk.c: the checks before an order is sequenced.
pub mod Limits
use profit_playground.Common.{
  ℕ, Bool, true, false, not, ◌&&◌, if◌then◌else◌, ltb, Option, none, some,
}
use profit_playground.Common.Int.{
  ℤ, pos, pos_part, ◌-ℤ◌, ◌*ℤ◌, div_pos, rem_pos, ltb_ℤ, eqb_ℤ, nat_abs,
}
use profit_playground.Common.Words.{add64}
use profit_playground.Orders.State.{OrderType}
use profit_playground.Pipeline.Portfolio.{Portfolio, reserve, is_pos}
use profit_playground.Pipeline.Message.{OrderEvent, is_new}
use Prim.Native.String.{String}

pub record Risk : Type 0 where
  pub last_trade_price : ℤ
  pub fat_finger_bps : ℕ
  pub tick_size : ℤ
  pub rejected : ℕ
  pub accepted : ℕ

unfoldable pub init : Risk
init = record {
  last_trade_price = pos 0;
  fat_finger_bps = 1000;
  tick_size = pos 1;
  rejected = 0;
  accepted = 0;
}

unfoldable pub on_trade : Risk → ℤ → Risk
on_trade r price = record r { last_trade_price = price }

-- The order types that carry a limit price.
abbrev pub is_priced : OrderType → Bool
is_priced OrderType.limit = true
is_priced OrderType.ioc = true
is_priced OrderType.fok = true
is_priced OrderType.stop_limit = true
is_priced _ = false

-- The remainder is taken only where `tick_size` exceeds 1.
unfoldable pub off_tick : Risk → ℤ → Bool
off_tick r price =
    ltb_ℤ (pos 1) r.tick_size
    && is_pos price
    && not (eqb_ℤ (rem_pos price (pos_part r.tick_size)) (pos 0))

unfoldable pub band : Risk → ℤ
band r = div_pos (r.last_trade_price *ℤ pos r.fat_finger_bps) 10000

unfoldable pub too_far : Risk → OrderType → ℤ → Bool
too_far r type price =
    is_pos r.last_trade_price
    && ltb 0 r.fat_finger_bps
    && is_pos price
    && is_priced type
    && ltb_ℤ (band r) (pos (nat_abs (price -ℤ r.last_trade_price)))

-- The price that the reservation is made at; an unknown market price counts as 1.
unfoldable pub reserve_price : Risk → ℤ → ℤ
reserve_price r price =
    let px = if is_pos price then price else r.last_trade_price in
    if eqb_ℤ px (pos 0) then pos 1 else px

abbrev count_reject : Risk → Risk
count_reject r = record r { rejected = add64 r.rejected 1 }

abbrev count_accept : Risk → Risk
count_accept r = record r { accepted = add64 r.accepted 1 }

-- `risk_check`: the reason is `none` for an order that passes.
unfoldable pub check : Risk → Portfolio → OrderEvent → (Risk × Portfolio) × Option String
check r p ev =
    let (p', reserved) = reserve p ev.side (reserve_price r ev.price) ev.qty in
    if not (is_new ev.action)
    then ((count_accept r, p), none)
    else if off_tick r ev.price
    then ((count_reject r, p), some "price not on tick grid")
    else if too_far r ev.type ev.price
    then ((count_reject r, p), some "fat-finger: price too far from last")
    else if reserved
    then ((count_accept r, p'), none)
    else ((count_reject r, p'), some "risk: position or notional limit breached")
