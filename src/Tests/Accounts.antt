-- ===== src/Tests/Accounts.antt =====
-- Accounts of pipeline/portfolio.c and the risk check of pipeline/risk.c.
use profit_playground.Common.{◌⊎◌, ◌+◌, ◌*◌, ◌/◌, ◌≡◌, ◌≢◌, refl, arith}
use profit_playground.Common.Int.{ℤ, pos, negsuc, ◌+ℤ◌, pos_part, nat_abs, int_laws, neg, ◌*ℤ◌}
use profit_playground.Book.State.{Side}
use profit_playground.Orders.State.{OrderType}
use profit_playground.Pipeline.Message.{Action, OrderEvent}
use profit_playground.Pipeline.Gateway.{zero_order_event}
use profit_playground.Pipeline.Portfolio.{
  Portfolio, init, on_fill, reserve, release, breaches, signed_qty, projected,
}
use profit_playground.Pipeline.Portfolio.Value.{
  legs_conserve, on_fill-closes, on_fill-extends, book_value,
}
use profit_playground.Pipeline.Portfolio.Reserve.{release-reserve}
use profit_playground.Pipeline.Risk
use profit_playground.Pipeline.Risk.{Risk, check, off_tick, too_far, band, is_priced, reserve_price}
use profit_playground.Pipeline.Risk.Limits.{Reference, Passed, Failed, check-Sound}

-- Long 10 at 100.
abbrev long_ten : Portfolio
long_ten = record (init 7 (pos 5000) (pos 50) (pos 2000)) { net_qty = pos 10; avg_price = pos 100 }

-- Short 4 at 90.
abbrev short_four : Portfolio
short_four = record (init 8 (pos 5000) (pos 50) (pos 2000)) {
  net_qty = negsuc 3;
  avg_price = pos 90;
}

legs_conserve_example :
    ((on_fill long_ten Side.bid (pos 110) 6).cash +ℤ (on_fill short_four Side.ask (pos 110) 6).cash
      ≡ long_ten.cash +ℤ short_four.cash)
    × ((on_fill long_ten Side.bid (pos 110) 6).net_qty
          +ℤ (on_fill short_four Side.ask (pos 110) 6).net_qty
        ≡ long_ten.net_qty +ℤ short_four.net_qty)
legs_conserve_example = legs_conserve long_ten short_four Side.bid (pos 110) 6 (λ h. cc)

ten_ne_zero : long_ten.net_qty ≢ pos 0
unfolding init
ten_ne_zero = λ h. ground (arith, h)

-- Selling 15 turns the position of 10 round.
on_fill-closes_example : book_value (on_fill long_ten Side.ask (pos 110) 15) ≡ book_value long_ten
unfolding init signed_qty neg
on_fill-closes_example = on_fill-closes long_ten Side.ask (pos 110) 15 ten_ne_zero refl

on_fill-extends_example :
    (nat_abs (on_fill long_ten Side.bid (pos 110) 6).net_qty ≡ nat_abs long_ten.net_qty + 6)
    × ((on_fill long_ten Side.bid (pos 110) 6).realised_pnl ≡ long_ten.realised_pnl)
    × ((on_fill long_ten Side.bid (pos 110) 6).avg_price
        ≡ pos (
            (pos_part long_ten.avg_price * nat_abs long_ten.net_qty + pos_part (pos 110) * 6)
            / (nat_abs long_ten.net_qty + 6)))
unfolding init signed_qty
on_fill-extends_example =
    on_fill-extends long_ten Side.bid (pos 110) 6 (omega arith) (omega arith) refl (omega int_laws)
      (omega int_laws)

release-reserve_example :
    release (reserve long_ten Side.bid (pos 110) 6).0 Side.bid (pos 110) 6 ≡ long_ten
unfolding init reserve breaches projected ◌*ℤ◌ ◌+ℤ◌
release-reserve_example =
    release-reserve long_ten Side.bid (pos 110) 6 refl (omega int_laws) (omega int_laws)

-- A bid for 6 at 105, after a trade at 100.
abbrev bid_six : OrderEvent
bid_six = record zero_order_event {
  action = Action.new;
  type = OrderType.limit;
  side = Side.bid;
  price = pos 105;
  qty = 6;
}

abbrev after_trade : Risk
after_trade = record Risk.init { last_trade_price = pos 100; tick_size = pos 5 }

check-Sound_example :
    (px : ℤ) × Reference after_trade (pos 105) px
    × (Passed after_trade long_ten bid_six px (check after_trade long_ten bid_six)
        ⊎ Failed after_trade long_ten bid_six px (check after_trade long_ten bid_six))
check-Sound_example = check-Sound after_trade long_ten bid_six refl
