-- ===== src/Engine/Emit.antt =====
-- engine/matching_engine.c, the event queue and the emission of events.
use profit_playground.Common.{ℕ, ◌^◌, Bool, ◌&&◌, if◌then◌else◌, ◌==◌, Option}
use profit_playground.Common.Int.{ℤ, pos, ltb_ℤ, eqb_ℤ}
use profit_playground.Common.Words.{add64}
use profit_playground.Ring
use profit_playground.Ring.{Ring}
use profit_playground.Book.State.{Book, Side, Match, now_ns, after_now}
use profit_playground.Book.Query.{best_bid, best_ask, spread, mid_price, depth}
use profit_playground.Orders.State.{OrderType}
use profit_playground.Engine.State.{
  Engine, Event, EventType, Trade, TopOfBook, zero_event, event_queue_cap,
}
use Prim.Native.String.{String}

unfoldable pub eq_push : Ring Event → Event → Ring Event
eq_push q ev = (Ring.push event_queue_cap (2 ^ 32) q ev).0

unfoldable pub eq_pop : Ring Event → Ring Event × Option Event
eq_pop q = Ring.pop event_queue_cap q

unfoldable pub emit_order_event :
    Engine → EventType → ℕ → Side → OrderType → ℤ → ℕ → ℕ → ℕ → Option String → Engine
emit_order_event me type id side otype price qty_orig qty_remain qty_filled reason =
    let ev : Event = record zero_event {
      type = type;
      ts = now_ns me.store;
      order_id = id;
      side = side;
      order_type = otype;
      price = price;
      qty_original = qty_orig;
      qty_remain = qty_remain;
      qty_filled = qty_filled;
      reject_reason = reason;
    } in
    record me { store = after_now me.store; eq = eq_push me.eq ev }

unfoldable pub emit_trade : Engine → ℕ → Side → Match → Engine
emit_trade me aggressor_id aggressor_side m =
    let seq = add64 me.trade_seq 1 in
    let trade : Trade = record {
      trade_id = seq;
      aggressor_id = aggressor_id;
      resting_id = m.resting_id;
      aggressor_side = aggressor_side;
      price = m.price;
      qty = m.qty;
      ts = m.ts;
    } in
    let ev : Event = record zero_event {
      type = EventType.trade;
      ts = m.ts;
      order_id = aggressor_id;
      trade = trade;
    } in
    record me {
      trade_seq = seq;
      eq = eq_push me.eq ev;
      total_trades = add64 me.total_trades 1;
      total_qty_traded = add64 me.total_qty_traded m.qty;
      last_trade_price = m.price;
    }

-- `me_top_of_book`
unfoldable pub top_of_book : Book → TopOfBook
top_of_book b = record {
  bid_price = best_bid b;
  bid_qty = if ltb_ℤ (pos 0) (best_bid b) then depth b Side.bid (pos 0) else 0;
  ask_price = best_ask b;
  ask_qty = if ltb_ℤ (pos 0) (best_ask b) then depth b Side.ask (pos 0) else 0;
  spread = spread b;
  mid = mid_price b;
}

-- The four fields that `maybe_emit_tob` compares.
abbrev pub same_top : TopOfBook → TopOfBook → Bool
same_top t u =
    eqb_ℤ t.bid_price u.bid_price
    && t.bid_qty == u.bid_qty
    && eqb_ℤ t.ask_price u.ask_price
    && t.ask_qty == u.ask_qty

unfoldable pub maybe_emit_tob : Engine → Engine
maybe_emit_tob me =
    let tob = top_of_book me.store.book in
    let ev : Event = record zero_event {
      type = EventType.book_updated;
      ts = now_ns me.store;
      tob = tob;
    } in
    if same_top tob me.last_tob
    then me
    else record me { store = after_now me.store; eq = eq_push me.eq ev; last_tob = tob }
