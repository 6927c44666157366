-- ===== src/Engine/Submit.antt =====
-- engine/matching_engine.c, `me_submit_order` and `check_stops`, which call one another: a trade may
-- trigger dormant stops, and a triggered stop enters as an order. Each nested call has taken one
-- stop out of the pool, so the depth is at most the number of stops; that depth is the fuel.
pub mod Outcome
use profit_playground.Common.{
  ℕ, zero, suc, ◌+◌, ◌/◌, Bool, true, false, not, ◌&&◌, ◌||◌, if◌then◌else◌, ◌==◌, ltb, update,
  List, [], ◌∷◌, none, some,
}
use profit_playground.Common.Int.{ℤ, pos, leb_ℤ, eqb_ℤ}
use profit_playground.Common.Words.{add64, sub64, mul64, sub32, to_u64, to_i64}
use profit_playground.Book.State.{Side, Status, Match, is_bid, is_ask}
use profit_playground.Book.Manage.{add_order, cancel_order}
use profit_playground.Orders.State.{OrderType, Flow, Request, is_ioc, is_stop}
use profit_playground.Orders.Preprocess.{preprocess}
use profit_playground.Engine.State.{Engine, EventType, Result, StopOrder, zero_result, max_stops}
use profit_playground.Engine.Emit.{emit_order_event, emit_trade, maybe_emit_tob}

-- Step 1, the rejection.
unfoldable pub reject_order : Engine → OrderType → Side → ℤ → ℕ → Request → Engine × Result
reject_order me type side price qty req =
    let counted : Engine = record me { orders_rejected = add64 me.orders_rejected 1 } in
    (
      maybe_emit_tob
          (emit_order_event counted EventType.rejected 0 side type price qty qty 0 req.err_msg),
      record zero_result { status = Status.rejected },
    )

-- Step 3, the loop over the fills.
unfoldable pub add_fills : Engine → ℕ → Side → ℕ → ℕ → List Match → Engine × ℕ × ℕ
add_fills me id side qty_filled vwap_num [] = (me, qty_filled, vwap_num)
add_fills me id side qty_filled vwap_num (m ∷ ms) =
    add_fills (emit_trade me id side m) id side (add64 qty_filled m.qty)
      (add64 vwap_num (mul64 (to_u64 m.price) m.qty)) ms

-- `(vwap_num + qty_filled / 2) / qty_filled`
unfoldable pub average_price : ℕ → ℕ → ℤ
average_price vwap_num qty_filled =
    if qty_filled == 0 then pos 0 else to_i64 (add64 vwap_num (qty_filled / 2) / qty_filled)

-- Step 4: the remainder of an immediate-or-cancel order.
unfoldable pub cancel_remainder : Engine → OrderType → Side → ℤ → ℕ → Result → Engine × Result
cancel_remainder me type side price qty out =
    if is_ioc type && ltb 0 out.qty_remain && not (out.id == 0)
    then (let cancelled : Engine = record me { store = (cancel_order me.store out.id).0 } in
        (
          emit_order_event cancelled EventType.cancelled out.id side type price qty 0 out.qty_filled
              (some "IOC remainder cancelled"),
          record out { qty_remain = 0 },
        ))
    else (me, out)

abbrev is_rejected : Status → Bool
is_rejected Status.rejected = true
is_rejected _ = false

-- Step 5: the counters, the status and the lifecycle event. A book without capacity does not set
-- the status of the result.
unfoldable pub conclude : Status → Engine → OrderType → Side → ℤ → ℕ → Result → Engine × Result
conclude st me type side price qty out =
    let counted : Engine = record me { orders_accepted = add64 me.orders_accepted 1 } in
    if is_rejected st
    then (let refused : Engine = record me { orders_rejected = add64 me.orders_rejected 1 } in
        (
          emit_order_event refused EventType.rejected out.id side type price qty qty 0
              (some "book capacity reached"),
          out,
        ))
    else if out.qty_remain == 0
    then (
      emit_order_event counted EventType.filled out.id side type price qty 0 out.qty_filled none,
      record out { status = Status.filled },
    )
    else if ltb 0 out.qty_filled
    then (
      emit_order_event counted EventType.partial out.id side type price qty out.qty_remain
          out.qty_filled none,
      record out { status = Status.partial },
    )
    else (
      emit_order_event counted EventType.accepted out.id side type price qty qty 0 none,
      record out { status = Status.ok },
    )

-- Steps 2 to 5 and the top of the book: all that comes before the check of the stops.
unfoldable pub execute : Engine → OrderType → Side → ℤ → ℕ → Request → (Engine × Result) × ℕ
execute me type side price qty req =
    let (s, a) = add_order true me.store side req.eff_price qty req.expiry_ts in
    let (me1, qty_filled, vwap_num) =
      add_fills (record me { store = s }) a.out_id side 0 0 a.fills in
    let out : Result = record {
      id = a.out_id;
      status = Status.ok;
      fills = a.mc;
      qty_filled = qty_filled;
      qty_remain = sub64 qty qty_filled;
      avg_price = average_price vwap_num qty_filled;
    } in
    let (me2, out2) = cancel_remainder me1 type side price qty out in
    let (me3, out3) = conclude a.status me2 type side price qty out2 in
    ((maybe_emit_tob me3, out3), a.mc)

abbrev pub Submit : Type 0
Submit = Engine → OrderType → Side → ℤ → ℕ → Engine × Result

-- A buy stop waits for a price at or above its trigger, a sell stop for one at or below it.
unfoldable pub is_triggered : ℤ → StopOrder → Bool
is_triggered ltp s =
    (is_bid s.side && leb_ℤ s.trigger_price ltp) || (is_ask s.side && leb_ℤ ltp s.trigger_price)

-- The stop leaves the pool before it enters as an order.
unfoldable pub deactivate : Engine → ℕ → Engine
deactivate me i = record me {
  stops = update me.stops i (record (me.stops i) { active = false });
  stop_count = sub32 me.stop_count 1;
}

unfoldable pub trigger : Submit → Engine → ℕ → Engine
trigger submit me i =
    let s = me.stops i in
    let me' =
      emit_order_event (deactivate me i) EventType.stop_triggered s.id s.side s.orig_type
        s.trigger_price s.qty s.qty 0 none in
    if is_stop s.orig_type
    then (submit me' OrderType.market s.side (pos 0) s.qty).0
    else (submit me' OrderType.limit s.side s.limit_price s.qty).0

-- `n` rounds of the loop are left; `ltp` was read before the loop.
unfoldable pub check_from : Submit → ℤ → ℕ → ℕ → Engine → Engine
check_from submit ltp zero i me = me
check_from submit ltp (suc n) i me =
    check_from submit ltp n (i + 1)
      (if (me.stops i).active && is_triggered ltp (me.stops i) then trigger submit me i else me)

unfoldable pub check_stops : Submit → Engine → Engine
check_stops submit me =
    if eqb_ℤ me.last_trade_price (pos 0)
    then me
    else check_from submit me.last_trade_price max_stops 0 me

abbrev pub is_reject : Flow → Bool
is_reject Flow.reject = true
is_reject _ = false

unfoldable pub submit_with : (Engine → Engine) → Submit
submit_with stops me type side price qty =
    let req = preprocess me.store.book type side price qty in
    let ((me', out), mc) = execute me type side price qty req in
    if is_reject req.flow
    then reject_order me type side price qty req
    else (if ltb 0 mc then stops me' else me', out)

unfoldable pub submit_nested : ℕ → Submit
submit_nested zero me type side price qty = (me, zero_result)
submit_nested (suc f) me type side price qty =
    submit_with (check_stops (submit_nested f)) me type side price qty

-- `me_submit_order`
unfoldable pub submit_order : Submit
submit_order = submit_nested 257
