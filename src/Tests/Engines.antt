-- ===== src/Tests/Engines.antt =====
-- Engines with a dormant stop and with queued events.
use profit_playground.Common.{◌≡◌, refl, arith, ◌⊎◌, true, none, []}
use profit_playground.Common.Int.{pos}
use profit_playground.Ring.Queue.{contents}
use profit_playground.Book.State.{Side, Store, Status, zero_entry}
use profit_playground.Book.Manage.{empty_book}
use profit_playground.Orders.State.{OrderType, Flow, Request}
use profit_playground.Engine.State.{Engine, max_stops, event_queue_cap}
use profit_playground.Book.Manage.{
  init, add_order, match_and_rest, rest_order, find_or_open, open_level, enqueue, admit,
}
use profit_playground.Book.Matching.{
  match_against_side, match_levels, fill_level, fill_head, record_fill, take_fill, drop_filled,
  drop_empty, best_level,
}
use profit_playground.Book.Pool.{
  order_pool_alloc, order_pool_free, level_pool_alloc, level_pool_free,
}
use profit_playground.Book.Lookup.{
  lookup_insert, insert_from, lookup_slot, lookup_remove, remove_from, shift_back,
}
use profit_playground.Book.Fifo.{level_new, level_enqueue, level_dequeue}
use profit_playground.Book.Avl.{
  avl_height, avl_balance, avl_update_height, avl_rotate_right, avl_rotate_left, rotate_left_right,
  rotate_right_left, insert_rebalance, avl_insert, avl_min, avl_max, remove_rebalance, copy_level,
  avl_remove, avl_find,
}
use profit_playground.Engine.Submit.Outcome.{Settled, execute-Settled}
use profit_playground.Engine.Submit.{execute, submit_order, submit_with, check_stops}
use profit_playground.Engine.Stops.{submit_stop, cancel_stop, expire_orders}
use profit_playground.Engine.Stops.Count.{IsCounted}
use profit_playground.Engine.Stops.Nested.{submit_order_unfold}
use profit_playground.Engine.Stops.Valid.{Valid, IsFull}
use profit_playground.Engine.Stops.Life.{Stored, Refused, submit_stop_lem}
use profit_playground.Engine.Stops.Leave.{Cancelled, cancel_stop_lem}
use profit_playground.Engine.Stops.Sweep.{Swept, stops-expire_orders}
use profit_playground.Engine.Manage.{me_init, run_events}
use profit_playground.Engine.Manage.Drain.{run_events_lem}
use profit_playground.Engine.Reach.{Step, Reached, Reached-IsCounted}

abbrev process : Store
process = record { book = empty_book; lookup = λ i. zero_entry; clock = λ n. n; reads = 0 }

abbrev fresh : Engine
fresh = me_init process true

-- A buy stop at 105 that lives for 50.
abbrev waiting : Engine
waiting = (submit_stop fresh OrderType.stop Side.bid (pos 105) (pos 0) 5 50).0

submit_order_unfold_example :
    submit_order waiting OrderType.limit Side.bid (pos 100) 5
    ≡ submit_with (check_stops submit_order) waiting OrderType.limit Side.bid (pos 100) 5
submit_order_unfold_example = submit_order_unfold waiting OrderType.limit Side.bid (pos 100) 5

Reached-IsCounted_example : IsCounted (submit_order waiting OrderType.limit Side.bid (pos 100) 5).0
Reached-IsCounted_example = Reached-IsCounted (
    Reached.later
      (Reached.later (Reached.start process true)
        (Step.stop fresh OrderType.stop Side.bid (pos 105) (pos 0) 5 50))
      (Step.submit waiting OrderType.limit Side.bid (pos 100) 5))

submit_stop_lem_example :
    let r = submit_stop waiting OrderType.stop Side.ask (pos 95) (pos 0) 3 0 in
    ((r.1.status ≡ Status.ok)
      × Valid OrderType.stop Side.ask (pos 95) (pos 0) 3
      × Stored waiting r.0 OrderType.stop Side.ask (pos 95) (pos 0) 3 0 r.1.id)
    ⊎ (Refused waiting r × (¬ (Valid OrderType.stop Side.ask (pos 95) (pos 0) 3) ⊎ IsFull waiting))
submit_stop_lem_example = submit_stop_lem waiting OrderType.stop Side.ask (pos 95) (pos 0) 3 0

cancel_stop_lem_example : Cancelled waiting 1 max_stops 0 (cancel_stop waiting 1)
cancel_stop_lem_example = cancel_stop_lem waiting 1

stops-expire_orders_example : Swept 60 (waiting.stops 0) ((expire_orders waiting 60).0.stops 0)
stops-expire_orders_example = stops-expire_orders waiting 60 0 (omega arith)

run_events_lem_example :
    ((run_events (record fresh { eq = record (fresh.eq) { head = 3 } })).1
      ≡ contents event_queue_cap (record (fresh.eq) { head = 3 }))
    × (contents event_queue_cap
          (run_events (record fresh { eq = record (fresh.eq) { head = 3 } })).0.eq
        ≡ [])
unfolding me_init
run_events_lem_example =
    run_events_lem (record fresh { eq = record (fresh.eq) { head = 3 } }) refl
      (record { head_in = omega arith; tail_in = omega arith })

abbrev request : Request
request = record {
  type = OrderType.limit;
  side = Side.bid;
  price = pos 101;
  eff_price = pos 101;
  qty = 6;
  flow = Flow.limit;
  err_msg = none;
  trigger_price = pos 0;
  expiry_ts = 0;
}

-- 5 at 100 and 3 at 101 are on offer.
abbrev offered : Engine
offered = record fresh {
  store =
      (add_order true (add_order true fresh.store Side.ask (pos 100) 5 0).0 Side.ask (pos 101) 3
        0).0;
}

two_fills : (add_order true offered.store Side.bid (pos 101) 6 0).1.mc ≡ 2
unfolding me_init init empty_book add_order match_and_rest rest_order match_against_side
    match_levels fill_level fill_head record_fill take_fill drop_filled drop_empty best_level
    find_or_open open_level enqueue admit order_pool_alloc order_pool_free level_pool_alloc
    level_pool_free lookup_insert insert_from lookup_slot lookup_remove remove_from shift_back
    level_new level_enqueue level_dequeue avl_height avl_balance avl_update_height avl_rotate_right
    avl_rotate_left rotate_left_right rotate_right_left insert_rebalance avl_insert avl_min avl_max
    remove_rebalance copy_level avl_remove avl_find
two_fills = refl

execute-Settled_example :
    Settled offered OrderType.limit Side.bid
      (pos 101)
      6
      (add_order true offered.store Side.bid (pos 101) 6 0).1
      (execute offered OrderType.limit Side.bid (pos 101) 6 request).0
unfolding me_init
execute-Settled_example =
    execute-Settled offered OrderType.limit Side.bid (pos 101) 6 request (omega arith) (omega arith)
      (omega arith) (omega (arith, two_fills))
