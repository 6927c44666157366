-- ===== src/Engine/Manage.antt =====
-- engine/matching_engine.c: `me_init`, `me_destroy`, cancellation and amendment of resting orders,
-- and the delivery of events.
pub mod Drain
use profit_playground.Common.{
  ℕ, zero, suc, Bool, true, false, none, some, List, [], ◌∷◌, if◌then◌else◌,
}
use profit_playground.Common.Int.{ℤ, pos}
use profit_playground.Ring.{Ring}
use profit_playground.Book.State.{Store, Status, Side}
use profit_playground.Book.Manage.{init, destroy, cancel_order, modify_order}
use profit_playground.Book.Query.{get_order}
use profit_playground.Orders.State.{OrderType}
use profit_playground.Orders.Validate.{crosses}
use profit_playground.Engine.State.{
  Engine, Event, EventType, zero_event, zero_tob, zero_stop, event_queue_cap,
}
use profit_playground.Engine.Emit.{eq_pop, emit_order_event, maybe_emit_tob}

abbrev pub empty_events : Ring Event
empty_events = record { buf = λ i. zero_event; head = 0; tail = 0; dropped = 0 }

-- `me_init`; `s` gives the table and the clock of the process.
unfoldable pub me_init : Store → Bool → Engine
me_init s has_handler = record {
  store = init s;
  eq = empty_events;
  trade_seq = 0;
  total_trades = 0;
  total_qty_traded = 0;
  orders_rejected = 0;
  orders_accepted = 0;
  last_tob = zero_tob;
  has_handler = has_handler;
  stops = λ i. zero_stop;
  stop_count = 0;
  last_trade_price = pos 0;
}

unfoldable pub me_destroy : Engine → Engine
me_destroy me = record me { store = destroy me.store }

abbrev pub is_ok : Status → Bool
is_ok Status.ok = true
is_ok _ = false

-- The event carries the old remainder in its `qty_filled`.
unfoldable pub me_cancel_order : Engine → ℕ → Engine × Bool
me_cancel_order me id = elim (get_order me.store id) [
  | none ↦ (me, false)
  | some snap ↦
      let (s, st) = cancel_order me.store id in
      if is_ok st
      then (
        maybe_emit_tob (
            emit_order_event (record me { store = s }) EventType.cancelled id snap.side
              OrderType.limit snap.price snap.qty 0 snap.qty_remain none),
        true,
      )
      else (record me { store = s }, false)
]

unfoldable pub me_modify_order : Engine → ℕ → ℤ → ℕ → Engine × Bool
me_modify_order me id new_price new_qty = elim (get_order me.store id) [
  | none ↦ (me, false)
  | some snap ↦
      let (s, st) = modify_order me.store id new_price new_qty in
      if is_ok st
      then (
        maybe_emit_tob (
            emit_order_event (record me { store = s }) EventType.modified id snap.side
              OrderType.limit new_price snap.qty new_qty 0 none),
        true,
      )
      else (record me { store = s }, false)
]

-- The events that `me_run_events` hands to the handler, which is not the engine's code: the queue
-- left, and the events in the order of delivery. A queue holds fewer events than its capacity.
unfoldable pub drain : ℕ → Ring Event → Ring Event × List Event
drain zero q = (q, [])
drain (suc f) q =
    let (q', out) = eq_pop q in
    elim out [ none ↦ (q', []) | some ev ↦ let (r, evs) = drain f q' in (r, ev ∷ evs) ]

unfoldable pub run_events : Engine → Engine × List Event
run_events me =
    let (q, evs) = drain event_queue_cap me.eq in
    if me.has_handler then (record me { eq = q }, evs) else (me, [])

-- `me_is_crossed`
unfoldable pub is_crossed : Engine → Side → ℤ → Bool
is_crossed me side price = crosses me.store.book side price OrderType.limit
