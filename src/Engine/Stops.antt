-- ===== src/Engine/Stops.antt =====
-- engine/matching_engine.c, the pool of dormant stops: submission, cancellation and expiry.
pub mod Count
pub mod Nested
pub mod Valid
pub mod Life
pub mod Leave
pub mod Sweep
use profit_playground.Common.{
  ℕ, zero, suc, ◌+◌, Bool, true, false, not, ◌&&◌, ◌||◌, if◌then◌else◌, ◌==◌, ltb, leb, update,
  Option, none, some,
}
use profit_playground.Common.Int.{ℤ, pos, leb_ℤ, eqb_ℤ}
use profit_playground.Common.Words.{add64, add32}
use profit_playground.Book.State.{
  Store, Side, Status, is_invalid, now_ns, after_now, order, max_orders,
}
use profit_playground.Book.Manage.{cancel_order}
use profit_playground.Orders.State.{OrderType, is_stop, is_stop_limit}
use profit_playground.Engine.State.{Engine, EventType, Result, StopOrder, zero_result, max_stops}
use profit_playground.Engine.Emit.{emit_order_event, maybe_emit_tob}
use profit_playground.Engine.Submit.{deactivate}
use Prim.Native.String.{String}

-- The scan of the slots from `i` on, `n` of them; `none` is the -1 of a full pool.
unfoldable pub find_free_from : (ℕ → StopOrder) → ℕ → ℕ → Option ℕ
find_free_from stops zero i = none
find_free_from stops (suc n) i =
    let rest = find_free_from stops n (i + 1) in if (stops i).active then rest else some i

-- `stop_pool_find_free`
unfoldable pub find_free : Engine → Option ℕ
find_free me = find_free_from me.stops max_stops 0

unfoldable pub refuse_stop : Engine → OrderType → Side → ℤ → ℕ → String → Engine × Result
refuse_stop me type side trigger_price qty reason =
    let counted : Engine = record me { orders_rejected = add64 me.orders_rejected 1 } in
    (
      emit_order_event counted EventType.rejected 0 side type trigger_price qty qty 0 (some reason),
      record zero_result { status = Status.rejected },
    )

-- The three checks of the parameters, in the source's order.
unfoldable pub stop_error : OrderType → Side → ℤ → ℤ → ℕ → Option String
stop_error type side trigger_price limit_price qty =
    if qty == 0 || is_invalid side || leb_ℤ trigger_price (pos 0)
    then some "invalid stop params"
    else if is_stop type && not (eqb_ℤ limit_price (pos 0))
    then some "stop-market must have limit_price = 0"
    else if is_stop_limit type && leb_ℤ limit_price (pos 0)
    then some "stop-limit must have limit_price > 0"
    else none

-- The fields that `me_submit_stop` writes into its slot.
abbrev pub new_stop : Engine → OrderType → Side → ℤ → ℤ → ℕ → ℕ → StopOrder
new_stop me type side trigger_price limit_price qty ttl_ns = record {
  id = me.store.book.next_order_id;
  side = side;
  orig_type = type;
  trigger_price = trigger_price;
  limit_price = limit_price;
  qty = qty;
  expiry_ts = if ltb 0 ttl_ns then add64 (now_ns me.store) ttl_ns else 0;
  active = true;
}

-- The stop goes into `slot`, under the next id of the book. The clock is read only for a stop that
-- expires.
unfoldable pub store_stop : Engine → ℕ → OrderType → Side → ℤ → ℤ → ℕ → ℕ → Engine × Result
store_stop me slot type side trigger_price limit_price qty ttl_ns =
    let s = me.store in
    let id = s.book.next_order_id in
    let numbered : Store = record s { book = record (s.book) { next_order_id = add64 id 1 } } in
    let stored : Engine = record me {
      store = if ltb 0 ttl_ns then after_now numbered else numbered;
      stops = update me.stops slot (new_stop me type side trigger_price limit_price qty ttl_ns);
      stop_count = add32 me.stop_count 1;
      orders_accepted = add64 me.orders_accepted 1;
    } in
    (
      emit_order_event stored EventType.accepted id side type trigger_price qty qty 0 none,
      record zero_result { id = id; status = Status.ok },
    )

-- `me_submit_stop`
unfoldable pub submit_stop : Engine → OrderType → Side → ℤ → ℤ → ℕ → ℕ → Engine × Result
submit_stop me type side trigger_price limit_price qty ttl_ns =
    elim (stop_error type side trigger_price limit_price qty) [
      | some reason ↦ refuse_stop me type side trigger_price qty reason
      | none ↦ elim (find_free me) [
        | none ↦ refuse_stop me type side trigger_price qty "stop pool full"
        | some slot ↦ store_stop me slot type side trigger_price limit_price qty ttl_ns
      ]
    ]

-- The stop of slot `i` is cancelled, with the reason of the caller.
unfoldable pub cancel_slot : Engine → ℕ → Option String → Engine
cancel_slot me i reason =
    let s = me.stops i in
    emit_order_event (deactivate me i) EventType.cancelled s.id s.side s.orig_type s.trigger_price
      s.qty 0 0 reason

unfoldable pub cancel_stop_from : Engine → ℕ → ℕ → ℕ → Engine × Bool
cancel_stop_from me id zero i = (me, false)
cancel_stop_from me id (suc n) i =
    let rest = cancel_stop_from me id n (i + 1) in
    if (me.stops i).active && (me.stops i).id == id then (cancel_slot me i none, true) else rest

-- `me_cancel_stop`
unfoldable pub cancel_stop : Engine → ℕ → Engine × Bool
cancel_stop me id = cancel_stop_from me id max_stops 0

-- `expiry_ts > 0 && expiry_ts <= now`
abbrev pub is_due : ℕ → ℕ → Bool
is_due expiry_ts now = ltb 0 expiry_ts && leb expiry_ts now

-- The sweep of the stops; `expired` counts.
unfoldable pub expire_stops : ℕ → ℕ → ℕ → Engine → ℕ → Engine × ℕ
expire_stops now zero i me expired = (me, expired)
expire_stops now (suc n) i me expired =
    let due = (me.stops i).active && is_due (me.stops i).expiry_ts now in
    expire_stops now n (i + 1) (if due then cancel_slot me i (some "expired") else me)
      (if due then add32 expired 1 else expired)

unfoldable pub cancel_expired : Engine → ℕ → Engine
cancel_expired me i =
    let o = order me.store.book i in
    emit_order_event (record me { store = (cancel_order me.store o.id).0 }) EventType.cancelled o.id
      o.side OrderType.limit o.price o.qty 0 0 (some "day order expired")

-- The sweep of the order pool.
unfoldable pub expire_book : ℕ → ℕ → ℕ → Engine → ℕ → Engine × ℕ
expire_book now zero i me expired = (me, expired)
expire_book now (suc n) i me expired =
    let o = order me.store.book i in
    let due = not (o.id == 0) && is_due o.expiry_ts now in
    expire_book now n (i + 1) (if due then cancel_expired me i else me)
      (if due then add32 expired 1 else expired)

-- `me_expire_orders`
unfoldable pub expire_orders : Engine → ℕ → Engine × ℕ
expire_orders me now =
    let (me1, n1) = expire_stops now max_stops 0 me 0 in
    let (me2, n2) = expire_book now max_orders 0 me1 n1 in
    (if ltb 0 n2 then maybe_emit_tob me2 else me2, n2)
