-- ===== src/Book/Matching.antt =====
-- engine/orderbook.c, `match_against_side`: the fill loop in price-time priority. `*qty_remain` is
-- passed in and out by value: it lies in the aggressor's own slot, which no queue links.
pub mod Account
pub mod Rounds
pub mod Heads
pub mod Empty
pub mod Priority
use profit_playground.Common.{
  ℕ, zero, suc, Bool, ◌&&◌, ◌||◌, if◌then◌else◌, ◌==◌, ltb, List, [], ◌∷◌, ◌++◌,
}
use profit_playground.Common.Int.{ℤ, ltb_ℤ}
use profit_playground.Common.Words.{sub64, sub32, add32}
use profit_playground.Book.State.{
  Book, Order, Side, Store, Match, null_idx, max_orders, level_slots, is_ask, is_bid, side_of,
  set_side, level, set_level, order, set_order, now_ns, after_now,
}
use profit_playground.Book.Pool.{order_pool_free}
use profit_playground.Book.Lookup.{lookup_remove}
use profit_playground.Book.Fifo.{level_dequeue}
use profit_playground.Book.Avl.{avl_min, avl_max, avl_remove}

-- The variables of the loops. `fills` is the scratch buffer up to `mc`, which stays empty where the
-- caller passed no buffer.
pub record Run : Type 0 where
  pub store : Store
  pub qty_remain : ℕ
  pub fills : List Match
  pub mc : ℕ

-- `(*qty_remain < rest->qty_remain) ? *qty_remain : rest->qty_remain`
abbrev pub fill_qty : ℕ → ℕ → ℕ
fill_qty need rest = if ltb need rest then need else rest

-- `scratch && *mc < OB_MAX_ORDERS`: the fill is recorded, with the time of the clock.
unfoldable pub record_fill : Bool → Run → Order → ℤ → ℕ → Run
record_fill scratch r rest price qty =
    if scratch && ltb r.mc max_orders
    then record r {
      store = after_now r.store;
      fills =
          r.fills
          ++ (record { resting_id = rest.id; price = price; qty = qty; ts = now_ns r.store } ∷ []);
      mc = add32 r.mc 1;
    }
    else r

-- The three quantities of the resting side that a fill of `qty` lowers.
unfoldable pub take_fill : Book → Side → ℕ → ℕ → ℕ → Book
take_fill b opp li oi qty =
    let b1 =
      set_order b oi (record (order b oi) { qty_remain = sub64 (order b oi).qty_remain qty }) in
    let b2 =
      set_level b1 li (record (level b1 li) { total_qty = sub64 (level b1 li).total_qty qty }) in
    set_side b2 opp (record (side_of b2 opp) { total_qty = sub64 (side_of b2 opp).total_qty qty })

-- A resting order with nothing left leaves its queue, the id table and the pool.
unfoldable pub drop_filled : Store → ℕ → ℕ → Store
drop_filled s li oi =
    if (order s.book oi).qty_remain == 0
    then (let b = level_dequeue s.book li oi in
        record s { book = order_pool_free b oi; lookup = lookup_remove s.lookup (order b oi).id })
    else s

-- One round of the inner loop: the head of the queue is filled.
unfoldable pub fill_head : Bool → Side → ℕ → Run → Run
fill_head scratch opp li r =
    let b = r.store.book in
    let oi = (level b li).head_idx in
    let qty = fill_qty r.qty_remain (order b oi).qty_remain in
    let r1 = record_fill scratch r (order b oi) (level b li).price qty in
    let taken = record r1.store { book = take_fill r1.store.book opp li oi qty } in
    record r1 { store = drop_filled taken li oi; qty_remain = sub64 r1.qty_remain qty }

-- The inner loop: head first, until the aggressor or the queue is done.
unfoldable pub fill_level : ℕ → Bool → Side → ℕ → Run → Run
fill_level zero scratch opp li r = r
fill_level (suc f) scratch opp li r =
    let next = fill_level f scratch opp li (fill_head scratch opp li r) in
    if r.qty_remain == 0 || (level r.store.book li).head_idx == null_idx then r else next

-- An empty level leaves the tree.
unfoldable pub drop_empty : Book → Side → ℕ → Book
drop_empty b opp li =
    if (level b li).order_count == 0
    then (let (b', root) = avl_remove level_slots b (side_of b opp).root_idx (level b li).price in
        set_side b' opp (record (side_of b' opp) {
          root_idx = root;
          level_count = sub32 (side_of b' opp).level_count 1;
        }))
    else b

-- The lowest ask or the highest bid.
unfoldable pub best_level : Book → Side → ℕ
best_level b opp =
    if is_ask opp
    then avl_min level_slots b (side_of b opp).root_idx
    else avl_max level_slots b (side_of b opp).root_idx

-- The price boundary: the level does not cross the aggressor's limit.
abbrev pub beyond : Side → ℤ → ℤ → Bool
beyond opp level_price limit =
    (is_ask opp && ltb_ℤ limit level_price) || (is_bid opp && ltb_ℤ level_price limit)

-- The fuel: one round more than the order pool has slots, and one more than the level pool has.
abbrev pub fill_rounds : ℕ
fill_rounds = 4097

abbrev pub match_rounds : ℕ
match_rounds = 513

unfoldable pub match_levels : ℕ → ℕ → Bool → Side → ℤ → Run → Run
match_levels zero g scratch opp limit r = r
match_levels (suc f) g scratch opp limit r =
    let b = r.store.book in
    let li = best_level b opp in
    let r1 = fill_level g scratch opp li r in
    let r2 = record r1 { store = record r1.store { book = drop_empty r1.store.book opp li } } in
    let next = match_levels f g scratch opp limit r2 in
    if r.qty_remain == 0 || (side_of b opp).root_idx == null_idx
    then r
    else if li == null_idx || beyond opp (level b li).price limit
    then r
    else next

unfoldable pub match_against_side : Bool → Store → Side → ℤ → ℕ → Run
match_against_side scratch s opp limit qty =
    match_levels match_rounds fill_rounds scratch opp limit
      (record { store = s; qty_remain = qty; fills = []; mc = 0 })
