-- ===== src/Book/Manage.antt =====
-- engine/orderbook.c, the calls that change a book: `ob_init`, `ob_destroy`, `ob_add_order`,
-- `ob_cancel_order` and `ob_modify_order`.
pub mod Slots
pub mod Opened
pub mod Linking
pub mod Opening
use profit_playground.Common.{ℕ, Bool, ◌||◌, if◌then◌else◌, ◌==◌, ltb, leb, List, []}
use profit_playground.Common.Int.{ℤ, pos, leb_ℤ}
use profit_playground.Common.Words.{add64, sub64, add32, sub32}
use profit_playground.Book.State.{
  Book, Order, Side, SideState, Status, Store, Match, null_idx, max_orders, max_levels, level_slots,
  is_invalid, opposite, side_of, set_side, level, order, set_order, zero_order, zero_level, now_ns,
  after_now,
}
use profit_playground.Book.Pool.{order_pool_alloc, order_pool_free}
use profit_playground.Book.Lookup.{lookup_init, lookup_find, lookup_insert, lookup_remove}
use profit_playground.Book.Fifo.{level_new, level_enqueue, level_dequeue}
use profit_playground.Book.Avl.{avl_insert, avl_remove, avl_find, avl_free_all}
use profit_playground.Book.Matching.{match_against_side}

abbrev empty_side : SideState
empty_side = record { root_idx = null_idx; level_count = 0; total_qty = 0 }

unfoldable pub empty_book : Book
empty_book = record {
  bids = empty_side;
  asks = empty_side;
  next_order_id = 1;
  total_orders_added = 0;
  total_orders_cancelled = 0;
  order_pool = λ i. zero_order;
  order_free_stack = λ i. if ltb i max_orders then i else 0;
  order_free_top = max_orders;
  level_pool = λ i. zero_level;
  level_free_stack = λ i. if ltb i level_slots then i else 0;
  level_free_top = level_slots;
}

-- `ob_init`: the book is cleared, and so is the table that every book of the process shares.
unfoldable pub init : Store → Store
init s = record s { book = empty_book; lookup = lookup_init }

-- `ob_destroy`: the slots go back to the pools, and the table is freed; a table that is allocated
-- again is empty.
unfoldable pub destroy : Store → Store
destroy s =
    let b1 = avl_free_all level_slots s.book s.book.bids.root_idx in
    let b2 = avl_free_all level_slots b1 b1.asks.root_idx in
    record s {
      book = record b2 {
        bids = record b2.bids { root_idx = null_idx };
        asks = record b2.asks { root_idx = null_idx };
      };
      lookup = lookup_init;
    }

-- What a call of `ob_add_order` gives through its result and its pointers.
pub record Added : Type 0 where
  pub status : Status
  pub out_id : ℕ
  pub fills : List Match
  pub mc : ℕ

-- The order that `ob_add_order` writes into its slot.
abbrev pub new_order : ℕ → Side → ℤ → ℕ → ℕ → ℕ → Order
new_order id side price qty expiry_ts now = record {
  id = id;
  price = price;
  qty_remain = qty;
  side = side;
  prev_idx = null_idx;
  next_idx = null_idx;
  qty = qty;
  ts_submit = now;
  ts_update = now;
  expiry_ts = expiry_ts;
}

-- A new level for `price` in the tree of `side`; `null_idx` if the side or the pool has none left.
unfoldable pub open_level : Book → Side → ℤ → Book × ℕ
open_level b side price =
    let (b1, li) = level_new b price in
    let (b2, root) = avl_insert level_slots b1 (side_of b1 side).root_idx li in
    if leb max_levels (side_of b side).level_count
    then (b, null_idx)
    else if li == null_idx
    then (b1, null_idx)
    else (
      set_side b2 side (record (side_of b2 side) {
        root_idx = root;
        level_count = add32 (side_of b2 side).level_count 1;
      }),
      li,
    )

-- `level_enqueue` and the side's total.
unfoldable pub enqueue : Book → Side → ℕ → ℕ → Book
enqueue b side li oi =
    let b' = level_enqueue b li oi in
    set_side b' side (record (side_of b' side) {
      total_qty = add64 (side_of b' side).total_qty (order b' oi).qty_remain;
    })

-- The level of `price`, opened where it is not there.
unfoldable pub find_or_open : Book → Side → ℤ → Book × ℕ
find_or_open b side price =
    let li = avl_find level_slots b (side_of b side).root_idx price in
    if li == null_idx then open_level b side price else (b, li)

-- The remainder of the order in slot `oi` rests, or the call is rejected for want of a level.
unfoldable pub rest_order : Store → Side → ℤ → ℕ → ℕ → Store × Status
rest_order s side price oi mc =
    let (b, li) = find_or_open s.book side price in
    let rested = enqueue b side li oi in
    if li == null_idx then (record s { book = order_pool_free b oi }, Status.rejected) else (
      record s { book = rested; lookup = lookup_insert s.lookup (order rested oi).id oi },
      if ltb 0 mc then Status.partial else Status.ok,
    )

-- The slot is taken: the order is written, and the id and the counter move on.
unfoldable pub admit : Store → Book → ℕ → Side → ℤ → ℕ → ℕ → Store
admit s b oi side price qty expiry_ts = record (after_now s) {
  book = record (set_order b oi (new_order b.next_order_id side price qty expiry_ts (now_ns s))) {
    next_order_id = add64 b.next_order_id 1;
    total_orders_added = add64 b.total_orders_added 1;
  };
}

-- The matching, with the aggressor's remainder written back to its slot, and what follows it.
unfoldable pub match_and_rest : Bool → Store → ℕ → Side → ℤ → ℕ → Store × Added
match_and_rest scratch s oi side price qty =
    let r = match_against_side scratch s (opposite side) price qty in
    let b = r.store.book in
    let b' = set_order b oi (record (order b oi) { qty_remain = r.qty_remain }) in
    let (s', st) = rest_order (record r.store { book = b' }) side price oi r.mc in
    let id = (order s.book oi).id in
    if r.qty_remain == 0
    then (
      record r.store { book = order_pool_free b' oi },
      record { status = Status.filled; out_id = id; fills = r.fills; mc = r.mc },
    )
    else (s', record { status = st; out_id = id; fills = r.fills; mc = r.mc })

abbrev pub refused : Added
refused = record { status = Status.rejected; out_id = 0; fills = []; mc = 0 }

-- `ob_add_order`; `scratch` tells whether the caller passed a buffer for the fills.
unfoldable pub add_order : Bool → Store → Side → ℤ → ℕ → ℕ → Store × Added
add_order scratch s side price qty expiry_ts =
    let (b, oi) = order_pool_alloc s.book in
    if leb_ℤ price (pos 0) || qty == 0 || is_invalid side
    then (s, refused)
    else if oi == null_idx
    then (record s { book = b }, refused)
    else match_and_rest scratch (admit s b oi side price qty expiry_ts) oi side price qty

-- The order of slot `oi` leaves the queue of level `li`, and an empty level the tree.
unfoldable pub detach : Book → Side → ℕ → ℕ → Book
detach b side li oi =
    let b1 = set_side b side (record (side_of b side) {
      total_qty = sub64 (side_of b side).total_qty (order b oi).qty_remain;
    }) in
    let b2 = level_dequeue b1 li oi in
    let (b3, root) = avl_remove level_slots b2 (side_of b2 side).root_idx (level b2 li).price in
    if (level b2 li).order_count == 0
    then set_side b3 side (record (side_of b3 side) {
      root_idx = root;
      level_count = sub32 (side_of b3 side).level_count 1;
    })
    else b2

-- `ob_cancel_order`
unfoldable pub cancel_order : Store → ℕ → Store × Status
cancel_order s id =
    let oi = lookup_find s.lookup id in
    let o = order s.book oi in
    let li = avl_find level_slots s.book (side_of s.book o.side).root_idx o.price in
    let b = order_pool_free (detach s.book o.side li oi) oi in
    if oi == null_idx
    then (s, Status.not_found)
    else if li == null_idx
    then (s, Status.not_found)
    else (
      record s {
        book = record b { total_orders_cancelled = add64 b.total_orders_cancelled 1 };
        lookup = lookup_remove s.lookup id;
      },
      Status.ok,
    )

-- `ob_modify_order`: the order leaves its level, takes the new price and quantity, and goes to the
-- tail of the new level, without being matched. The source does not test what `level_new` gives:
-- with no free slot, while the side has room for a level, it would write out of the pool; the model
-- rejects there.
unfoldable pub modify_order : Store → ℕ → ℤ → ℕ → Store × Status
modify_order s id new_price new_qty =
    let oi = lookup_find s.lookup id in
    let o = order s.book oi in
    let li = avl_find level_slots s.book (side_of s.book o.side).root_idx o.price in
    let b1 = detach s.book o.side li oi in
    let b2 =
      set_order b1 oi
        (record (order b1 oi) { price = new_price; qty_remain = new_qty; ts_update = now_ns s }) in
    let (b3, dst) = find_or_open b2 o.side new_price in
    if leb_ℤ new_price (pos 0) || new_qty == 0
    then (s, Status.rejected)
    else if oi == null_idx
    then (s, Status.not_found)
    else if dst == null_idx
    then (
      record (after_now s) { book = order_pool_free b3 oi; lookup = lookup_remove s.lookup id },
      Status.rejected,
    )
    else (record (after_now s) { book = enqueue b3 o.side dst oi }, Status.ok)
