-- ===== src/Book/Fifo.antt =====
-- engine/orderbook.c, the level helpers: the orders of one price as a queue that is linked through
-- indices of the order pool.
pub mod Queue
pub mod Leave
pub mod Chain
use profit_playground.Common.{ℕ, if◌then◌else◌, ◌==◌}
use profit_playground.Common.Int.{ℤ}
use profit_playground.Common.Words.{add64, sub64, add32, sub32}
use profit_playground.Book.State.{Book, null_idx, zero_level, level, set_level, order, set_order}
use profit_playground.Book.Pool.{level_pool_alloc}

unfoldable pub level_new : Book → ℤ → Book × ℕ
level_new b price =
    let (b', li) = level_pool_alloc b in
    if li == null_idx then (b', null_idx) else (
      set_level b' li (record zero_level {
        price = price;
        height = 1;
        head_idx = null_idx;
        tail_idx = null_idx;
        left_idx = null_idx;
        right_idx = null_idx;
      }),
      li,
    )

-- The writes through `o` come first, then the link of the old tail, then those through `lv`.
unfoldable pub level_enqueue : Book → ℕ → ℕ → Book
level_enqueue b li oi =
    let lv = level b li in
    let b1 = set_order b oi (record (order b oi) { prev_idx = lv.tail_idx; next_idx = null_idx }) in
    let b2 =
      (if lv.tail_idx == null_idx
        then b1
        else set_order b1 lv.tail_idx (record (order b1 lv.tail_idx) { next_idx = oi })) in
    set_level b2 li (record lv {
      head_idx = if lv.tail_idx == null_idx then oi else lv.head_idx;
      tail_idx = oi;
      total_qty = add64 lv.total_qty (order b2 oi).qty_remain;
      order_count = add32 lv.order_count 1;
    })

unfoldable pub level_dequeue : Book → ℕ → ℕ → Book
level_dequeue b li oi =
    let lv = level b li in
    let prev = (order b oi).prev_idx in
    let b1 =
      (if prev == null_idx
        then b
        else set_order b prev (record (order b prev) { next_idx = (order b oi).next_idx })) in
    let next = (order b1 oi).next_idx in
    let b2 =
      (if next == null_idx
        then b1
        else set_order b1 next (record (order b1 next) { prev_idx = (order b1 oi).prev_idx })) in
    let b3 = set_order b2 oi (record (order b2 oi) { prev_idx = null_idx; next_idx = null_idx }) in
    set_level b3 li (record lv {
      head_idx = if prev == null_idx then (order b oi).next_idx else lv.head_idx;
      tail_idx = if next == null_idx then (order b1 oi).prev_idx else lv.tail_idx;
      total_qty = sub64 lv.total_qty (order b3 oi).qty_remain;
      order_count = sub32 lv.order_count 1;
    })
