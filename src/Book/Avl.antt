-- ===== src/Book/Avl.antt =====
-- engine/orderbook.c, the AVL tree of price levels, linked through indices of the level pool. A
-- recursion or walk down the tree has the number of level slots as fuel: no path is longer.
pub mod Shape
pub mod Rotate
pub mod Turn
pub mod Double
pub mod Balance
pub mod Grow
pub mod Regrow
pub mod Growth
pub mod InsertLeft
pub mod InsertRight
pub mod Insert
pub mod Shrink
pub mod Reshrink
pub mod Removal
pub mod Remove
pub mod RemoveRight
pub mod Replace
pub mod Replaced
pub mod Erase
pub mod Find
pub mod Levels
use profit_playground.Common.{ℕ, zero, suc, ◌+◌, Bool, ◌&&◌, ◌||◌, if◌then◌else◌, ◌==◌, ltb}
use profit_playground.Common.Int.{ℤ, pos, negsuc, sub_ℕ, ltb_ℤ, leb_ℤ}
use profit_playground.Book.State.{Book, null_idx, level_slots, level, set_level, order}
use profit_playground.Book.Pool.{level_pool_free, order_pool_free}

unfoldable pub avl_height : Book → ℕ → ℕ
avl_height b i = if i == null_idx then 0 else (level b i).height

unfoldable pub avl_balance : Book → ℕ → ℤ
avl_balance b i =
    if i == null_idx
    then pos 0
    else sub_ℕ (avl_height b (level b i).left_idx) (avl_height b (level b i).right_idx)

unfoldable pub avl_update_height : Book → ℕ → Book
avl_update_height b i =
    if i == null_idx
    then b
    else (let lh = avl_height b (level b i).left_idx in
        let rh = avl_height b (level b i).right_idx in
        set_level b i (record (level b i) { height = 1 + (if ltb rh lh then lh else rh) }))

abbrev pub set_left : Book → ℕ → ℕ → Book
set_left b i l = set_level b i (record (level b i) { left_idx = l })

abbrev pub set_right : Book → ℕ → ℕ → Book
set_right b i r = set_level b i (record (level b i) { right_idx = r })

unfoldable pub avl_rotate_right : Book → ℕ → Book × ℕ
avl_rotate_right b yi =
    let xi = (level b yi).left_idx in
    let t2 = (level b xi).right_idx in
    let b1 = set_right b xi yi in
    let b2 = set_left b1 yi t2 in (avl_update_height (avl_update_height b2 yi) xi, xi)

unfoldable pub avl_rotate_left : Book → ℕ → Book × ℕ
avl_rotate_left b xi =
    let yi = (level b xi).right_idx in
    let t2 = (level b yi).left_idx in
    let b1 = set_left b yi xi in
    let b2 = set_right b1 xi t2 in (avl_update_height (avl_update_height b2 xi) yi, yi)

-- `avl_rotate_left` on the left child, then `avl_rotate_right`; and the mirror image.
unfoldable pub rotate_left_right : Book → ℕ → Book × ℕ
rotate_left_right b root =
    let (b', l) = avl_rotate_left b (level b root).left_idx in
    avl_rotate_right (set_left b' root l) root

unfoldable pub rotate_right_left : Book → ℕ → Book × ℕ
rotate_right_left b root =
    let (b', r) = avl_rotate_right b (level b root).right_idx in
    avl_rotate_left (set_right b' root r) root

-- `bal > 1` and `bal < -1`
abbrev pub left_heavy : ℤ → Bool
left_heavy bal = ltb_ℤ (pos 1) bal

abbrev pub right_heavy : ℤ → Bool
right_heavy bal = ltb_ℤ bal (negsuc 0)

-- The end of `avl_insert`, after the recursive call.
unfoldable pub insert_rebalance : Book → ℕ → ℤ → Book × ℕ
insert_rebalance b root np =
    let b' = avl_update_height b root in
    let bal = avl_balance b' root in
    let left_price = (level b' (level b' root).left_idx).price in
    let right_price = (level b' (level b' root).right_idx).price in
    if left_heavy bal && ltb_ℤ np left_price
    then avl_rotate_right b' root
    else if right_heavy bal && ltb_ℤ right_price np
    then avl_rotate_left b' root
    else if left_heavy bal && ltb_ℤ left_price np
    then rotate_left_right b' root
    else if right_heavy bal && ltb_ℤ np right_price
    then rotate_right_left b' root
    else (b', root)

unfoldable pub avl_insert : ℕ → Book → ℕ → ℕ → Book × ℕ
avl_insert zero b root node = (b, root)
avl_insert (suc f) b root node =
    let np = (level b node).price in
    let rp = (level b root).price in
    let go_left =
      (let (b', l) = avl_insert f b (level b root).left_idx node in
        insert_rebalance (set_left b' root l) root np) in
    let go_right =
      (let (b', r) = avl_insert f b (level b root).right_idx node in
        insert_rebalance (set_right b' root r) root np) in
    if root == null_idx
    then (b, node)
    else if ltb_ℤ np rp
    then go_left
    else if ltb_ℤ rp np
    then go_right
    else (b, root)

unfoldable pub avl_min : ℕ → Book → ℕ → ℕ
avl_min zero b i = i
avl_min (suc f) b i =
    let rest = avl_min f b (level b i).left_idx in
    if i == null_idx then i else if (level b i).left_idx == null_idx then i else rest

unfoldable pub avl_max : ℕ → Book → ℕ → ℕ
avl_max zero b i = i
avl_max (suc f) b i =
    let rest = avl_max f b (level b i).right_idx in
    if i == null_idx then i else if (level b i).right_idx == null_idx then i else rest

-- The end of `avl_remove`, after the recursive call.
unfoldable pub remove_rebalance : Book → ℕ → Book × ℕ
remove_rebalance b root =
    let b' = avl_update_height b root in
    let bal = avl_balance b' root in
    let left_bal = avl_balance b' (level b' root).left_idx in
    let right_bal = avl_balance b' (level b' root).right_idx in
    if left_heavy bal && leb_ℤ (pos 0) left_bal
    then avl_rotate_right b' root
    else if left_heavy bal && ltb_ℤ left_bal (pos 0)
    then rotate_left_right b' root
    else if right_heavy bal && leb_ℤ right_bal (pos 0)
    then avl_rotate_left b' root
    else if right_heavy bal && ltb_ℤ (pos 0) right_bal
    then rotate_right_left b' root
    else (b', root)

-- The fields that `avl_remove` copies from the in-order successor.
unfoldable pub copy_level : Book → ℕ → ℕ → Book
copy_level b root succ =
    let s = level b succ in
    set_level b root (record (level b root) {
      price = s.price;
      total_qty = s.total_qty;
      order_count = s.order_count;
      head_idx = s.head_idx;
      tail_idx = s.tail_idx;
    })

unfoldable pub avl_remove : ℕ → Book → ℕ → ℤ → Book × ℕ
avl_remove zero b root price = (b, root)
avl_remove (suc f) b root price =
    let left = (level b root).left_idx in
    let right = (level b root).right_idx in
    let succ = avl_min level_slots b right in
    let copied = copy_level b root succ in
    let go_left =
      (let (b', l) = avl_remove f b left price in remove_rebalance (set_left b' root l) root) in
    let go_right =
      (let (b', r) = avl_remove f b right price in remove_rebalance (set_right b' root r) root) in
    let replace =
      (let (b', r) = avl_remove f copied (level copied root).right_idx (level copied succ).price in
        remove_rebalance (set_right b' root r) root) in
    if root == null_idx
    then (b, null_idx)
    else if ltb_ℤ price (level b root).price
    then go_left
    else if ltb_ℤ (level b root).price price
    then go_right
    else if left == null_idx || right == null_idx
    then (level_pool_free b root, if left == null_idx then right else left)
    else replace

unfoldable pub avl_find : ℕ → Book → ℕ → ℤ → ℕ
avl_find zero b root price = null_idx
avl_find (suc f) b root price =
    let go_left = avl_find f b (level b root).left_idx price in
    let go_right = avl_find f b (level b root).right_idx price in
    if root == null_idx
    then null_idx
    else if ltb_ℤ price (level b root).price
    then go_left
    else if ltb_ℤ (level b root).price price
    then go_right
    else root

-- The queue of one level goes back to the order pool.
unfoldable pub free_queue : ℕ → Book → ℕ → Book
free_queue zero b oi = b
free_queue (suc f) b oi =
    let rest = free_queue f (order_pool_free b oi) (order b oi).next_idx in
    if oi == null_idx then b else rest

unfoldable pub avl_free_all : ℕ → Book → ℕ → Book
avl_free_all zero b root = b
avl_free_all (suc f) b root =
    let b1 = avl_free_all f b (level b root).left_idx in
    let b2 = avl_free_all f b1 (level b1 root).right_idx in
    let freed = level_pool_free (free_queue 4096 b2 (level b2 root).head_idx) root in
    if root == null_idx then b else freed
