-- ===== src/Orders/Liquidity.antt =====
-- engine/orders.c, the fill-or-kill check: a pruned walk of the opposite tree. `limit` and `need`
-- of `fok_walk_t` do not change, and `accum` is threaded through.
pub mod Sum
use profit_playground.Common.{ℕ, zero, suc, Bool, ◌||◌, if◌then◌else◌, ◌==◌, ltb, leb}
use profit_playground.Common.Int.{ℤ, ltb_ℤ}
use profit_playground.Common.Words.{add64}
use profit_playground.Book.State.{Book, Side, null_idx, level_slots, is_bid, level}

unfoldable pub fok_sum_asc : ℕ → Book → ℕ → ℤ → ℕ → ℕ → ℕ
fok_sum_asc zero b i limit need accum = accum
fok_sum_asc (suc f) b i limit need accum =
    let lv = level b i in
    let left = fok_sum_asc f b lv.left_idx limit need accum in
    let own = add64 left lv.total_qty in
    let right = fok_sum_asc f b lv.right_idx limit need own in
    if i == null_idx || leb need accum
    then accum
    else if ltb_ℤ limit lv.price
    then left
    else if ltb own need
    then right
    else own

unfoldable pub fok_sum_desc : ℕ → Book → ℕ → ℤ → ℕ → ℕ → ℕ
fok_sum_desc zero b i limit need accum = accum
fok_sum_desc (suc f) b i limit need accum =
    let lv = level b i in
    let right = fok_sum_desc f b lv.right_idx limit need accum in
    let own = add64 right lv.total_qty in
    let left = fok_sum_desc f b lv.left_idx limit need own in
    if i == null_idx || leb need accum
    then accum
    else if ltb_ℤ lv.price limit
    then right
    else if ltb own need
    then left
    else own

-- `orders_fok_check`
unfoldable pub fok_check : Book → Side → ℤ → ℕ → Bool
fok_check b side price qty =
    if is_bid side
    then leb qty (fok_sum_asc level_slots b b.asks.root_idx price qty 0)
    else leb qty (fok_sum_desc level_slots b b.bids.root_idx price qty 0)
