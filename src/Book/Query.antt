-- ===== src/Book/Query.antt =====
-- engine/orderbook.c, the queries: best prices, spread, mid price, depth, top levels and snapshots.
pub mod Crown
pub mod Depth
use profit_playground.Common.{
  ℕ, zero, suc, Bool, ◌||◌, if◌then◌else◌, ◌==◌, List, [], ◌∷◌, ◌++◌, Option, none, some,
}
use profit_playground.Common.Int.{ℤ, pos, negsuc, ◌+ℤ◌, ◌-ℤ◌, div_pos, leb_ℤ, eqb_ℤ}
use profit_playground.Common.Words.{add64}
use profit_playground.Book.State.{
  Book, Order, Side, Store, null_idx, level_slots, is_bid, is_ask, side_of, level, order,
}
use profit_playground.Book.Lookup.{lookup_find}
use profit_playground.Book.Avl.{avl_min, avl_max}

-- 0 if the side is empty.
unfoldable pub best_bid : Book → ℤ
best_bid b =
    let li = avl_max level_slots b b.bids.root_idx in
    if li == null_idx then pos 0 else (level b li).price

unfoldable pub best_ask : Book → ℤ
best_ask b =
    let li = avl_min level_slots b b.asks.root_idx in
    if li == null_idx then pos 0 else (level b li).price

-- `!bid || !ask`
abbrev pub one_sided : ℤ → ℤ → Bool
one_sided bid ask = eqb_ℤ bid (pos 0) || eqb_ℤ ask (pos 0)

unfoldable pub spread : Book → ℤ
spread b = if one_sided (best_bid b) (best_ask b) then negsuc 0 else best_ask b -ℤ best_bid b

unfoldable pub mid_price : Book → ℤ
mid_price b =
    if one_sided (best_bid b) (best_ask b) then pos 0 else div_pos (best_bid b +ℤ best_ask b) 2

-- The price lies within `range` of `limit`, on the side's own hand.
abbrev pub within : Side → ℤ → ℤ → ℤ → Bool
within side limit range p =
    if is_bid side then leb_ℤ (limit -ℤ range) p else leb_ℤ p (limit +ℤ range)

unfoldable pub depth_in_tree : ℕ → Book → ℕ → Side → ℤ → ℤ → ℕ
depth_in_tree zero b root side limit range = 0
depth_in_tree (suc f) b root side limit range =
    let lv = level b root in
    let near = within side limit range lv.price in
    let far_child = if is_bid side then lv.left_idx else lv.right_idx in
    let near_child = if is_bid side then lv.right_idx else lv.left_idx in
    let far_sum = depth_in_tree f b far_child side limit range in
    let near_sum = depth_in_tree f b near_child side limit range in
    let own = if near then lv.total_qty else 0 in
    let both = add64 (add64 own far_sum) near_sum in
    let one = add64 own far_sum in if root == null_idx then 0 else if near then both else one

-- `ob_depth`; a range of -1 (`UINT64_MAX` as a price) asks for the whole side.
unfoldable pub depth : Book → Side → ℤ → ℕ
depth b side range =
    let best = if is_bid side then best_bid b else best_ask b in
    let sum = depth_in_tree level_slots b (side_of b side).root_idx side best range in
    if eqb_ℤ range (negsuc 0)
    then (side_of b side).total_qty
    else if eqb_ℤ best (pos 0)
    then 0
    else sum

unfoldable pub collect_asc : ℕ → Book → ℕ → List ℕ → List ℕ
collect_asc zero b root lst = lst
collect_asc (suc f) b root lst =
    let l = collect_asc f b (level b root).left_idx lst in
    let r = collect_asc f b (level b root).right_idx (l ++ (root ∷ [])) in
    if root == null_idx then lst else r

unfoldable pub collect_desc : ℕ → Book → ℕ → List ℕ → List ℕ
collect_desc zero b root lst = lst
collect_desc (suc f) b root lst =
    let r = collect_desc f b (level b root).right_idx lst in
    let l = collect_desc f b (level b root).left_idx (r ++ (root ∷ [])) in
    if root == null_idx then lst else l

-- The price and quantity of the first `n` levels of a list.
unfoldable pub copy_levels : Book → List ℕ → ℕ → List (ℤ × ℕ)
copy_levels b [] n = []
copy_levels b (i ∷ is) zero = []
copy_levels b (i ∷ is) (suc n) = ((level b i).price, (level b i).total_qty) ∷ copy_levels b is n

-- `ob_top_levels`: best price first. The result's length is the source's return value.
unfoldable pub top_levels : Book → Side → ℕ → List (ℤ × ℕ)
top_levels b side n =
    if is_ask side
    then copy_levels b (collect_asc level_slots b b.asks.root_idx []) n
    else copy_levels b (collect_desc level_slots b b.bids.root_idx []) n

unfoldable pub get_order : Store → ℕ → Option Order
get_order s id =
    let oi = lookup_find s.lookup id in if oi == null_idx then none else some (order s.book oi)
