-- ===== src/Tests/Trees.antt =====
-- A book whose sides are both a tree of three levels: 3 at 101, 5 at 100 and 4 at 102.
use profit_playground.Common.{ℕ, ◌≡◌, ◌≤◌, ◌↔◌, ◌≢◌, refl, arith, if◌then◌else◌, ◌==◌, leb}
use profit_playground.Common.Int.{pos, ◌-ℤ◌}
use profit_playground.Book.State.{Book, Level, Side, SideState, zero_level, null_idx, level_slots}
use profit_playground.Book.Avl.{avl_max}
use profit_playground.Book.Query.{best_bid, best_ask, depth}
use profit_playground.Book.Query.Crown.{crown}
use profit_playground.Book.Query.Depth.{depth_lem, best, near}
use profit_playground.Book.Tree.{Tree, leaf, node, AllSlots, Links, Sorted, IsTree}
use profit_playground.Book.Tree.Sums.{total}
use profit_playground.Book.Tree.Best.{IsHighest, IsLowest, best_prices_lem}
use profit_playground.Orders.State.{OrderType, Flow}
use profit_playground.Orders.Liquidity.{fok_check}
use profit_playground.Orders.Liquidity.Sum.{crossing, fok_check_lem}
use profit_playground.Orders.Preprocess.{preprocess}
use profit_playground.Orders.Preprocess.Admits.{Admissible, given_price, preprocess_lem}

abbrev levels : ℕ → Level
levels i =
    if i == 0
    then record zero_level { price = pos 101; total_qty = 3; left_idx = 1; right_idx = 2 }
    else if i == 1
    then record zero_level {
      price = pos 100;
      total_qty = 5;
      left_idx = null_idx;
      right_idx = null_idx;
    }
    else record zero_level {
      price = pos 102;
      total_qty = 4;
      left_idx = null_idx;
      right_idx = null_idx;
    }

abbrev three : Book
three = record {
  bids = record { root_idx = 0; level_count = 3; total_qty = 12 };
  asks = record { root_idx = 0; level_count = 3; total_qty = 12 };
  next_order_id = 4;
  total_orders_added = 3;
  total_orders_cancelled = 0;
  order_pool = λ i. profit_playground.Book.State.zero_order;
  order_free_stack = λ i. i;
  order_free_top = 4093;
  level_pool = levels;
  level_free_stack = λ i. i;
  level_free_top = 509;
}

abbrev three_tree : Tree
three_tree = node (node leaf 1 leaf) 0 (node leaf 2 leaf)

three-IsTree : IsTree three 0 three_tree
unfolding Links Sorted AllSlots
three-IsTree = record {
  links = (refl, omega arith, (refl, omega arith, refl, refl), (refl, omega arith, refl, refl));
  sorted = ((omega arith, tt, tt), (omega arith, tt, tt), (tt, tt, tt, tt), (tt, tt, tt, tt));
  fits = omega arith;
}

best_prices_lem_example :
    IsHighest three three_tree (best_bid three) × IsLowest three three_tree (best_ask three)
best_prices_lem_example = best_prices_lem three three_tree three_tree three-IsTree three-IsTree

fok_check_lem_example :
    fok_check three Side.bid (pos 101) 9
    ≡ leb 9 (total (crossing Side.bid (pos 101)) three three_tree)
unfolding total
fok_check_lem_example =
    fok_check_lem three Side.bid (pos 101) 9 three_tree three-IsTree (omega arith)

preprocess_lem_example :
    (((preprocess three OrderType.fok Side.bid (pos 101) 8).flow ≢ Flow.reject)
      ↔ Admissible three three_tree OrderType.fok Side.bid (pos 101) 8)
    × ((preprocess three OrderType.fok Side.bid (pos 101) 8).flow ≢ Flow.reject
        → (preprocess three OrderType.fok Side.bid (pos 101) 8).eff_price
          ≡ given_price OrderType.fok Side.bid (pos 101))
unfolding total
preprocess_lem_example =
    preprocess_lem three OrderType.fok Side.bid (pos 101) 8 three_tree three-IsTree (omega arith)

-- The range 0 leaves the root at 101 out.
depth_lem_example :
    (depth three Side.bid (pos 0)
      ≡ crown (near Side.bid (best three Side.bid) (pos 0)) three three_tree)
    × (depth three Side.bid (pos 0)
        ≤ total (near Side.bid (best three Side.bid) (pos 0)) three three_tree)
unfolding total near best_bid avl_max ◌-ℤ◌ AllSlots
depth_lem_example =
    depth_lem three Side.bid (pos 0) three_tree three-IsTree (λ e. ground (arith, e))
      (omega arith, (omega arith, tt, tt), (omega arith, tt, tt)) (λ e. ground (arith, e))
      (omega arith)
