-- ===== src/Tests/Avls.antt =====
-- A balanced tree of three levels, with a level that is to go in and one that is to leave.
use profit_playground.Common.{true, ℕ, ◌≡◌, some, refl, arith, if◌then◌else◌, ◌==◌}
use profit_playground.Common.Int.{pos}
use profit_playground.Book.State.{Book, Level, Side, level, zero_level, null_idx, level_slots}
use profit_playground.Book.Avl.{avl_insert, avl_remove}
use profit_playground.Book.Tree.{Tree, leaf, node, AllSlots, Sorted}
use profit_playground.Book.Avl.Shape.{Shape, data_of}
use profit_playground.Book.Avl.Balance.{IsBalanced}
use profit_playground.Book.Avl.Growth.{IsNew, Inserted}
use profit_playground.Book.Avl.Insert.{avl_insert-Inserted}
use profit_playground.Book.Avl.Removal.{Removed}
use profit_playground.Book.Avl.Erase.{avl_remove-Removed}
use profit_playground.Book.Matching.{drop_empty}
use profit_playground.Book.Matching.Empty.{Dropped, drop_empty-Dropped}
use profit_playground.Book.Manage.{find_or_open}
use profit_playground.Book.Manage.Opened.{Opened}
use profit_playground.Book.Manage.Opening.{find_or_open-Opened}
use profit_playground.Book.Avl.Find.{level_at}
use profit_playground.Book.Avl.Levels.{level_at-avl_remove, level_at-avl_insert}

-- Slots 1, 0 and 2 hold the prices 100, 101 and 103, and slot 3 the new price 102.
abbrev slots : ℕ → Level
slots i =
    if i == 0
    then record zero_level { price = pos 101; left_idx = 1; right_idx = 2; height = 2 }
    else record zero_level {
      price = if i == 1 then pos 100 else if i == 2 then pos 103 else pos 102;
      left_idx = null_idx;
      right_idx = null_idx;
      height = 1;
    }

abbrev balanced_book : Book
balanced_book = record {
  bids = record { root_idx = 0; level_count = 3; total_qty = 0 };
  asks = record { root_idx = 0; level_count = 3; total_qty = 0 };
  next_order_id = 1;
  total_orders_added = 0;
  total_orders_cancelled = 0;
  order_pool = λ i. profit_playground.Book.State.zero_order;
  order_free_stack = λ i. i;
  order_free_top = 4096;
  level_pool = slots;
  level_free_stack = λ i. i;
  level_free_top = 508;
}

abbrev three : Tree
three = node (node leaf 1 leaf) 0 (node leaf 2 leaf)

three-Shape : Shape balanced_book 0 three
unfolding Shape
three-Shape = (
  refl,
  omega arith,
  refl,
  (refl, omega arith, refl, refl, refl),
  (refl, omega arith, refl, refl, refl),
)

three-Sorted : Sorted balanced_book three
unfolding Sorted AllSlots
three-Sorted = ((omega arith, tt, tt), (omega arith, tt, tt), (tt, tt, tt, tt), (tt, tt, tt, tt))

three-IsBalanced : IsBalanced three
unfolding IsBalanced
three-IsBalanced = (
  omega arith,
  omega arith,
  (omega arith, omega arith, tt, tt),
  (omega arith, omega arith, tt, tt),
)

slot_3-IsNew : IsNew balanced_book 3
slot_3-IsNew = record { real = omega arith; no_left = refl; no_right = refl; one_high = refl }

avl_insert-Inserted_example :
    Inserted balanced_book 3 three (avl_insert level_slots balanced_book 0 3)
unfolding AllSlots
avl_insert-Inserted_example =
    avl_insert-Inserted balanced_book 0 3 three slot_3-IsNew three-Shape three-Sorted
      three-IsBalanced
      (
        (λ e. ground (arith, e)),
        ((λ e. ground (arith, e)), tt, tt),
        ((λ e. ground (arith, e)), tt, tt),
      )
      (omega arith)

-- The root has two subtrees.
avl_remove-Removed_example :
    Removed balanced_book (pos 101) three (avl_remove level_slots balanced_book 0 (pos 101))
avl_remove-Removed_example =
    avl_remove-Removed balanced_book 0 three (pos 101) three-Shape three-Sorted three-IsBalanced
      (omega arith)

-- The level at 103 is found after the one at 101 is gone.
level_at-avl_remove_example :
    level_at
      (avl_remove level_slots balanced_book 0 (pos 101)).0
      (avl_remove level_slots balanced_book 0 (pos 101)).1
      (pos 103)
    ≡ level_at balanced_book 0 (pos 103)
level_at-avl_remove_example =
    level_at-avl_remove balanced_book 0 three (pos 101) (pos 103) three-Shape three-Sorted
      three-IsBalanced (omega arith)

-- The level at 102 is found once it is in.
level_at-avl_insert_example :
    level_at
      (avl_insert level_slots balanced_book 0 3).0
      (avl_insert level_slots balanced_book 0 3).1
      (pos 102)
    ≡ some (data_of (level balanced_book 3))
unfolding AllSlots
level_at-avl_insert_example =
    level_at-avl_insert balanced_book 0 3 three (pos 102) slot_3-IsNew three-Shape three-Sorted
      three-IsBalanced
      (
        (λ e. ground (arith, e)),
        ((λ e. ground (arith, e)), tt, tt),
        ((λ e. ground (arith, e)), tt, tt),
      )
      (omega arith)

-- The level at 104 is new, in the slot on the top of the free stack.
find_or_open-Opened_example :
    Opened balanced_book Side.bid (pos 104) (find_or_open balanced_book Side.bid (pos 104))
unfolding AllSlots profit_playground.Book.Pool.level_pool_alloc
find_or_open-Opened_example =
    find_or_open-Opened balanced_book Side.bid (pos 104) three three-Shape three-Sorted
      three-IsBalanced (omega arith)
      (
        (λ e. ground (arith, e)),
        ((λ e. ground (arith, e)), tt, tt),
        ((λ e. ground (arith, e)), tt, tt),
      )

-- The level at 103 has no orders.
drop_empty-Dropped_example :
    Dropped balanced_book Side.ask true (pos 103) (drop_empty balanced_book Side.ask 2)
drop_empty-Dropped_example =
    drop_empty-Dropped balanced_book Side.ask 2 three three-Shape three-Sorted three-IsBalanced
      (omega arith)
