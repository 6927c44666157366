-- ===== src/Book/Manage/Slots.antt =====
-- engine/orderbook.c, `ob_add_order` and `ob_modify_order`: the slot that a new level is written to,
-- and the branches of opening one.
use profit_playground.Common.{
  ℕ, ◌≡◌, ◌≢◌, ◌≤◌, ◌<◌, refl, sym, ap, ◌∙◌, arith, true, false, ◌==◌, leb,
}
use profit_playground.Common.Int.{ℤ}
use profit_playground.Common.Words.{add32}
use profit_playground.Book.State.{
  Book, Level, Side, SideState, side_of, set_side, level, set_level, zero_level, null_idx,
  level_slots, max_levels,
}
use profit_playground.Book.Pool.{level_pool_alloc}
use profit_playground.Book.Fifo.{level_new}
use profit_playground.Book.Avl.{avl_insert}
use profit_playground.Book.Manage.{open_level}

abbrev pub root_of : Book → Side → ℕ
root_of b side = (side_of b side).root_idx

-- The slot that the pool gives out next, or the null index.
abbrev pub next_slot : Book → ℕ
next_slot b = (level_pool_alloc b).1

-- The empty level that `level_new` writes.
abbrev pub new_level : ℤ → Level
new_level price = record zero_level {
  price = price;
  height = 1;
  head_idx = null_idx;
  tail_idx = null_idx;
  left_idx = null_idx;
  right_idx = null_idx;
}

pub side_of-set_side :
    (b : Book) (side : Side) (v : SideState) → side_of (set_side b side v) side ≡ v
side_of-set_side b Side.ask v = refl
side_of-set_side b Side.bid v = refl
side_of-set_side b Side.count v = refl

pub level-set_side :
    (b : Book) (side : Side) (v : SideState) (j : ℕ) → level (set_side b side v) j ≡ level b j
level-set_side b Side.ask v j = refl
level-set_side b Side.bid v j = refl
level-set_side b Side.count v j = refl

side_of-set_level :
    (b : Book) (side : Side) (k : ℕ) (v : Level) → side_of (set_level b k v) side ≡ side_of b side
side_of-set_level b Side.ask k v = refl
side_of-set_level b Side.bid k v = refl
side_of-set_level b Side.count k v = refl

-- Giving out a slot changes the free stack only.
pub level-alloc : (b : Book) (j : ℕ) → level (level_pool_alloc b).0 j ≡ level b j
unfolding level_pool_alloc
level-alloc b j = ground arith

pub side_of-alloc : (b : Book) (side : Side) → side_of (level_pool_alloc b).0 side ≡ side_of b side
unfolding level_pool_alloc
side_of-alloc b Side.ask = ground arith
side_of-alloc b Side.bid = ground arith
side_of-alloc b Side.count = ground arith

-- The book whose next slot is written as the new level.
abbrev pub written : Book → ℤ → Book
written b price = set_level (level_pool_alloc b).0 (next_slot b) (new_level price)

pub root-written :
    (b : Book) (side : Side) (price : ℤ) → root_of (written b price) side ≡ root_of b side
root-written b side price =
    ap (λ (s : SideState). s.root_idx)
      (side_of-set_level (level_pool_alloc b).0 side (next_slot b) (new_level price)
        ∙ side_of-alloc b side)

-- The book with the new level in the tree of its side.
abbrev pub linked : Book → Side → Book × ℕ → Book
linked b side (b2, root) = set_side b2 side (record (side_of b2 side) {
  root_idx = root;
  level_count = add32 (side_of b2 side).level_count 1;
})

pub open_level-linked :
    (b : Book) (side : Side) (price : ℤ)
    → (side_of b side).level_count < max_levels
    → next_slot b ≢ null_idx
    → open_level b side price ≡ (
      linked b side (avl_insert level_slots (written b price) (root_of b side) (next_slot b)),
      next_slot b,
    )
unfolding open_level level_new
open_level-linked b side price room real =
    let slot : (next_slot b == null_idx) ≡ false = ground (arith, real) in
    let few : leb max_levels (side_of b side).level_count ≡ false = ground (arith, room) in
    rw (few, slot, slot, sym (root-written b side price)) refl

pub open_level-full :
    (b : Book) (side : Side) (price : ℤ)
    → max_levels ≤ (side_of b side).level_count
    → open_level b side price ≡ (b, null_idx)
unfolding open_level
open_level-full b side price full =
    let many : leb max_levels (side_of b side).level_count ≡ true = ground (arith, full) in
    rw many refl

pub open_level-none :
    (b : Book) (side : Side) (price : ℤ)
    → (side_of b side).level_count < max_levels
    → next_slot b ≡ null_idx
    → open_level b side price ≡ ((level_pool_alloc b).0, null_idx)
unfolding open_level level_new
open_level-none b side price room missing =
    let slot : (next_slot b == null_idx) ≡ true = ground (arith, missing) in
    let few : leb max_levels (side_of b side).level_count ≡ false = ground (arith, room) in
    rw (few, slot) refl
