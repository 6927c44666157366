-- ===== src/Book/Query/Crown.antt =====
-- engine/orderbook.c, `depth_in_tree`: the levels that the walk counts.
use profit_playground.Common.{
  Bool, true, ◌+◌, ℕ, zero, suc, ◌^◌, ◌≡◌, ◌≢◌, ◌≤◌, ◌<◌, refl, arith, false, Bool-cases, inl, inr,
  if◌then◌else◌,
}
use profit_playground.Common.Int.{ℤ, ◌<ℤ◌}
use profit_playground.Book.State.{Book, Side, level, null_idx, is_bid}
use profit_playground.Book.Query.{within, depth_in_tree}
use profit_playground.Book.Tree.{Tree, leaf, node, height, AllSlots, AllSlots-map, Links, Sorted}
use profit_playground.Book.Tree.Sums.{total}

depth_in_tree-leaf :
    (f : ℕ) (b : Book) (i : ℕ) (side : Side) (limit range : ℤ)
    → i ≡ null_idx
    → depth_in_tree f b i side limit range ≡ 0
unfolding depth_in_tree
depth_in_tree-leaf zero b i side limit range h = refl
depth_in_tree-leaf (suc f) b i side limit range h = ground (arith, h)

-- A subtree whose root lies out of the range counts nothing.
depth_in_tree-out :
    (f : ℕ) (b : Book) (i : ℕ) (t : Tree) (side : Side) (limit range : ℤ)
    → Links b i t
    → AllSlots (λ j. within side limit range (level b j).price ≡ false) t
    → depth_in_tree f b i side limit range ≡ 0
unfolding Links AllSlots depth_in_tree
depth_in_tree-out f b i leaf side limit range links out =
    depth_in_tree-leaf f b i side limit range links
depth_in_tree-out zero b i (node l k r) side limit range links out = refl
depth_in_tree-out (suc f) b i (node l k r) side limit range (here, some_node, left, right)
      (o, ol, or) =
    ground (
      arith,
      here,
      some_node,
      o,
      depth_in_tree-out f b (level b i).left_idx l side limit range left ol,
      depth_in_tree-out f b (level b i).right_idx r side limit range right or,
    )

-- The quantity at the prices that pass the test along with those of all the levels above them.
unfoldable pub crown : (ℤ → Bool) → Book → Tree → ℕ
crown test b leaf = 0
crown test b (node l k r) =
    if test (level b k).price then (level b k).total_qty + crown test b l + crown test b r else 0

pub crown-le : (test : ℤ → Bool) (b : Book) (t : Tree) → crown test b t ≤ total test b t
unfolding crown total
crown-le test b leaf = omega arith
crown-le test b (node l k r) = ground (arith, crown-le test b l, crown-le test b r)

-- The two cases of a level, given what its subtrees come to.
module _ (f : ℕ) (b : Book) (i : ℕ) (l : Tree) (k : ℕ) (r : Tree) (side : Side) (limit range : ℤ)
    (here : i ≡ k) (some_node : i ≢ null_idx) where
  crown-near :
      within side limit range (level b k).price ≡ true
      → (level b k).total_qty
          + crown (within side limit range) b l
          + crown (within side limit range) b r
        < 2 ^ 64
      → depth_in_tree f b (level b i).left_idx side limit range
        ≡ crown (within side limit range) b l
      → depth_in_tree f b (level b i).right_idx side limit range
        ≡ crown (within side limit range) b r
      → depth_in_tree (suc f) b i side limit range ≡ crown (within side limit range) b (node l k r)
  unfolding crown depth_in_tree
  crown-near near both dl dr = ground (arith, here, some_node, near, both, dl, dr)

  crown-far :
      within side limit range (level b k).price ≡ false
      → depth_in_tree f b
          (if is_bid side then (level b i).left_idx else (level b i).right_idx)
          side
          limit
          range
        ≡ 0
      → depth_in_tree (suc f) b i side limit range ≡ crown (within side limit range) b (node l k r)
  unfolding crown depth_in_tree
  crown-far far nothing = ground (arith, here, some_node, far, nothing)

-- Beyond a level out of the range, away from the best price, all is out of the range.
beyond-out :
    (f : ℕ) (b : Book) (i : ℕ) (l : Tree) (k : ℕ) (r : Tree) (side : Side) (limit range : ℤ)
    → Links b (level b i).left_idx l
    → Links b (level b i).right_idx r
    → AllSlots (λ j. (level b j).price <ℤ (level b k).price) l
    → AllSlots (λ j. (level b k).price <ℤ (level b j).price) r
    → within side limit range (level b k).price ≡ false
    → depth_in_tree f b
        (if is_bid side then (level b i).left_idx else (level b i).right_idx)
        side
        limit
        range
      ≡ 0
beyond-out f b i l k r Side.bid limit range left right below above far =
    depth_in_tree-out f b (level b i).left_idx l Side.bid limit range left
      (AllSlots-map l (λ j h. ground (arith, h, far)) below)
beyond-out f b i l k r Side.ask limit range left right below above far =
    depth_in_tree-out f b (level b i).right_idx r Side.ask limit range right
      (AllSlots-map r (λ j h. ground (arith, h, far)) above)
beyond-out f b i l k r Side.count limit range left right below above far =
    depth_in_tree-out f b (level b i).right_idx r Side.count limit range right
      (AllSlots-map r (λ j h. ground (arith, h, far)) above)

pub depth_in_tree-crown :
    (f : ℕ) (b : Book) (i : ℕ) (t : Tree) (side : Side) (limit range : ℤ)
    → Links b i t
    → Sorted b t
    → height t ≤ f
    → crown (within side limit range) b t < 2 ^ 64
    → depth_in_tree f b i side limit range ≡ crown (within side limit range) b t
unfolding Links Sorted crown
depth_in_tree-crown f b i leaf side limit range links sorted fuel small =
    depth_in_tree-leaf f b i side limit range links
depth_in_tree-crown zero b i (node l k r) side limit range links sorted fuel small =
    absurd (omega (arith, fuel))
depth_in_tree-crown (suc f) b i (node l k r) side limit range (here, some_node, left, right)
      (below, above, sl, sr) fuel small =
    elim (Bool-cases (within side limit range (level b k).price)) [
      | inl close ↦
          let both : (level b k).total_qty
                + crown (within side limit range) b l
                + crown (within side limit range) b r
              < 2 ^ 64 =
            ground (arith, close, small) in
          crown-near f b i l k r side limit range here some_node close both
            (depth_in_tree-crown f b (level b i).left_idx l side limit range left sl
              (ground (arith, fuel)) (omega (arith, both)))
            (depth_in_tree-crown f b (level b i).right_idx r side limit range right sr
              (ground (arith, fuel)) (omega (arith, both)))
      | inr far ↦
          crown-far f b i l k r side limit range here some_node far
            (beyond-out f b i l k r side limit range left right below above far)
    ]
