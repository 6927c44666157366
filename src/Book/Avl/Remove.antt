-- ===== src/Book/Avl/Remove.antt =====
-- engine/orderbook.c, `avl_remove`: a removal below the root.
use profit_playground.Common.{ℕ, suc, ◌≡◌, ◌≤◌, inl, inr, refl, sym, ap, ◌∙◌, arith}
use profit_playground.Common.Int.{ℤ, ◌<ℤ◌}
use profit_playground.Book.State.{Book, Level, level}
use profit_playground.Book.Avl.{remove_rebalance, set_left}
use profit_playground.Book.Tree.{Tree, node, height, AllSlots, AllSlots-map, Has, Sorted}
use profit_playground.Book.Tree.Search.{AllSlots-Has}
use profit_playground.Book.Avl.Shape.{
  Joins, Fresh, Unchanged, data_of, Fresh-above, Fresh-below, AllSlots-zip, level-set_level,
}
use profit_playground.Book.Avl.Turn.{
  AllSlots-within, AllSlots-self, Joins-put_left, data-set_left, sides_apart,
}
use profit_playground.Book.Avl.Balance.{IsBalanced, Sorted-data}
use profit_playground.Book.Avl.Shrink.{Reshrunk}
use profit_playground.Book.Avl.Reshrink.{reshrink}
use profit_playground.Book.Avl.Removal.{
  Old, Kept, Lowered, Removed, Removed-last, Sorted-frame, Lowered-left,
}

pub Lowered-ge :
    (t t' : Tree) → Lowered t t' → (height t' ≤ height t) × (height t ≤ suc (height t'))
Lowered-ge t t' (inl same) = (omega (arith, same), omega (arith, same))
Lowered-ge t t' (inr less) = (omega (arith, less), omega (arith, less))

-- The removal took place in the left subtree, with the result `res`.
module _ (b : Book) (price : ℤ) (l : Tree) (k : ℕ) (r : Tree) (res : Book × ℕ)
    (sorted : Sorted b (node l k r)) (balanced : IsBalanced (node l k r)) (joins : Joins b l k r)
    (lower : price <ℤ (level b k).price) (v : Removed b price l res) where
  abbrev put_left : Book
  put_left = set_left res.0 k res.1

  clear_left : Fresh k l
  unfolding Sorted
  clear_left = Fresh-above b k l sorted.0

  root_left : data_of (level put_left k) ≡ data_of (level b k)
  root_left = data-set_left res.0 k res.1 k ∙ ap data_of (v.outside k clear_left)

  Unchanged-left : Unchanged b res.0 r
  Unchanged-left = AllSlots-map r (λ j h. v.outside j h) (sides_apart b l r k sorted)

  rest_left : AllSlots (λ j. data_of (level put_left j) ≡ data_of (level b j)) r
  rest_left =
      AllSlots-map r (λ j same. data-set_left res.0 k res.1 j ∙ ap data_of same) Unchanged-left

  Joins-left : Joins put_left v.tree k r
  unfolding Sorted
  Joins-left =
      Joins-put_left b res.0 v.tree r k res.1 (AllSlots-within _ l v.tree v.within clear_left)
        (Fresh-below b k r sorted.1) joins.0 (v.outside k clear_left) Unchanged-left v.shape joins.2

  Sorted-left : Sorted put_left (node v.tree k r)
  unfolding Sorted
  Sorted-left =
      let top : (level put_left k).price ≡ (level b k).price = ap (λ lv. lv.price) root_left in
      (
        AllSlots-map v.tree
            (λ j (i, has, other, same).
              let here : (level put_left j).price ≡ (level b i).price =
                ap (λ (lv : Level). lv.price) (data-set_left res.0 k res.1 j ∙ same) in
              rw (here, top) (AllSlots-Has _ l i sorted.0 has))
            v.none_new,
        AllSlots-zip r
            (λ j same above.
              let here : (level put_left j).price ≡ (level b j).price =
                ap (λ (lv : Level). lv.price) same in
              rw (here, top) above)
            rest_left sorted.1,
        Sorted-data res.0 put_left v.tree (data-set_left res.0 k res.1) v.sorted,
        Sorted-frame b put_left r rest_left sorted.3,
      )

  Reshrunk-left : Reshrunk put_left v.tree k r (remove_rebalance put_left k)
  unfolding IsBalanced
  Reshrunk-left =
      let (le, ge) = Lowered-ge l v.tree v.lowered in
      reshrink put_left v.tree k r Joins-left Sorted-left v.balanced balanced.3
        (omega (arith, le, balanced.0)) (omega (arith, ge, balanced.1))

  Old-left : AllSlots (Old b price (node l k r) put_left) (node v.tree k r)
  unfolding AllSlots Has Sorted
  Old-left = (
    (k, inl refl, (λ e. ground (arith, e, lower)), root_left),
    AllSlots-map v.tree
        (λ j (i, has, other, same). (i, inr (inl has), other, data-set_left res.0 k res.1 j ∙ same))
        v.none_new,
    AllSlots-zip r (λ j old has. old has)
        (AllSlots-zip {R = λ j. Has j r → Old b price (node l k r) put_left j} r
          (λ j same above has. (j, inr (inr has), (λ e. ground (arith, e, lower, above)), same))
          rest_left sorted.1)
        (AllSlots-self r),
  )

  Kept-left : AllSlots (Kept b price (node v.tree k r) put_left) (node l k r)
  unfolding AllSlots Has
  Kept-left = (
    inr (k, inl refl, root_left),
    AllSlots-map l
        (λ i m. elim m [
          | inl gone ↦ inl gone
          | inr (j, has, same) ↦ inr (j, inr (inl has), data-set_left res.0 k res.1 j ∙ same)
        ])
        v.none_lost,
    AllSlots-zip r (λ j same has. inr (j, inr (inr has), same)) rest_left (AllSlots-self r),
  )

  pub Removed-left : Removed b price (node l k r) (remove_rebalance put_left k)
  unfolding AllSlots Has
  Removed-left =
      let g = Reshrunk-left in
      Removed-last b price (node l k r) put_left v.tree k r g Old-left Kept-left
        (
          inl refl,
          AllSlots-map v.tree (λ j has. inr (inl has)) v.within,
          AllSlots-map r (λ j has. inr (inr has)) (AllSlots-self r),
        )
        (λ j (fk, fl, fr).
          level-set_level res.0 k (record (level res.0 k) { left_idx = res.1 }) j (λ e. fk (sym e))
          ∙ v.outside j fl)
        (Lowered-left l v.tree k r g.tree balanced v.lowered g.even g.right_high)
