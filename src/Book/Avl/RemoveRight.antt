-- ===== src/Book/Avl/RemoveRight.antt =====
-- engine/orderbook.c, `avl_remove`: a removal in the right subtree, of the searched price or of the
-- level that has taken the root's place.
use profit_playground.Common.{ℕ, ◌≡◌, ◌⊎◌, inl, inr, refl, sym, ap, ◌∙◌, arith}
use profit_playground.Common.Int.{ℤ, ◌<ℤ◌}
use profit_playground.Book.State.{Book, Level, level}
use profit_playground.Book.Avl.{remove_rebalance, set_right}
use profit_playground.Book.Tree.{Tree, node, AllSlots, AllSlots-map, Has, Sorted}
use profit_playground.Book.Tree.Search.{AllSlots-Has}
use profit_playground.Book.Avl.Shape.{
  Joins, Fresh, Unchanged, data_of, Fresh-above, Fresh-below, AllSlots-zip, level-set_level,
}
use profit_playground.Book.Avl.Turn.{
  AllSlots-within, AllSlots-self, Joins-put_right, data-set_right, sides_apart_back,
}
use profit_playground.Book.Avl.Balance.{IsBalanced, Sorted-data}
use profit_playground.Book.Avl.Shrink.{Reshrunk}
use profit_playground.Book.Avl.Reshrink.{reshrink}
use profit_playground.Book.Avl.Removal.{
  Old, Kept, Lowered, Removed, Removed-last, Sorted-frame, Lowered-right,
}
use profit_playground.Book.Avl.Remove.{Lowered-ge}

-- What a root `k` needs for a removal on its right: prices and slots on its left, and on its right
-- apart from the removed price.
pub record IsRoot (b : Book) (price : ℤ) (l : Tree) (k : ℕ) (r : Tree) : Type 0 where
  pub left_clear : Fresh k l
  pub right_clear : Fresh k r
  pub apart : AllSlots (λ j. Fresh j r) l
  pub below : AllSlots (λ j. (level b j).price <ℤ (level b k).price) l
  pub above :
      AllSlots (λ i. ((level b i).price ≡ price) ⊎ ((level b k).price <ℤ (level b i).price)) r
  pub left_sorted : Sorted b l
  pub balanced : IsBalanced (node l k r)
  pub joins : Joins b l k r

module _ (b : Book) (price : ℤ) (l : Tree) (k : ℕ) (r : Tree) (res : Book × ℕ)
    (root : IsRoot b price l k r) (v : Removed b price r res) where
  abbrev put_right : Book
  put_right = set_right res.0 k res.1

  pub root_right : data_of (level put_right k) ≡ data_of (level b k)
  root_right = data-set_right res.0 k res.1 k ∙ ap data_of (v.outside k root.right_clear)

  Unchanged-right : Unchanged b res.0 l
  Unchanged-right = AllSlots-map l (λ j h. v.outside j h) root.apart

  pub rest_right : AllSlots (λ j. data_of (level put_right j) ≡ data_of (level b j)) l
  rest_right =
      AllSlots-map l (λ j same. data-set_right res.0 k res.1 j ∙ ap data_of same) Unchanged-right

  Joins-right : Joins put_right l k v.tree
  Joins-right =
      Joins-put_right b res.0 l v.tree k res.1 root.left_clear
        (AllSlots-within _ r v.tree v.within root.right_clear) root.joins.0
        (v.outside k root.right_clear) Unchanged-right v.shape root.joins.1

  Sorted-right : Sorted put_right (node l k v.tree)
  unfolding Sorted
  Sorted-right =
      let top : (level put_right k).price ≡ (level b k).price = ap (λ lv. lv.price) root_right in
      (
        AllSlots-zip l
            (λ j same under.
              let here : (level put_right j).price ≡ (level b j).price =
                ap (λ (lv : Level). lv.price) same in
              rw (here, top) under)
            rest_right root.below,
        AllSlots-map v.tree
            (λ j (i, has, other, same).
              let here : (level put_right j).price ≡ (level b i).price =
                ap (λ (lv : Level). lv.price) (data-set_right res.0 k res.1 j ∙ same) in
              rw (here, top)
                (elim (AllSlots-Has _ r i root.above has) [
                  | inl gone ↦ absurd (other gone)
                  | inr over ↦ over
                ]))
            v.none_new,
        Sorted-frame b put_right l rest_right root.left_sorted,
        Sorted-data res.0 put_right v.tree (data-set_right res.0 k res.1) v.sorted,
      )

  pub Reshrunk-right : Reshrunk put_right l k v.tree (remove_rebalance put_right k)
  unfolding IsBalanced
  Reshrunk-right =
      let (le, ge) = Lowered-ge r v.tree v.lowered in
      reshrink put_right l k v.tree Joins-right Sorted-right root.balanced.2 v.balanced
        (omega (arith, ge, root.balanced.0)) (omega (arith, le, root.balanced.1))

  pub within_right : AllSlots (λ j. Has j (node l k r)) (node l k v.tree)
  unfolding AllSlots Has
  within_right = (
    inl refl,
    AllSlots-map l (λ j has. inr (inl has)) (AllSlots-self l),
    AllSlots-map v.tree (λ j has. inr (inr has)) v.within,
  )

  pub outside_right : (j : ℕ) → Fresh j (node l k r) → level put_right j ≡ level b j
  unfolding AllSlots
  outside_right j (fk, fl, fr) =
      level-set_level res.0 k (record (level res.0 k) { right_idx = res.1 }) j (λ e. fk (sym e))
      ∙ v.outside j fr

  pub Lowered-whole : Lowered (node l k r) Reshrunk-right.tree
  Lowered-whole =
      let g = Reshrunk-right in
      Lowered-right l k r v.tree g.tree root.balanced v.lowered g.even g.left_high

-- The searched price lies on the right.
module _ (b : Book) (price : ℤ) (l : Tree) (k : ℕ) (r : Tree) (res : Book × ℕ)
    (sorted : Sorted b (node l k r)) (balanced : IsBalanced (node l k r)) (joins : Joins b l k r)
    (higher : (level b k).price <ℤ price) (v : Removed b price r res) where
  IsRoot-right : IsRoot b price l k r
  unfolding Sorted
  IsRoot-right = record {
    left_clear = Fresh-above b k l sorted.0;
    right_clear = Fresh-below b k r sorted.1;
    apart = sides_apart_back b l r k sorted;
    below = sorted.0;
    above = AllSlots-map r (λ i over. inr over) sorted.1;
    left_sorted = sorted.2;
    balanced = balanced;
    joins = joins;
  }

  abbrev put : Book
  put = set_right res.0 k res.1

  Old-right : AllSlots (Old b price (node l k r) put) (node l k v.tree)
  unfolding AllSlots Has Sorted
  Old-right = (
    (k, inl refl, (λ e. ground (arith, e, higher)), root_right b price l k r res IsRoot-right v),
    AllSlots-zip l (λ j old has. old has)
        (AllSlots-zip {R = λ j. Has j l → Old b price (node l k r) put j} l
          (λ j same under has. (j, inr (inl has), (λ e. ground (arith, e, higher, under)), same))
          (rest_right b price l k r res IsRoot-right v) sorted.0)
        (AllSlots-self l),
    AllSlots-map v.tree
        (λ j (i, has, other, same).
          (i, inr (inr has), other, data-set_right res.0 k res.1 j ∙ same))
        v.none_new,
  )

  Kept-right : AllSlots (Kept b price (node l k v.tree) put) (node l k r)
  unfolding AllSlots Has
  Kept-right = (
    inr (k, inl refl, root_right b price l k r res IsRoot-right v),
    AllSlots-zip l (λ j same has. inr (j, inr (inl has), same))
        (rest_right b price l k r res IsRoot-right v) (AllSlots-self l),
    AllSlots-map r
        (λ i m. elim m [
          | inl gone ↦ inl gone
          | inr (j, has, same) ↦ inr (j, inr (inr has), data-set_right res.0 k res.1 j ∙ same)
        ])
        v.none_lost,
  )

  pub Removed-right : Removed b price (node l k r) (remove_rebalance put k)
  Removed-right =
      Removed-last b price (node l k r) put l k v.tree
        (Reshrunk-right b price l k r res IsRoot-right v) Old-right Kept-right
        (within_right b price l k r res IsRoot-right v)
        (outside_right b price l k r res IsRoot-right v)
        (Lowered-whole b price l k r res IsRoot-right v)
