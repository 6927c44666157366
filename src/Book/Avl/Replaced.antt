-- ===== src/Book/Avl/Replaced.antt =====
-- engine/orderbook.c, `avl_remove`: the tree in which the successor has taken the place of the root.
use profit_playground.Common.{ℕ, ◌≡◌, inl, inr, refl, sym, ap, ◌∙◌, arith}
use profit_playground.Common.Int.{◌<ℤ◌, ◌≤ℤ◌}
use profit_playground.Book.State.{Book, Level, level}
use profit_playground.Book.Avl.{
  avl_min, avl_remove, remove_rebalance, set_left, set_right, copy_level,
}
use profit_playground.Book.Tree.{Tree, node, AllSlots, AllSlots-map, Has, Sorted}
use profit_playground.Book.Tree.Search.{AllSlots-Has}
use profit_playground.Book.Avl.Shape.{Joins, data_of, AllSlots-zip}
use profit_playground.Book.Avl.Turn.{AllSlots-self, data-set_right}
use profit_playground.Book.Avl.Balance.{IsBalanced}
use profit_playground.Book.Avl.Removal.{Old, Kept, Removed, Removed-last}
use profit_playground.Book.Avl.RemoveRight.{
  Removed-right, root_right, rest_right, Reshrunk-right, within_right, outside_right, Lowered-whole,
}
use profit_playground.Book.Avl.Replace.{
  same_slot, level-copy_level, data-copy_level, Unchanged-copied_left, Unchanged-copied_right,
  IsRoot-copied,
}

-- The successor's level has left the right subtree.
module _ (b : Book) (l : Tree) (k : ℕ) (r : Tree) (succ : ℕ) (sorted : Sorted b (node l k r))
    (balanced : IsBalanced (node l k r)) (joins : Joins b l k r) (has_succ : Has succ r)
    (least : AllSlots (λ j. (level b succ).price ≤ℤ (level b j).price) r) (res : Book × ℕ)
    (v : Removed (copy_level b k succ) (level (copy_level b k succ) succ).price r res) where
  abbrev c : Book
  c = copy_level b k succ

  abbrev put : Book
  put = set_right res.0 k res.1

  root : profit_playground.Book.Avl.RemoveRight.IsRoot c (level c succ).price l k r
  root = IsRoot-copied b l k r succ sorted balanced joins has_succ least

  root_data : data_of (level put k) ≡ data_of (level b succ)
  root_data = root_right c (level c succ).price l k r res root v ∙ data-copy_level b k succ

  left_data : AllSlots (λ j. data_of (level put j) ≡ data_of (level b j)) l
  left_data =
      AllSlots-zip l (λ j now before. now ∙ ap data_of before)
        (rest_right c (level c succ).price l k r res root v)
        (Unchanged-copied_left b l k r succ sorted balanced joins has_succ least)

  above_root : (i : ℕ) → Has i r → (level b k).price <ℤ (level b i).price
  unfolding Sorted
  above_root i has = AllSlots-Has _ r i sorted.1 has

  copied_data : (i : ℕ) → Has i r → data_of (level c i) ≡ data_of (level b i)
  copied_data i has = ap data_of (
      AllSlots-Has _ r i (Unchanged-copied_right b l k r succ sorted balanced joins has_succ least)
        has)

  Old-replaced : AllSlots (Old b (level b k).price (node l k r) put) (node l k v.tree)
  unfolding AllSlots Has Sorted
  Old-replaced = (
    (succ, inr (inr has_succ), (λ e. ground (arith, e, above_root succ has_succ)), root_data),
    AllSlots-zip l (λ j old has. old has)
        (AllSlots-zip {R = λ j. Has j l → Old b (level b k).price (node l k r) put j} l
          (λ j same under has. (j, inr (inl has), (λ e. ground (arith, e, under)), same)) left_data
          sorted.0)
        (AllSlots-self l),
    AllSlots-map v.tree
        (λ j (i, has, other, same).
          let above = above_root i has in
          (
            i,
            inr (inr has),
            (λ e. ground (arith, e, above)),
            data-set_right res.0 k res.1 j ∙ same ∙ copied_data i has,
          ))
        v.none_new,
  )

  -- What a slot of the right subtree held is at the root or still on the right.
  Kept-replaced_right :
      (i : ℕ)
      → Kept c (level c succ).price v.tree res.0 i
      → Has i r
      → Kept b (level b k).price (node l k v.tree) put i
  unfolding Has Sorted
  Kept-replaced_right i (inl gone) has =
      let same_price : (level b i).price ≡ (level b succ).price =
        sym (ap (λ (lv : Level). lv.price) (copied_data i has))
        ∙ gone
        ∙ ap (λ (lv : Level). lv.price) (copied_data succ has_succ) in
      let same : i ≡ succ = same_slot b r i succ sorted.3 has has_succ same_price in
      inr (k, inl refl, root_data ∙ ap (λ x. data_of (level b x)) (sym same))
  Kept-replaced_right i (inr (j, has_j, same)) has =
      inr (j, inr (inr has_j), data-set_right res.0 k res.1 j ∙ same ∙ copied_data i has)

  Kept-replaced : AllSlots (Kept b (level b k).price (node l k v.tree) put) (node l k r)
  unfolding AllSlots Has
  Kept-replaced = (
    inl refl,
    AllSlots-zip l (λ j same has. inr (j, inr (inl has), same)) left_data (AllSlots-self l),
    AllSlots-zip r (λ i m has. Kept-replaced_right i m has) v.none_lost (AllSlots-self r),
  )

  pub Removed-replaced : Removed b (level b k).price (node l k r) (remove_rebalance put k)
  unfolding AllSlots
  Removed-replaced =
      Removed-last b (level b k).price (node l k r) put l k v.tree
        (Reshrunk-right c (level c succ).price l k r res root v) Old-replaced Kept-replaced
        (within_right c (level c succ).price l k r res root v)
        (λ j (fk, fl, fr).
          outside_right c (level c succ).price l k r res root v j (fk, fl, fr)
          ∙ level-copy_level b k succ j (λ e. fk (sym e)))
        (Lowered-whole c (level c succ).price l k r res root v)
