-- ===== src/Book/Avl/InsertLeft.antt =====
-- engine/orderbook.c, `avl_insert`: an insertion in the left subtree.
use profit_playground.Common.{ℕ, ◌≡◌, ◌≢◌, ◌⊎◌, inl, inr, refl, sym, ◌∙◌, arith}
use profit_playground.Common.Int.{◌<ℤ◌}
use profit_playground.Book.State.{Book, level}
use profit_playground.Book.Avl.{insert_rebalance, set_left}
use profit_playground.Book.Tree.{Tree, node, AllSlots, AllSlots-map, Has, Sorted}
use profit_playground.Book.Tree.Search.{AllSlots-Has}
use profit_playground.Book.Avl.Shape.{
  Joins, Fresh, data_of, Fresh-above, Fresh-below, AllSlots-zip, level-set_level,
}
use profit_playground.Book.Avl.Turn.{
  AllSlots-within, AllSlots-self, Joins-put_left, data-set_left, sides_apart,
}
use profit_playground.Book.Avl.Balance.{IsBalanced, Sorted-data}
use profit_playground.Book.Avl.Grow.{Regrown}
use profit_playground.Book.Avl.Growth.{
  Inserted, Leans-data, AllSlots-Inserted, Grown-left, regrow_left, Leans-of_Grown, Grown-le,
  Grown-ge,
}

-- The new slot goes to the left of the root `k`.
module _ (b : Book) (n : ℕ) (l : Tree) (k : ℕ) (r : Tree) (res : Book × ℕ)
    (sorted : Sorted b (node l k r)) (balanced : IsBalanced (node l k r)) (joins : Joins b l k r)
    (lower : (level b n).price <ℤ (level b k).price) (fresh : Fresh n r)
    (v : Inserted b n l res) where
  other_left : k ≢ n
  other_left e = ground (arith, lower, e)

  abbrev put_left : Book
  put_left = set_left res.0 k res.1

  Fresh-left : (j : ℕ) → j ≢ n → Fresh j l → Fresh j v.tree
  Fresh-left j other h = AllSlots-Inserted (λ i. i ≢ j) n l v.tree v.none_new (λ e. other (sym e)) h

  Joins-left : Joins put_left v.tree k r
  unfolding Sorted
  Joins-left =
      let clear = Fresh-above b k l sorted.0 in
      Joins-put_left b res.0 v.tree r k res.1 (Fresh-left k other_left clear)
        (Fresh-below b k r sorted.1) joins.0 (v.outside k other_left clear)
        (AllSlots-zip r (λ j other h. v.outside j other h) fresh (sides_apart b l r k sorted))
        v.shape joins.2

  data_left : (j : ℕ) → data_of (level put_left j) ≡ data_of (level b j)
  data_left j = data-set_left res.0 k res.1 j ∙ v.data_kept j

  Sorted-left : Sorted b (node v.tree k r)
  unfolding Sorted
  Sorted-left =
      (AllSlots-Inserted _ n l v.tree v.none_new lower sorted.0, sorted.1, v.sorted, sorted.3)

  Regrown-left : Regrown put_left v.tree k r (insert_rebalance put_left k (level b n).price)
  unfolding IsBalanced
  Regrown-left =
      let more = Grown-le b (level b n).price l v.tree v.grown in
      let less = Grown-ge b (level b n).price l v.tree v.grown in
      regrow_left put_left v.tree k r (level b n).price Joins-left
        (Sorted-data b put_left (node v.tree k r) data_left Sorted-left) v.balanced balanced.3
        (omega (arith, more, balanced.0)) (omega (arith, less, balanced.1))
        (λ high. Leans-data b put_left (level b n).price v.tree data_left (
          Leans-of_Grown b (level b n).price l v.tree v.grown
            (λ same. omega (arith, same, high, balanced.0))))

  -- The slots of the tree with the grown part.
  slots_left : AllSlots (λ j. (j ≡ n) ⊎ Has j (node l k r)) (node v.tree k r)
  unfolding AllSlots Has
  slots_left = (
    inr (inl refl),
    AllSlots-map v.tree (λ j m. elim m [ inl same ↦ inl same | inr has ↦ inr (inr (inl has)) ])
        v.none_new,
    AllSlots-map r (λ j has. inr (inr (inr has))) (AllSlots-self r),
  )

  lost_left : AllSlots (λ j. Has j (node v.tree k r)) (node l k r)
  unfolding AllSlots Has
  lost_left = (
    inl refl,
    AllSlots-map l (λ j has. inr (inl has)) v.none_lost,
    AllSlots-map r (λ j has. inr (inr has)) (AllSlots-self r),
  )

  pub Inserted-left : Inserted b n (node l k r) (insert_rebalance put_left k (level b n).price)
  unfolding AllSlots Has
  Inserted-left =
      let g = Regrown-left in
      let whole = node v.tree k r in
      record {
        tree = g.tree;
        shape = g.tended.becomes.shape;
        sorted = Sorted-data put_left b g.tree (λ j. sym (data_left j)) g.tended.still_sorted;
        balanced = g.balanced;
        none_new = AllSlots-within _ whole g.tree g.tended.same_slots.none_new slots_left;
        none_lost = AllSlots-within _ whole (node l k r) lost_left g.tended.same_slots.none_lost;
        joined =
            AllSlots-Has (λ j. Has j g.tree) whole n g.tended.same_slots.none_lost
              (inr (inl v.joined));
        data_kept = λ j. g.tended.becomes.moves.data_kept j ∙ data_left j;
        outside = λ j other (fk, fl, fr).
            g.tended.becomes.moves.outside j (fk, Fresh-left j other fl, fr)
            ∙ level-set_level res.0 k (record (level res.0 k) { left_idx = res.1 }) j
                (λ e. fk (sym e))
            ∙ v.outside j other fl;
        grown =
            Grown-left b (level b n).price l v.tree k r g.tree balanced lower v.grown g.even
              g.left_high;
      }
