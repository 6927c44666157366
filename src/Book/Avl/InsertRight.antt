-- ===== src/Book/Avl/InsertRight.antt =====
-- engine/orderbook.c, `avl_insert`: an insertion in the right subtree.
use profit_playground.Common.{ℕ, ◌≡◌, ◌≢◌, ◌⊎◌, inl, inr, refl, sym, ◌∙◌, arith}
use profit_playground.Common.Int.{◌<ℤ◌}
use profit_playground.Book.State.{Book, level}
use profit_playground.Book.Avl.{insert_rebalance, set_right}
use profit_playground.Book.Tree.{Tree, node, AllSlots, AllSlots-map, Has, Sorted}
use profit_playground.Book.Tree.Search.{AllSlots-Has}
use profit_playground.Book.Avl.Shape.{
  Joins, Fresh, data_of, Fresh-above, Fresh-below, AllSlots-zip, level-set_level,
}
use profit_playground.Book.Avl.Turn.{
  AllSlots-within, AllSlots-self, Joins-put_right, data-set_right, sides_apart_back,
}
use profit_playground.Book.Avl.Balance.{IsBalanced, Sorted-data}
use profit_playground.Book.Avl.Grow.{Regrown}
use profit_playground.Book.Avl.Growth.{
  Inserted, Leans-data, AllSlots-Inserted, Grown-right, regrow_right, Leans-of_Grown, Grown-le,
  Grown-ge,
}

-- The new slot goes to the right of the root `k`.
module _ (b : Book) (n : ℕ) (l : Tree) (k : ℕ) (r : Tree) (res : Book × ℕ)
    (sorted : Sorted b (node l k r)) (balanced : IsBalanced (node l k r)) (joins : Joins b l k r)
    (higher : (level b k).price <ℤ (level b n).price) (fresh : Fresh n l)
    (v : Inserted b n r res) where
  other_right : k ≢ n
  other_right e = ground (arith, higher, e)

  abbrev put_right : Book
  put_right = set_right res.0 k res.1

  Fresh-right : (j : ℕ) → j ≢ n → Fresh j r → Fresh j v.tree
  Fresh-right j other h =
      AllSlots-Inserted (λ i. i ≢ j) n r v.tree v.none_new (λ e. other (sym e)) h

  Joins-right : Joins put_right l k v.tree
  unfolding Sorted
  Joins-right =
      let clear = Fresh-below b k r sorted.1 in
      Joins-put_right b res.0 l v.tree k res.1 (Fresh-above b k l sorted.0)
        (Fresh-right k other_right clear) joins.0 (v.outside k other_right clear)
        (AllSlots-zip l (λ j other h. v.outside j other h) fresh (sides_apart_back b l r k sorted))
        v.shape joins.1

  data_right : (j : ℕ) → data_of (level put_right j) ≡ data_of (level b j)
  data_right j = data-set_right res.0 k res.1 j ∙ v.data_kept j

  Sorted-right : Sorted b (node l k v.tree)
  unfolding Sorted
  Sorted-right =
      (sorted.0, AllSlots-Inserted _ n r v.tree v.none_new higher sorted.1, sorted.2, v.sorted)

  Regrown-right : Regrown put_right l k v.tree (insert_rebalance put_right k (level b n).price)
  unfolding IsBalanced
  Regrown-right =
      let more = Grown-le b (level b n).price r v.tree v.grown in
      let less = Grown-ge b (level b n).price r v.tree v.grown in
      regrow_right put_right l k v.tree (level b n).price Joins-right
        (Sorted-data b put_right (node l k v.tree) data_right Sorted-right) balanced.2 v.balanced
        (omega (arith, more, balanced.1)) (omega (arith, less, balanced.0))
        (λ high. Leans-data b put_right (level b n).price v.tree data_right (
          Leans-of_Grown b (level b n).price r v.tree v.grown
            (λ same. omega (arith, same, high, balanced.1))))

  -- The slots of the tree with the grown part.
  slots_right : AllSlots (λ j. (j ≡ n) ⊎ Has j (node l k r)) (node l k v.tree)
  unfolding AllSlots Has
  slots_right = (
    inr (inl refl),
    AllSlots-map l (λ j has. inr (inr (inl has))) (AllSlots-self l),
    AllSlots-map v.tree (λ j m. elim m [ inl same ↦ inl same | inr has ↦ inr (inr (inr has)) ])
        v.none_new,
  )

  lost_right : AllSlots (λ j. Has j (node l k v.tree)) (node l k r)
  unfolding AllSlots Has
  lost_right = (
    inl refl,
    AllSlots-map l (λ j has. inr (inl has)) (AllSlots-self l),
    AllSlots-map r (λ j has. inr (inr has)) v.none_lost,
  )

  pub Inserted-right : Inserted b n (node l k r) (insert_rebalance put_right k (level b n).price)
  unfolding AllSlots Has
  Inserted-right =
      let g = Regrown-right in
      let whole = node l k v.tree in
      record {
        tree = g.tree;
        shape = g.tended.becomes.shape;
        sorted = Sorted-data put_right b g.tree (λ j. sym (data_right j)) g.tended.still_sorted;
        balanced = g.balanced;
        none_new = AllSlots-within _ whole g.tree g.tended.same_slots.none_new slots_right;
        none_lost = AllSlots-within _ whole (node l k r) lost_right g.tended.same_slots.none_lost;
        joined =
            AllSlots-Has (λ j. Has j g.tree) whole n g.tended.same_slots.none_lost
              (inr (inr v.joined));
        data_kept = λ j. g.tended.becomes.moves.data_kept j ∙ data_right j;
        outside = λ j other (fk, fl, fr).
            g.tended.becomes.moves.outside j (fk, fl, Fresh-right j other fr)
            ∙ level-set_level res.0 k (record (level res.0 k) { right_idx = res.1 }) j
                (λ e. fk (sym e))
            ∙ v.outside j other fr;
        grown =
            Grown-right b (level b n).price l k r v.tree g.tree balanced higher v.grown g.even
              g.right_high;
      }
