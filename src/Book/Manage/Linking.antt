-- ===== src/Book/Manage/Linking.antt =====
-- engine/orderbook.c, `level_new` and `avl_insert`: a new level goes into the tree of its side.
use profit_playground.Common.{
  ℕ, ◌≡◌, ◌≢◌, ◌<◌, inl, inr, sym, ap, ◌∙◌, subst, Bool-cases, some, update_self,
}
use profit_playground.Common.Int.{ℤ, eqb_ℤ}
use profit_playground.Book.State.{Book, Side, SideState, level, null_idx, level_slots}
use profit_playground.Book.Pool.{level_pool_alloc}
use profit_playground.Book.Avl.{avl_find, avl_insert}
use profit_playground.Book.Tree.{Tree, size, AllSlots, AllSlots-map, Sorted}
use profit_playground.Book.Tree.Search.{Found}
use profit_playground.Book.Avl.Shape.{
  Shape, Shape-frame, Unchanged, Unchanged-set_level, Fresh, data_of,
}
use profit_playground.Book.Avl.Balance.{IsBalanced, Sorted-data}
use profit_playground.Book.Avl.Growth.{IsNew, Inserted, Inserted-levels}
use profit_playground.Book.Avl.Insert.{avl_insert-Inserted}
use profit_playground.Book.Avl.Removal.{Sorted-frame}
use profit_playground.Book.Avl.Find.{
  at_slot, level_at, at_none, at_some, Found-frame, at_slot-frame,
}
use profit_playground.Book.Avl.Levels.{
  eq_price, ne_price, inserted_slot, inserted_find, inserted_other,
}
use profit_playground.Book.Manage.Slots.{
  root_of, next_slot, new_level, written, linked, side_of-set_side, level-set_side, level-alloc,
}
use profit_playground.Book.Manage.Opened.{Opened, before}

absent_prices :
    (b : Book) (t : Tree) (q : ℤ) (i : ℕ)
    → i ≡ null_idx
    → Found b t q i
    → AllSlots (λ j. (level b j).price ≢ q) t
absent_prices b t q i missing (inl (has, real, here)) = absurd (real missing)
absent_prices b t q i missing (inr (null, absent)) = absent

module _ (b : Book) (side : Side) (price : ℤ) (t : Tree) (shape : Shape b (root_of b side) t)
    (sorted : Sorted b t) (balanced : IsBalanced t) (fits : size t < 512) where
  module _ (fresh : Fresh (next_slot b) t) (real : next_slot b ≢ null_idx) where
    Unchanged-written : Unchanged b (written b price) t
    Unchanged-written =
        AllSlots-map t (λ j same. same ∙ level-alloc b j)
          (Unchanged-set_level (level_pool_alloc b).0 (next_slot b) (new_level price) t fresh)

    new_slot : level (written b price) (next_slot b) ≡ new_level price
    new_slot = update_self (level_pool_alloc b).0.level_pool (next_slot b) (new_level price)

    written-IsNew : IsNew (written b price) (next_slot b)
    written-IsNew = record {
      real = real;
      no_left = ap (λ lv. lv.left_idx) new_slot;
      no_right = ap (λ lv. lv.right_idx) new_slot;
      one_high = ap (λ lv. lv.height) new_slot;
    }

    -- The price is not in the tree, so the new level can go in.
    Inserted-written :
        avl_find level_slots b (root_of b side) price ≡ null_idx
        → Inserted
            (written b price)
            (next_slot b)
            t
            (avl_insert level_slots (written b price) (root_of b side) (next_slot b))
    Inserted-written missing =
        avl_insert-Inserted (written b price) (root_of b side) (next_slot b) t written-IsNew
          (Shape-frame b (written b price) (root_of b side) t Unchanged-written shape)
          (Sorted-frame b (written b price) t
            (AllSlots-map t (λ j eq. ap data_of eq) Unchanged-written) sorted)
          balanced
          (AllSlots-map t (λ j other e. other (e ∙ ap (λ lv. lv.price) new_slot))
            (absent_prices (written b price) t price _ missing (
              Found-frame b (written b price) t Unchanged-written price _
                (before b side price t shape sorted balanced fits price))))
          fits

    pub Opened-linked :
        avl_find level_slots b (root_of b side) price ≡ null_idx
        → Opened b side price (
          linked b side (avl_insert level_slots (written b price) (root_of b side) (next_slot b)),
          next_slot b,
        )
    unfolding level_at
    Opened-linked missing =
        let b1 = written b price in
        let n = next_slot b in
        let res = avl_insert level_slots b1 (root_of b side) n in
        let b3 = linked b side res in
        let at_root : root_of b3 side ≡ res.1 =
          ap (λ (s : SideState). s.root_idx) (side_of-set_side res.0 side _) in
        let v =
          Inserted-levels b1 res.0 b3 n res.1 t (level-set_side res.0 side _)
            (Inserted-written missing) in
        let made : (level b1 n).price ≡ price = ap (λ lv. lv.price) new_slot in
        let finds : (q : ℤ) → Found b3 v.tree q (avl_find level_slots b3 (root_of b3 side) q) = λ q.
          subst (λ r. Found b3 v.tree q (avl_find level_slots b3 r q)) (sym at_root)
            (inserted_find b1 n t (b3, res.1) v fits q) in
        let here : avl_find level_slots b3 (root_of b3 side) price ≡ n =
          inserted_slot b1 n t (b3, res.1) v _
            (subst (λ p. Found b3 v.tree p (avl_find level_slots b3 (root_of b3 side) price))
              (sym made) (finds price)) in
        record {
          tree = v.tree;
          shape = subst (λ r. Shape b3 r v.tree) (sym at_root) v.shape;
          sorted = Sorted-data b1 b3 v.tree v.data_kept v.sorted;
          balanced = v.balanced;
          found = here;
          levels = λ q. elim (Bool-cases (eqb_ℤ q price)) [
            | inl eq ↦ rw eq (
                ap (at_slot b3)
                  (ap (avl_find level_slots b3 (root_of b3 side)) (eq_price q price eq) ∙ here))
            | inr ne ↦ rw ne (
                inserted_other b1 n t (b3, res.1) v q _ _ (λ e. ne_price q price ne (e ∙ made))
                  (finds q)
                  (Found-frame b b1 t Unchanged-written q _
                    (before b side price t shape sorted balanced fits q))
                ∙ at_slot-frame b b1 t Unchanged-written q _
                    (before b side price t shape sorted balanced fits q))
          ];
          outcome = inr (
              inl (
                at_none b _ missing,
                at_some b3 n real ∙ ap some (v.data_kept n) ∙ ap (λ lv. some (data_of lv)) new_slot,
              ));
        }
