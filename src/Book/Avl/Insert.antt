-- ===== src/Book/Avl/Insert.antt =====
-- engine/orderbook.c, `avl_insert`: a new level in the search tree of a side.
use profit_playground.Common.{
  ℕ, zero, suc, ◌≡◌, ◌≢◌, ◌<◌, inl, inr, refl, sym, ap, subst, arith, true, false, ◌==◌,
}
use profit_playground.Common.Int.{ltb_ℤ, ◌<ℤ◌}
use profit_playground.Book.State.{Book, level, null_idx, level_slots}
use profit_playground.Book.Avl.{avl_insert, insert_rebalance, set_left, set_right}
use profit_playground.Book.Tree.{
  Tree, leaf, node, size, height, height-le, AllSlots, AllSlots-map, Sorted,
}
use profit_playground.Book.Avl.Shape.{Shape, Fresh}
use profit_playground.Book.Avl.Balance.{IsBalanced}
use profit_playground.Book.Avl.Regrow.{compare_ℤ}
use profit_playground.Book.Avl.Growth.{IsNew, Inserted, Inserted-leaf}
use profit_playground.Book.Avl.InsertLeft.{Inserted-left}
use profit_playground.Book.Avl.InsertRight.{Inserted-right}

-- A slot whose price no level of the tree has is not in the tree.
Fresh-price :
    (b : Book) (n : ℕ) (t : Tree)
    → AllSlots (λ j. (level b j).price ≢ (level b n).price) t
    → Fresh n t
Fresh-price b n t = AllSlots-map t (λ j other e. other (ap (λ i. (level b i).price) e))

-- The branches of `avl_insert`.
module _ (f : ℕ) (b : Book) (k n : ℕ) where
  insert-empty : k ≡ null_idx → avl_insert (suc f) b k n ≡ (b, n)
  unfolding avl_insert
  insert-empty none_here = rw none_here refl

  insert-left :
      k ≢ null_idx
      → (level b n).price <ℤ (level b k).price
      → let (b', i) = avl_insert f b (level b k).left_idx n in
        avl_insert (suc f) b k n ≡ insert_rebalance (set_left b' k i) k (level b n).price
  unfolding avl_insert
  insert-left real lower =
      let some_slot : (k == null_idx) ≡ false = ground (arith, real) in
      let is_lower : ltb_ℤ (level b n).price (level b k).price ≡ true = ground (arith, lower) in
      rw (some_slot, is_lower) refl

  insert-right :
      k ≢ null_idx
      → (level b k).price <ℤ (level b n).price
      → let (b', i) = avl_insert f b (level b k).right_idx n in
        avl_insert (suc f) b k n ≡ insert_rebalance (set_right b' k i) k (level b n).price
  unfolding avl_insert
  insert-right real higher =
      let some_slot : (k == null_idx) ≡ false = ground (arith, real) in
      let not_lower : ltb_ℤ (level b n).price (level b k).price ≡ false = ground (arith, higher) in
      let is_higher : ltb_ℤ (level b k).price (level b n).price ≡ true = ground (arith, higher) in
      rw (some_slot, not_lower, is_higher) refl

Inserted-from :
    (f : ℕ) (b : Book) (i n : ℕ) (t : Tree)
    → IsNew b n
    → Shape b i t
    → Sorted b t
    → IsBalanced t
    → AllSlots (λ j. (level b j).price ≢ (level b n).price) t
    → height t < f
    → Inserted b n t (avl_insert f b i n)
unfolding Shape Sorted IsBalanced AllSlots
Inserted-from zero b i n t new shape sorted balanced apart fuel = absurd (omega (arith, fuel))
Inserted-from (suc f) b i n leaf new shape sorted balanced apart fuel =
    subst (Inserted b n leaf) (sym (insert-empty f b i n shape)) (Inserted-leaf b n new)
Inserted-from (suc f) b i n (node l k r) new (here, real, tall, sl, sr) sorted balanced
      (away, al, ar) fuel =
    subst (λ j. Inserted b n (node l k r) (avl_insert (suc f) b j n)) (sym here)
      (elim (compare_ℤ (level b n).price (level b k).price) [
        | inl lower ↦ subst (Inserted b n (node l k r)) (sym (insert-left f b k n real lower)) (
            Inserted-left b n l k r _ sorted balanced (real, sl, sr) lower (Fresh-price b n r ar)
              (Inserted-from f b (level b k).left_idx n l new sl sorted.2 balanced.2 al
                (ground (arith, fuel))))
        | inr (inl higher) ↦
            subst (Inserted b n (node l k r)) (sym (insert-right f b k n real higher)) (
              Inserted-right b n l k r _ sorted balanced (real, sl, sr) higher
                (Fresh-price b n l al)
                (Inserted-from f b (level b k).right_idx n r new sr sorted.3 balanced.3 ar
                  (ground (arith, fuel))))
        | inr (inr same) ↦ absurd (away (sym same))
      ])

-- Inserting a new level leaves a valid tree: where the links and stored heights of fewer than 512
-- slots spell out a search tree balanced to within 1, and a new slot of height 1 without children
-- has a price that none of them has, they do so afterwards, the tree having the old slots and the
-- new one and being as high or 1 higher; every slot holds the same data, and no slot outside the
-- tree changes.
pub avl_insert-Inserted :
    (b : Book) (root n : ℕ) (t : Tree)
    → IsNew b n
    → Shape b root t
    → Sorted b t
    → IsBalanced t
    → AllSlots (λ j. (level b j).price ≢ (level b n).price) t
    → size t < 512
    → Inserted b n t (avl_insert level_slots b root n)
avl_insert-Inserted b root n t new shape sorted balanced apart fits =
    Inserted-from level_slots b root n t new shape sorted balanced apart
      (omega (arith, height-le t, fits))
