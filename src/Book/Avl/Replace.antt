-- ===== src/Book/Avl/Replace.antt =====
-- engine/orderbook.c, `avl_remove`: a removed root with two subtrees takes over the level of its
-- successor, which then leaves the right subtree.
use profit_playground.Common.{ℕ, ◌≡◌, ◌≢◌, inl, inr, sym, ap, ◌∙◌, subst, arith}
use profit_playground.Common.Int.{ℤ, ◌<ℤ◌, ◌≤ℤ◌}
use profit_playground.Book.State.{Book, Level, level}
use profit_playground.Book.Avl.{copy_level}
use profit_playground.Book.Tree.{Tree, leaf, node, AllSlots, AllSlots-map, Has, Sorted}
use profit_playground.Book.Tree.Search.{AllSlots-Has}
use profit_playground.Book.Avl.Shape.{
  Shape, Joins, Unchanged, data_of, Shape-frame, Fresh-above, Fresh-below, AllSlots-zip,
}
use profit_playground.Book.Avl.Turn.{sides_apart_back}
use profit_playground.Book.Avl.Balance.{IsBalanced}
use profit_playground.Book.Avl.Regrow.{compare_ℤ}
use profit_playground.Book.Avl.Removal.{Sorted-frame}
use profit_playground.Book.Avl.RemoveRight.{IsRoot}

-- Two slots of a search tree with the same price are one.
pub same_slot :
    (b : Book) (t : Tree) (i j : ℕ)
    → Sorted b t
    → Has i t
    → Has j t
    → (level b i).price ≡ (level b j).price
    → i ≡ j
unfolding Sorted Has
same_slot b leaf i j s hi hj e = absurd hi
same_slot b (node l k r) i j s (inl ik) (inl jk) e = ik ∙ sym jk
same_slot b (node l k r) i j s (inl ik) (inr (inl jl)) e =
    absurd (ground (arith, e, ik, AllSlots-Has _ l j s.0 jl))
same_slot b (node l k r) i j s (inl ik) (inr (inr jr)) e =
    absurd (ground (arith, e, ik, AllSlots-Has _ r j s.1 jr))
same_slot b (node l k r) i j s (inr (inl il)) (inl jk) e =
    absurd (ground (arith, e, jk, AllSlots-Has _ l i s.0 il))
same_slot b (node l k r) i j s (inr (inr ir)) (inl jk) e =
    absurd (ground (arith, e, jk, AllSlots-Has _ r i s.1 ir))
same_slot b (node l k r) i j s (inr (inl il)) (inr (inl jl)) e = same_slot b l i j s.2 il jl e
same_slot b (node l k r) i j s (inr (inr ir)) (inr (inr jr)) e = same_slot b r i j s.3 ir jr e
same_slot b (node l k r) i j s (inr (inl il)) (inr (inr jr)) e =
    absurd (ground (arith, e, AllSlots-Has _ l i s.0 il, AllSlots-Has _ r j s.1 jr))
same_slot b (node l k r) i j s (inr (inr ir)) (inr (inl jl)) e =
    absurd (ground (arith, e, AllSlots-Has _ r i s.1 ir, AllSlots-Has _ l j s.0 jl))

-- The level of `succ` in the place of the level of `k`.
module _ (b : Book) (k succ : ℕ) where
  pub level-copy_level : (j : ℕ) → j ≢ k → level (copy_level b k succ) j ≡ level b j
  unfolding copy_level
  level-copy_level j other = ground (arith, other)

  pub data-copy_level : data_of (level (copy_level b k succ) k) ≡ data_of (level b succ)
  unfolding copy_level
  data-copy_level = ground arith

  pub links-copy_level :
      ((level (copy_level b k succ) k).left_idx ≡ (level b k).left_idx)
      × ((level (copy_level b k succ) k).right_idx ≡ (level b k).right_idx)
  unfolding copy_level
  links-copy_level = (ground arith, ground arith)

module _ (b : Book) (l : Tree) (k : ℕ) (r : Tree) (succ : ℕ) (sorted : Sorted b (node l k r))
    (balanced : IsBalanced (node l k r)) (joins : Joins b l k r) (has_succ : Has succ r)
    (least : AllSlots (λ j. (level b succ).price ≤ℤ (level b j).price) r) where
  abbrev pub copied : Book
  copied = copy_level b k succ

  abbrev pub next_price : ℤ
  next_price = (level copied succ).price

  other_slot : succ ≢ k
  unfolding Sorted
  other_slot = AllSlots-Has _ r succ (Fresh-below b k r sorted.1) has_succ

  pub kept_next : next_price ≡ (level b succ).price
  kept_next = ap (λ lv. lv.price) (level-copy_level b k succ succ other_slot)

  price_copied : (level copied k).price ≡ (level b succ).price
  price_copied = ap (λ lv. lv.price) (data-copy_level b k succ)

  pub Unchanged-copied_right : Unchanged b copied r
  unfolding Sorted
  Unchanged-copied_right = AllSlots-map r (level-copy_level b k succ) (Fresh-below b k r sorted.1)

  pub Unchanged-copied_left : Unchanged b copied l
  unfolding Sorted
  Unchanged-copied_left = AllSlots-map l (level-copy_level b k succ) (Fresh-above b k l sorted.0)

  pub Sorted-copied_right : Sorted copied r
  unfolding Sorted
  Sorted-copied_right =
      Sorted-frame b copied r (AllSlots-map r (λ j same. ap data_of same) Unchanged-copied_right)
        sorted.3

  pub Shape-copied_right : Shape copied (level copied k).right_idx r
  Shape-copied_right =
      subst (λ i. Shape copied i r) (sym (links-copy_level b k succ).1)
        (Shape-frame b copied (level b k).right_idx r Unchanged-copied_right joins.2)

  pub over_root : (level b k).price <ℤ (level b succ).price
  unfolding Sorted
  over_root = AllSlots-Has _ r succ sorted.1 has_succ

  pub IsRoot-copied : IsRoot copied next_price l k r
  unfolding Sorted
  IsRoot-copied = record {
    left_clear = Fresh-above b k l sorted.0;
    right_clear = Fresh-below b k r sorted.1;
    apart = sides_apart_back b l r k sorted;
    below =
        AllSlots-zip l
          (λ j same under.
            let here : (level copied j).price ≡ (level b j).price =
              ap (λ (lv : Level). lv.price) same in
            let over = over_root in rw (here, price_copied) (omega (arith, under, over)))
          Unchanged-copied_left sorted.0;
    above =
        AllSlots-zip r
          (λ i same at_least.
            let here : (level copied i).price ≡ (level b i).price =
              ap (λ (lv : Level). lv.price) same in
            elim (compare_ℤ (level b succ).price (level b i).price) [
              | inl over ↦ inr (rw (here, price_copied) over)
              | inr (inl under) ↦ absurd (omega (arith, under, at_least))
              | inr (inr equal) ↦ inl (here ∙ sym equal ∙ sym kept_next)
            ])
          Unchanged-copied_right least;
    left_sorted =
        Sorted-frame b copied l (AllSlots-map l (λ j same. ap data_of same) Unchanged-copied_left)
          sorted.2;
    balanced = balanced;
    joins = (
      joins.0,
      subst (λ i. Shape copied i l) (sym (links-copy_level b k succ).0)
          (Shape-frame b copied (level b k).left_idx l Unchanged-copied_left joins.1),
      Shape-copied_right,
    );
  }
