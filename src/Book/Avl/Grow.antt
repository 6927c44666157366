-- ===== src/Book/Avl/Grow.antt =====
-- engine/orderbook.c, the end of `avl_insert`: the tree after one of its subtrees has grown.
use profit_playground.Common.{ℕ, suc, ◌≡◌, ◌≤◌, refl, sym, ap, ◌∙◌, subst, arith, true, false}
use profit_playground.Common.Int.{ℤ, sub_ℕ, ltb_ℤ, ◌<ℤ◌}
use profit_playground.Book.State.{Book, level}
use profit_playground.Book.Avl.{
  avl_balance, avl_rotate_right, avl_rotate_left, rotate_left_right, rotate_right_left, left_heavy,
  right_heavy, insert_rebalance,
}
use profit_playground.Book.Tree.{Tree, leaf, node, height, Sorted}
use profit_playground.Book.Avl.Shape.{Shape, Joins, data-avl_update_height}
use profit_playground.Book.Avl.Balance.{
  IsBalanced, Tended, tend_none, dated, Shape-dated, Sorted-dated, Joins-dated, balance-dated,
  Tended-dated,
}

-- After a growth by a slot of price `np` the higher subtree is the one on the side of `np`.
abbrev pub Leans : Book → ℤ → Tree → Type 0
Leans b np leaf = Unit
Leans b np (node l k r) =
    (np <ℤ (level b k).price → height l ≡ suc (height r))
    × ((level b k).price <ℤ np → height r ≡ suc (height l))
    × ((level b k).price ≡ np → (height l ≡ 0) × (height r ≡ 0))

-- The tree with its root brought up to date and balanced, by a rotation where one subtree is higher
-- by 2; then the tree is as high as that subtree was.
pub record Regrown (b : Book) (l : Tree) (k : ℕ) (r : Tree) (res : Book × ℕ) : Type 0 where
  pub tree : Tree
  pub tended : Tended b (node l k r) res tree
  pub balanced : IsBalanced tree
  pub even : height l ≤ suc (height r) → height r ≤ suc (height l) → tree ≡ node l k r
  pub left_high : height l ≡ suc (suc (height r)) → height tree ≡ height l
  pub right_high : height r ≡ suc (suc (height l)) → height tree ≡ height r

-- The branches of the code.
module _ (b : Book) (k : ℕ) (np : ℤ) where
  pub choose_none :
      left_heavy (avl_balance (dated b k) k) ≡ false
      → right_heavy (avl_balance (dated b k) k) ≡ false
      → insert_rebalance b k np ≡ ((dated b k), k)
  unfolding insert_rebalance
  choose_none not_left not_right = rw (not_left, not_right) refl

  pub choose_right :
      left_heavy (avl_balance (dated b k) k) ≡ true
      → ltb_ℤ np (level (dated b k) (level (dated b k) k).left_idx).price ≡ true
      → insert_rebalance b k np ≡ avl_rotate_right (dated b k) k
  unfolding insert_rebalance
  choose_right is_left outer = rw (is_left, outer) refl

  pub choose_left_right :
      left_heavy (avl_balance (dated b k) k) ≡ true
      → right_heavy (avl_balance (dated b k) k) ≡ false
      → ltb_ℤ np (level (dated b k) (level (dated b k) k).left_idx).price ≡ false
      → ltb_ℤ (level (dated b k) (level (dated b k) k).left_idx).price np ≡ true
      → insert_rebalance b k np ≡ rotate_left_right (dated b k) k
  unfolding insert_rebalance
  choose_left_right is_left not_right not_outer inner =
      rw (is_left, not_right, not_outer, inner) refl

  pub choose_left :
      left_heavy (avl_balance (dated b k) k) ≡ false
      → right_heavy (avl_balance (dated b k) k) ≡ true
      → ltb_ℤ (level (dated b k) (level (dated b k) k).right_idx).price np ≡ true
      → insert_rebalance b k np ≡ avl_rotate_left (dated b k) k
  unfolding insert_rebalance
  choose_left not_left is_right outer = rw (not_left, is_right, outer) refl

  pub choose_right_left :
      left_heavy (avl_balance (dated b k) k) ≡ false
      → right_heavy (avl_balance (dated b k) k) ≡ true
      → ltb_ℤ (level (dated b k) (level (dated b k) k).right_idx).price np ≡ false
      → ltb_ℤ np (level (dated b k) (level (dated b k) k).right_idx).price ≡ true
      → insert_rebalance b k np ≡ rotate_right_left (dated b k) k
  unfolding insert_rebalance
  choose_right_left not_left is_right not_outer inner =
      rw (not_left, is_right, not_outer, inner) refl

pub even_lem :
    (h g : ℕ)
    → h ≤ suc g
    → g ≤ suc h
    → (left_heavy (sub_ℕ h g) ≡ false) × (right_heavy (sub_ℕ h g) ≡ false)
even_lem h g p q = (ground (arith, p, q), ground (arith, p, q))

pub left_lem :
    (h g : ℕ)
    → h ≡ suc (suc g)
    → (left_heavy (sub_ℕ h g) ≡ true) × (right_heavy (sub_ℕ h g) ≡ false)
left_lem h g e = (ground (arith, e), ground (arith, e))

pub right_lem :
    (h g : ℕ)
    → g ≡ suc (suc h)
    → (left_heavy (sub_ℕ h g) ≡ false) × (right_heavy (sub_ℕ h g) ≡ true)
right_lem h g e = (ground (arith, e), ground (arith, e))

module _ (b : Book) (k : ℕ) (l r : Tree) (np : ℤ) (joins : Joins b l k r)
    (sorted : Sorted b (node l k r)) (bl : IsBalanced l) (br : IsBalanced r) where
  pub Regrown-even :
      height l ≤ suc (height r)
      → height r ≤ suc (height l)
      → Regrown b l k r (insert_rebalance b k np)
  unfolding IsBalanced
  Regrown-even p q =
      let (not_left, not_right) = even_lem (height l) (height r) p q in
      let flat = balance-dated b k l r joins sorted in
      record {
        tree = node l k r;
        tended =
            subst (λ res. Tended b (node l k r) res (node l k r))
              (sym (
                choose_none b k np (ap left_heavy flat ∙ not_left)
                  (ap right_heavy flat ∙ not_right)))
              (Tended-dated b k l r joins sorted _ _ (
                tend_none (dated b k) (node l k r) k (Shape-dated b k l r joins sorted)
                  (Sorted-dated b k l r joins sorted)));
        balanced = (p, q, bl, br);
        even = λ _ _. refl;
        left_high = λ e. absurd (omega (arith, e, p));
        right_high = λ e. absurd (omega (arith, e, q));
      }

  -- A rotation of a tree with one subtree higher by 2.
  pub Regrown-tall_left :
      (res : Book × ℕ) (t' : Tree)
      → insert_rebalance b k np ≡ res
      → height l ≡ suc (suc (height r))
      → Tended (dated b k) (node l k r) res t'
      → IsBalanced t'
      → height t' ≡ height l
      → Regrown b l k r (insert_rebalance b k np)
  Regrown-tall_left res t' chosen high tended balanced same = record {
    tree = t';
    tended =
        subst (λ x. Tended b (node l k r) x t') (sym chosen)
          (Tended-dated b k l r joins sorted res t' tended);
    balanced = balanced;
    even = λ p q. absurd (omega (arith, high, p));
    left_high = λ e. same;
    right_high = λ e. absurd (omega (arith, high, e));
  }

  pub Regrown-tall_right :
      (res : Book × ℕ) (t' : Tree)
      → insert_rebalance b k np ≡ res
      → height r ≡ suc (suc (height l))
      → Tended (dated b k) (node l k r) res t'
      → IsBalanced t'
      → height t' ≡ height r
      → Regrown b l k r (insert_rebalance b k np)
  Regrown-tall_right res t' chosen high tended balanced same = record {
    tree = t';
    tended =
        subst (λ x. Tended b (node l k r) x t') (sym chosen)
          (Tended-dated b k l r joins sorted res t' tended);
    balanced = balanced;
    even = λ p q. absurd (omega (arith, high, q));
    left_high = λ e. absurd (omega (arith, high, e));
    right_high = λ e. same;
  }

-- The price in the root of the left or right subtree.
module _ (b : Book) (k : ℕ) (l r : Tree) (joins : Joins b l k r)
    (sorted : Sorted b (node l k r)) where
  pub price-left :
      (a m : Tree) (x : ℕ)
      → l ≡ node a x m
      → (level (dated b k) (level (dated b k) k).left_idx).price ≡ (level b x).price
  unfolding Shape
  price-left a m x e =
      let shape =
        subst (λ t. Shape (dated b k) (level (dated b k) k).left_idx t) e
          (Joins-dated b k l r joins sorted).1 in
      rw (shape.0) (ap (λ lv. lv.price) (data-avl_update_height b k x))

  pub price-right :
      (m c : Tree) (y : ℕ)
      → r ≡ node m y c
      → (level (dated b k) (level (dated b k) k).right_idx).price ≡ (level b y).price
  unfolding Shape
  price-right m c y e =
      let shape =
        subst (λ t. Shape (dated b k) (level (dated b k) k).right_idx t) e
          (Joins-dated b k l r joins sorted).2 in
      rw (shape.0) (ap (λ lv. lv.price) (data-avl_update_height b k y))
