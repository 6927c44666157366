-- ===== src/Book/Avl/Shrink.antt =====
-- engine/orderbook.c, the end of `avl_remove`: the tree after one of its subtrees has shrunk.
use profit_playground.Common.{
  ℕ, suc, ◌≡◌, ◌≤◌, ◌<◌, ◌⊎◌, refl, sym, ap, ◌∙◌, subst, arith, true, false,
}
use profit_playground.Common.Int.{ℤ, pos, sub_ℕ, ltb_ℤ, leb_ℤ}
use profit_playground.Book.State.{Book, level}
use profit_playground.Book.Avl.{
  avl_balance, avl_rotate_right, avl_rotate_left, rotate_left_right, rotate_right_left, left_heavy,
  right_heavy, remove_rebalance,
}
use profit_playground.Book.Tree.{Tree, node, height, Sorted}
use profit_playground.Book.Avl.Shape.{Shape, Joins}
use profit_playground.Book.Avl.Balance.{
  IsBalanced, Tended, tend_none, dated, Shape-dated, Sorted-dated, Joins-dated, balance-dated,
  Tended-dated, avl_balance-Shape,
}
use profit_playground.Book.Avl.Grow.{even_lem}

-- The tree with its root brought up to date and balanced; after a rotation it is as high as the higher
-- subtree was, or by 1 higher.
pub record Reshrunk (b : Book) (l : Tree) (k : ℕ) (r : Tree) (res : Book × ℕ) : Type 0 where
  pub tree : Tree
  pub tended : Tended b (node l k r) res tree
  pub balanced : IsBalanced tree
  pub even : height l ≤ suc (height r) → height r ≤ suc (height l) → tree ≡ node l k r
  pub left_high :
      height l ≡ suc (suc (height r)) → (height tree ≡ height l) ⊎ (height tree ≡ suc (height l))
  pub right_high :
      height r ≡ suc (suc (height l)) → (height tree ≡ height r) ⊎ (height tree ≡ suc (height r))

-- The branches of the code.
module _ (b : Book) (k : ℕ) where
  abbrev bal : ℤ
  bal = avl_balance (dated b k) k

  abbrev left_bal : ℤ
  left_bal = avl_balance (dated b k) (level (dated b k) k).left_idx

  abbrev right_bal : ℤ
  right_bal = avl_balance (dated b k) (level (dated b k) k).right_idx

  settle_none :
      left_heavy bal ≡ false → right_heavy bal ≡ false → remove_rebalance b k ≡ (dated b k, k)
  unfolding remove_rebalance
  settle_none not_left not_right = rw (not_left, not_right) refl

  pub settle_right :
      left_heavy bal ≡ true
      → leb_ℤ (pos 0) left_bal ≡ true
      → remove_rebalance b k ≡ avl_rotate_right (dated b k) k
  unfolding remove_rebalance
  settle_right is_left outer = rw (is_left, outer) refl

  pub settle_left_right :
      left_heavy bal ≡ true
      → leb_ℤ (pos 0) left_bal ≡ false
      → ltb_ℤ left_bal (pos 0) ≡ true
      → remove_rebalance b k ≡ rotate_left_right (dated b k) k
  unfolding remove_rebalance
  settle_left_right is_left not_outer inner = rw (is_left, not_outer, inner) refl

  pub settle_left :
      left_heavy bal ≡ false
      → right_heavy bal ≡ true
      → leb_ℤ right_bal (pos 0) ≡ true
      → remove_rebalance b k ≡ avl_rotate_left (dated b k) k
  unfolding remove_rebalance
  settle_left not_left is_right outer = rw (not_left, is_right, outer) refl

  pub settle_right_left :
      left_heavy bal ≡ false
      → right_heavy bal ≡ true
      → leb_ℤ right_bal (pos 0) ≡ false
      → ltb_ℤ (pos 0) right_bal ≡ true
      → remove_rebalance b k ≡ rotate_right_left (dated b k) k
  unfolding remove_rebalance
  settle_right_left not_left is_right not_outer inner =
      rw (not_left, is_right, not_outer, inner) refl

-- The tests on the balance of the higher subtree.
pub nonneg_lem : (h g : ℕ) → g ≤ h → leb_ℤ (pos 0) (sub_ℕ h g) ≡ true
nonneg_lem h g p = ground (arith, p)

pub neg_lem :
    (h g : ℕ) → h < g → (leb_ℤ (pos 0) (sub_ℕ h g) ≡ false) × (ltb_ℤ (sub_ℕ h g) (pos 0) ≡ true)
neg_lem h g p = (ground (arith, p), ground (arith, p))

pub nonpos_lem : (h g : ℕ) → h ≤ g → leb_ℤ (sub_ℕ h g) (pos 0) ≡ true
nonpos_lem h g p = ground (arith, p)

pub pos_lem :
    (h g : ℕ) → g < h → (leb_ℤ (sub_ℕ h g) (pos 0) ≡ false) × (ltb_ℤ (pos 0) (sub_ℕ h g) ≡ true)
pos_lem h g p = (ground (arith, p), ground (arith, p))

module _ (b : Book) (k : ℕ) (l r : Tree) (joins : Joins b l k r) (sorted : Sorted b (node l k r))
    (bl : IsBalanced l) (br : IsBalanced r) where
  pub Reshrunk-even :
      height l ≤ suc (height r)
      → height r ≤ suc (height l)
      → Reshrunk b l k r (remove_rebalance b k)
  unfolding IsBalanced
  Reshrunk-even p q =
      let (not_left, not_right) = even_lem (height l) (height r) p q in
      let flat = balance-dated b k l r joins sorted in
      record {
        tree = node l k r;
        tended =
            subst (λ res. Tended b (node l k r) res (node l k r))
              (sym
                (settle_none b k (ap left_heavy flat ∙ not_left) (ap right_heavy flat ∙ not_right)))
              (Tended-dated b k l r joins sorted _ _ (
                tend_none (dated b k) (node l k r) k (Shape-dated b k l r joins sorted)
                  (Sorted-dated b k l r joins sorted)));
        balanced = (p, q, bl, br);
        even = λ _ _. refl;
        left_high = λ e. absurd (omega (arith, e, p));
        right_high = λ e. absurd (omega (arith, e, q));
      }

  pub Reshrunk-tall_left :
      (res : Book × ℕ) (t' : Tree)
      → remove_rebalance b k ≡ res
      → height l ≡ suc (suc (height r))
      → Tended (dated b k) (node l k r) res t'
      → IsBalanced t'
      → (height t' ≡ height l) ⊎ (height t' ≡ suc (height l))
      → Reshrunk b l k r (remove_rebalance b k)
  Reshrunk-tall_left res t' chosen high tended balanced tall = record {
    tree = t';
    tended =
        subst (λ x. Tended b (node l k r) x t') (sym chosen)
          (Tended-dated b k l r joins sorted res t' tended);
    balanced = balanced;
    even = λ p q. absurd (omega (arith, high, p));
    left_high = λ e. tall;
    right_high = λ e. absurd (omega (arith, high, e));
  }

  pub Reshrunk-tall_right :
      (res : Book × ℕ) (t' : Tree)
      → remove_rebalance b k ≡ res
      → height r ≡ suc (suc (height l))
      → Tended (dated b k) (node l k r) res t'
      → IsBalanced t'
      → (height t' ≡ height r) ⊎ (height t' ≡ suc (height r))
      → Reshrunk b l k r (remove_rebalance b k)
  Reshrunk-tall_right res t' chosen high tended balanced tall = record {
    tree = t';
    tended =
        subst (λ x. Tended b (node l k r) x t') (sym chosen)
          (Tended-dated b k l r joins sorted res t' tended);
    balanced = balanced;
    even = λ p q. absurd (omega (arith, high, q));
    left_high = λ e. absurd (omega (arith, high, e));
    right_high = λ e. tall;
  }

  -- The balance of the root of the left or right subtree.
  pub balance-left :
      (a m : Tree) (x : ℕ) → l ≡ node a x m → left_bal b k ≡ sub_ℕ (height a) (height m)
  balance-left a m x e = avl_balance-Shape (dated b k) _ x a m (
      subst (λ t. Shape (dated b k) (level (dated b k) k).left_idx t) e
        (Joins-dated b k l r joins sorted).1)

  pub balance-right :
      (m c : Tree) (y : ℕ) → r ≡ node m y c → right_bal b k ≡ sub_ℕ (height m) (height c)
  balance-right m c y e = avl_balance-Shape (dated b k) _ y m c (
      subst (λ t. Shape (dated b k) (level (dated b k) k).right_idx t) e
        (Joins-dated b k l r joins sorted).2)
