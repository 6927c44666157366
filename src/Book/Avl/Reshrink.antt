-- ===== src/Book/Avl/Reshrink.antt =====
-- engine/orderbook.c, the end of `avl_remove`: the four rotations, and the choice between them.
use native.Mathlib.Decide.{dec_lt}
use profit_playground.Common.{ℕ, suc, ◌≡◌, ◌≤◌, ◌<◌, inl, inr, refl, ap, ◌∙◌, arith}
use profit_playground.Common.Int.{pos, leb_ℤ, ltb_ℤ}
use profit_playground.Book.State.{Book}
use profit_playground.Book.Avl.{left_heavy, right_heavy, remove_rebalance}
use profit_playground.Book.Tree.{Tree, leaf, node, height, Sorted}
use profit_playground.Book.Avl.Shape.{Joins}
use profit_playground.Book.Avl.Balance.{
  IsBalanced, tend_right, tend_left, tend_left_right, tend_right_left, dated, Sorted-dated,
  Joins-dated, balance-dated,
}
use profit_playground.Book.Avl.Grow.{left_lem, right_lem}
use profit_playground.Book.Avl.Shrink.{
  Reshrunk, Reshrunk-even, Reshrunk-tall_left, Reshrunk-tall_right, balance-left, balance-right,
  settle_right, settle_left, settle_left_right, settle_right_left, nonneg_lem, neg_lem, nonpos_lem,
  pos_lem,
}

module _ (b : Book) (k : ℕ) (a m r : Tree) (x : ℕ) where
  Reshrunk-outer_left :
      Joins b (node a x m) k r
      → Sorted b (node (node a x m) k r)
      → IsBalanced (node a x m)
      → IsBalanced r
      → height (node a x m) ≡ suc (suc (height r))
      → height m ≤ height a
      → Reshrunk b (node a x m) k r (remove_rebalance b k)
  unfolding IsBalanced
  Reshrunk-outer_left joins sorted bl br high outer =
      let l = node a x m in
      let flat = balance-dated b k l r joins sorted in
      let inner = balance-left b k l r joins sorted bl br a m x refl in
      let (am, ma, ba, bm) = bl in
      Reshrunk-tall_left b k l r joins sorted bl br _ (node a x (node m k r))
        (settle_right b k (ap left_heavy flat ∙ (left_lem (height l) (height r) high).0)
          (ap (leb_ℤ (pos 0)) inner ∙ nonneg_lem (height a) (height m) outer))
        high
        (tend_right (dated b k) a m r x k (Joins-dated b k l r joins sorted)
          (Sorted-dated b k l r joins sorted))
        (
          ground (arith, high, outer, am),
          ground (arith, high, outer, am),
          ba,
          (ground (arith, high, outer, am), ground (arith, high, outer, am), bm, br),
        )
        (elim (dec_lt (height m) (height a)) [
          | yes less ↦ inl (ground (arith, high, less, am))
          | no not_less ↦ inr (ground (arith, high, not_less, outer))
        ])

module _ (b : Book) (k : ℕ) (a p q r : Tree) (x z : ℕ) where
  Reshrunk-inner_left :
      Joins b (node a x (node p z q)) k r
      → Sorted b (node (node a x (node p z q)) k r)
      → IsBalanced (node a x (node p z q))
      → IsBalanced r
      → height (node a x (node p z q)) ≡ suc (suc (height r))
      → height a < height (node p z q)
      → Reshrunk b (node a x (node p z q)) k r (remove_rebalance b k)
  unfolding IsBalanced
  Reshrunk-inner_left joins sorted bl br high inner =
      let l = node a x (node p z q) in
      let flat = balance-dated b k l r joins sorted in
      let bal = balance-left b k l r joins sorted bl br a (node p z q) x refl in
      let (am, ma, ba, (pq, qp, bp, bq)) = bl in
      let tests = neg_lem (height a) (height (node p z q)) inner in
      Reshrunk-tall_left b k l r joins sorted bl br _ (node (node a x p) z (node q k r))
        (settle_left_right b k (ap left_heavy flat ∙ (left_lem (height l) (height r) high).0)
          (ap (leb_ℤ (pos 0)) bal ∙ tests.0) (ap (λ c. ltb_ℤ c (pos 0)) bal ∙ tests.1))
        high
        (tend_left_right (dated b k) a p q r x z k (Joins-dated b k l r joins sorted)
          (Sorted-dated b k l r joins sorted))
        (
          ground (arith, high, inner, ma, pq, qp),
          ground (arith, high, inner, ma, pq, qp),
          (
            ground (arith, high, inner, ma, pq, qp),
            ground (arith, high, inner, ma, pq, qp),
            ba,
            bp,
          ),
          (
            ground (arith, high, inner, ma, pq, qp),
            ground (arith, high, inner, ma, pq, qp),
            bq,
            br,
          ),
        )
        (inl (ground (arith, high, inner, ma, pq, qp)))

module _ (b : Book) (k : ℕ) (l m c : Tree) (y : ℕ) where
  Reshrunk-outer_right :
      Joins b l k (node m y c)
      → Sorted b (node l k (node m y c))
      → IsBalanced l
      → IsBalanced (node m y c)
      → height (node m y c) ≡ suc (suc (height l))
      → height m ≤ height c
      → Reshrunk b l k (node m y c) (remove_rebalance b k)
  unfolding IsBalanced
  Reshrunk-outer_right joins sorted bl br high outer =
      let r = node m y c in
      let flat = balance-dated b k l r joins sorted in
      let inner = balance-right b k l r joins sorted bl br m c y refl in
      let heavy = right_lem (height l) (height r) high in
      let (mc, cm, bm, bc) = br in
      Reshrunk-tall_right b k l r joins sorted bl br _ (node (node l k m) y c)
        (settle_left b k (ap left_heavy flat ∙ heavy.0) (ap right_heavy flat ∙ heavy.1)
          (ap (λ d. leb_ℤ d (pos 0)) inner ∙ nonpos_lem (height m) (height c) outer))
        high
        (tend_left (dated b k) l m c k y (Joins-dated b k l r joins sorted)
          (Sorted-dated b k l r joins sorted))
        (
          ground (arith, high, outer, cm),
          ground (arith, high, outer, cm),
          (ground (arith, high, outer, cm), ground (arith, high, outer, cm), bl, bm),
          bc,
        )
        (elim (dec_lt (height m) (height c)) [
          | yes less ↦ inl (ground (arith, high, less, cm))
          | no not_less ↦ inr (ground (arith, high, not_less, outer))
        ])

module _ (b : Book) (k : ℕ) (l p q c : Tree) (z y : ℕ) where
  Reshrunk-inner_right :
      Joins b l k (node (node p z q) y c)
      → Sorted b (node l k (node (node p z q) y c))
      → IsBalanced l
      → IsBalanced (node (node p z q) y c)
      → height (node (node p z q) y c) ≡ suc (suc (height l))
      → height c < height (node p z q)
      → Reshrunk b l k (node (node p z q) y c) (remove_rebalance b k)
  unfolding IsBalanced
  Reshrunk-inner_right joins sorted bl br high inner =
      let r = node (node p z q) y c in
      let flat = balance-dated b k l r joins sorted in
      let bal = balance-right b k l r joins sorted bl br (node p z q) c y refl in
      let heavy = right_lem (height l) (height r) high in
      let (mc, cm, (pq, qp, bp, bq), bc) = br in
      let tests = pos_lem (height (node p z q)) (height c) inner in
      Reshrunk-tall_right b k l r joins sorted bl br _ (node (node l k p) z (node q y c))
        (settle_right_left b k (ap left_heavy flat ∙ heavy.0) (ap right_heavy flat ∙ heavy.1)
          (ap (λ d. leb_ℤ d (pos 0)) bal ∙ tests.0) (ap (ltb_ℤ (pos 0)) bal ∙ tests.1))
        high
        (tend_right_left (dated b k) l p q c k z y (Joins-dated b k l r joins sorted)
          (Sorted-dated b k l r joins sorted))
        (
          ground (arith, high, inner, mc, pq, qp),
          ground (arith, high, inner, mc, pq, qp),
          (
            ground (arith, high, inner, mc, pq, qp),
            ground (arith, high, inner, mc, pq, qp),
            bl,
            bp,
          ),
          (
            ground (arith, high, inner, mc, pq, qp),
            ground (arith, high, inner, mc, pq, qp),
            bq,
            bc,
          ),
        )
        (inl (ground (arith, high, inner, mc, pq, qp)))

Reshrunk-high_left :
    (b : Book) (l : Tree) (k : ℕ) (r : Tree)
    → Joins b l k r
    → Sorted b (node l k r)
    → IsBalanced l
    → IsBalanced r
    → height l ≡ suc (suc (height r))
    → Reshrunk b l k r (remove_rebalance b k)
Reshrunk-high_left b leaf k r joins sorted bl br high = absurd (omega (arith, high))
Reshrunk-high_left b (node a x leaf) k r joins sorted bl br high =
    Reshrunk-outer_left b k a leaf r x joins sorted bl br high (omega arith)
Reshrunk-high_left b (node a x (node p z q)) k r joins sorted bl br high =
    elim (dec_lt (height a) (height (node p z q))) [
      | yes inner ↦ Reshrunk-inner_left b k a p q r x z joins sorted bl br high inner
      | no outer ↦
          Reshrunk-outer_left b k a (node p z q) r x joins sorted bl br high (omega (arith, outer))
    ]

Reshrunk-high_right :
    (b : Book) (l : Tree) (k : ℕ) (r : Tree)
    → Joins b l k r
    → Sorted b (node l k r)
    → IsBalanced l
    → IsBalanced r
    → height r ≡ suc (suc (height l))
    → Reshrunk b l k r (remove_rebalance b k)
Reshrunk-high_right b l k leaf joins sorted bl br high = absurd (omega (arith, high))
Reshrunk-high_right b l k (node leaf y c) joins sorted bl br high =
    Reshrunk-outer_right b k l leaf c y joins sorted bl br high (omega arith)
Reshrunk-high_right b l k (node (node p z q) y c) joins sorted bl br high =
    elim (dec_lt (height c) (height (node p z q))) [
      | yes inner ↦ Reshrunk-inner_right b k l p q c z y joins sorted bl br high inner
      | no outer ↦
          Reshrunk-outer_right b k l (node p z q) c y joins sorted bl br high (omega (arith, outer))
    ]

-- The balancing after one subtree has shrunk.
pub reshrink :
    (b : Book) (l : Tree) (k : ℕ) (r : Tree)
    → Joins b l k r
    → Sorted b (node l k r)
    → IsBalanced l
    → IsBalanced r
    → height l ≤ suc (suc (height r))
    → height r ≤ suc (suc (height l))
    → Reshrunk b l k r (remove_rebalance b k)
reshrink b l k r joins sorted bl br p q = elim (dec_lt (suc (height r)) (height l)) [
  | yes over ↦ Reshrunk-high_left b l k r joins sorted bl br (omega (arith, over, p))
  | no within_left ↦ elim (dec_lt (suc (height l)) (height r)) [
    | yes over ↦ Reshrunk-high_right b l k r joins sorted bl br (omega (arith, over, q))
    | no within_right ↦
        Reshrunk-even b k l r joins sorted bl br (omega (arith, within_left))
          (omega (arith, within_right))
  ]
]
