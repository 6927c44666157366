-- ===== src/Book/Avl/Regrow.antt =====
-- engine/orderbook.c, the end of `avl_insert`: the four rotations, and the choice between them.
use profit_playground.Common.{
  ℕ, suc, ◌≡◌, ◌⊎◌, inl, inr, refl, sym, ap, ◌∙◌, arith, true, false, Bool-cases,
}
use profit_playground.Common.Int.{ℤ, ltb_ℤ, ◌<ℤ◌, eq_of_parts}
use profit_playground.Book.State.{Book, level}
use profit_playground.Book.Avl.{left_heavy, right_heavy, insert_rebalance}
use profit_playground.Book.Tree.{Tree, leaf, node, height, Sorted}
use profit_playground.Book.Avl.Shape.{Joins}
use profit_playground.Book.Avl.Balance.{
  IsBalanced, tend_right, tend_left, tend_left_right, tend_right_left, dated, Sorted-dated,
  Joins-dated, balance-dated,
}
use profit_playground.Book.Avl.Grow.{
  Leans, Regrown, Regrown-tall_left, Regrown-tall_right, price-left, price-right, left_lem,
  right_lem, choose_right, choose_left, choose_left_right, choose_right_left,
}

lower_test : (p q : ℤ) → p <ℤ q → (ltb_ℤ p q ≡ true) × (ltb_ℤ q p ≡ false)
lower_test p q h = (ground (arith, h), ground (arith, h))

module _ (b : Book) (k : ℕ) (a m r : Tree) (x : ℕ) (np : ℤ) where
  Regrown-outer_left :
      Joins b (node a x m) k r
      → Sorted b (node (node a x m) k r)
      → IsBalanced (node a x m)
      → IsBalanced r
      → height (node a x m) ≡ suc (suc (height r))
      → np <ℤ (level b x).price
      → height a ≡ suc (height m)
      → Regrown b (node a x m) k r (insert_rebalance b k np)
  unfolding IsBalanced
  Regrown-outer_left joins sorted bl br high outer tall =
      let l = node a x m in
      let flat = balance-dated b k l r joins sorted in
      let price = price-left b k l r joins sorted a m x refl in
      Regrown-tall_left b k l r np joins sorted bl br _ (node a x (node m k r))
        (choose_right b k np (ap left_heavy flat ∙ (left_lem (height l) (height r) high).0)
          (ap (ltb_ℤ np) price ∙ (lower_test np (level b x).price outer).0))
        high
        (tend_right (dated b k) a m r x k (Joins-dated b k l r joins sorted)
          (Sorted-dated b k l r joins sorted))
        (
          ground (arith, high, tall),
          ground (arith, high, tall),
          bl.2,
          (ground (arith, high, tall), ground (arith, high, tall), bl.3, br),
        )
        (ground (arith, high, tall))

module _ (b : Book) (k : ℕ) (a p q r : Tree) (x z : ℕ) (np : ℤ) where
  Regrown-inner_left :
      Joins b (node a x (node p z q)) k r
      → Sorted b (node (node a x (node p z q)) k r)
      → IsBalanced (node a x (node p z q))
      → IsBalanced r
      → height (node a x (node p z q)) ≡ suc (suc (height r))
      → (level b x).price <ℤ np
      → height (node p z q) ≡ suc (height a)
      → Regrown b (node a x (node p z q)) k r (insert_rebalance b k np)
  unfolding IsBalanced
  Regrown-inner_left joins sorted bl br high inner tall =
      let l = node a x (node p z q) in
      let flat = balance-dated b k l r joins sorted in
      let price = price-left b k l r joins sorted a (node p z q) x refl in
      let tests = lower_test (level b x).price np inner in
      let heavy = left_lem (height l) (height r) high in
      let (_, _, ba, (pq, qp, bp, bq)) = bl in
      Regrown-tall_left b k l r np joins sorted bl br _ (node (node a x p) z (node q k r))
        (choose_left_right b k np (ap left_heavy flat ∙ heavy.0) (ap right_heavy flat ∙ heavy.1)
          (ap (ltb_ℤ np) price ∙ tests.1) (ap (λ c. ltb_ℤ c np) price ∙ tests.0))
        high
        (tend_left_right (dated b k) a p q r x z k (Joins-dated b k l r joins sorted)
          (Sorted-dated b k l r joins sorted))
        (
          ground (arith, high, tall, pq, qp),
          ground (arith, high, tall, pq, qp),
          (ground (arith, high, tall, pq, qp), ground (arith, high, tall, pq, qp), ba, bp),
          (ground (arith, high, tall, pq, qp), ground (arith, high, tall, pq, qp), bq, br),
        )
        (ground (arith, high, tall, pq, qp))

module _ (b : Book) (k : ℕ) (l m c : Tree) (y : ℕ) (np : ℤ) where
  Regrown-outer_right :
      Joins b l k (node m y c)
      → Sorted b (node l k (node m y c))
      → IsBalanced l
      → IsBalanced (node m y c)
      → height (node m y c) ≡ suc (suc (height l))
      → (level b y).price <ℤ np
      → height c ≡ suc (height m)
      → Regrown b l k (node m y c) (insert_rebalance b k np)
  unfolding IsBalanced
  Regrown-outer_right joins sorted bl br high outer tall =
      let r = node m y c in
      let flat = balance-dated b k l r joins sorted in
      let price = price-right b k l r joins sorted m c y refl in
      let heavy = right_lem (height l) (height r) high in
      Regrown-tall_right b k l r np joins sorted bl br _ (node (node l k m) y c)
        (choose_left b k np (ap left_heavy flat ∙ heavy.0) (ap right_heavy flat ∙ heavy.1)
          (ap (λ d. ltb_ℤ d np) price ∙ (lower_test (level b y).price np outer).0))
        high
        (tend_left (dated b k) l m c k y (Joins-dated b k l r joins sorted)
          (Sorted-dated b k l r joins sorted))
        (
          ground (arith, high, tall),
          ground (arith, high, tall),
          (ground (arith, high, tall), ground (arith, high, tall), bl, br.2),
          br.3,
        )
        (ground (arith, high, tall))

module _ (b : Book) (k : ℕ) (l p q c : Tree) (z y : ℕ) (np : ℤ) where
  Regrown-inner_right :
      Joins b l k (node (node p z q) y c)
      → Sorted b (node l k (node (node p z q) y c))
      → IsBalanced l
      → IsBalanced (node (node p z q) y c)
      → height (node (node p z q) y c) ≡ suc (suc (height l))
      → np <ℤ (level b y).price
      → height (node p z q) ≡ suc (height c)
      → Regrown b l k (node (node p z q) y c) (insert_rebalance b k np)
  unfolding IsBalanced
  Regrown-inner_right joins sorted bl br high inner tall =
      let r = node (node p z q) y c in
      let flat = balance-dated b k l r joins sorted in
      let price = price-right b k l r joins sorted (node p z q) c y refl in
      let tests = lower_test np (level b y).price inner in
      let heavy = right_lem (height l) (height r) high in
      let (_, _, (pq, qp, bp, bq), bc) = br in
      Regrown-tall_right b k l r np joins sorted bl br _ (node (node l k p) z (node q y c))
        (choose_right_left b k np (ap left_heavy flat ∙ heavy.0) (ap right_heavy flat ∙ heavy.1)
          (ap (λ d. ltb_ℤ d np) price ∙ tests.1) (ap (ltb_ℤ np) price ∙ tests.0))
        high
        (tend_right_left (dated b k) l p q c k z y (Joins-dated b k l r joins sorted)
          (Sorted-dated b k l r joins sorted))
        (
          ground (arith, high, tall, pq, qp),
          ground (arith, high, tall, pq, qp),
          (ground (arith, high, tall, pq, qp), ground (arith, high, tall, pq, qp), bl, bp),
          (ground (arith, high, tall, pq, qp), ground (arith, high, tall, pq, qp), bq, bc),
        )
        (ground (arith, high, tall, pq, qp))

-- The order of two prices.
pub compare_ℤ : (p q : ℤ) → (p <ℤ q) ⊎ (q <ℤ p) ⊎ (p ≡ q)
compare_ℤ p q = elim (Bool-cases (ltb_ℤ p q)) [
  | inl lower ↦ inl (ground (arith, lower))
  | inr not_lower ↦ elim (Bool-cases (ltb_ℤ q p)) [
    | inl higher ↦ inr (inl (ground (arith, higher)))
    | inr not_higher ↦ inr (inr (eq_of_parts p q (ground (arith, not_lower, not_higher))))
  ]
]

-- The left subtree has grown to be higher by 2.
pub Regrown-high_left :
    (b : Book) (l : Tree) (k : ℕ) (r : Tree) (np : ℤ)
    → Joins b l k r
    → Sorted b (node l k r)
    → IsBalanced l
    → IsBalanced r
    → height l ≡ suc (suc (height r))
    → Leans b np l
    → Regrown b l k r (insert_rebalance b k np)
Regrown-high_left b leaf k r np joins sorted bl br high leans = absurd (omega (arith, high))
Regrown-high_left b (node a x leaf) k r np joins sorted bl br high (outer, inner, same) =
    elim (compare_ℤ np (level b x).price) [
      | inl lower ↦ Regrown-outer_left b k a leaf r x np joins sorted bl br high lower (outer lower)
      | inr (inl higher) ↦ absurd (ground (arith, inner higher))
      | inr (inr equal) ↦ absurd (ground (arith, high, (same (sym equal)).0, (same (sym equal)).1))
    ]
Regrown-high_left b (node a x (node p z q)) k r np joins sorted bl br high (outer, inner, same) =
    elim (compare_ℤ np (level b x).price) [
      | inl lower ↦
          Regrown-outer_left b k a (node p z q) r x np joins sorted bl br high lower (outer lower)
      | inr (inl higher) ↦
          Regrown-inner_left b k a p q r x z np joins sorted bl br high higher (inner higher)
      | inr (inr equal) ↦ absurd (ground (arith, high, (same (sym equal)).0, (same (sym equal)).1))
    ]

pub Regrown-high_right :
    (b : Book) (l : Tree) (k : ℕ) (r : Tree) (np : ℤ)
    → Joins b l k r
    → Sorted b (node l k r)
    → IsBalanced l
    → IsBalanced r
    → height r ≡ suc (suc (height l))
    → Leans b np r
    → Regrown b l k r (insert_rebalance b k np)
Regrown-high_right b l k leaf np joins sorted bl br high leans = absurd (omega (arith, high))
Regrown-high_right b l k (node leaf y c) np joins sorted bl br high (inner, outer, same) =
    elim (compare_ℤ np (level b y).price) [
      | inl lower ↦ absurd (ground (arith, inner lower))
      | inr (inl higher) ↦
          Regrown-outer_right b k l leaf c y np joins sorted bl br high higher (outer higher)
      | inr (inr equal) ↦ absurd (ground (arith, high, (same (sym equal)).0, (same (sym equal)).1))
    ]
Regrown-high_right b l k (node (node p z q) y c) np joins sorted bl br high (inner, outer, same) =
    elim (compare_ℤ np (level b y).price) [
      | inl lower ↦
          Regrown-inner_right b k l p q c z y np joins sorted bl br high lower (inner lower)
      | inr (inl higher) ↦
          Regrown-outer_right b k l (node p z q) c y np joins sorted bl br high higher
            (outer higher)
      | inr (inr equal) ↦ absurd (ground (arith, high, (same (sym equal)).0, (same (sym equal)).1))
    ]
