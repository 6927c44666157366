-- ===== src/Book/Avl/Growth.antt =====
-- engine/orderbook.c, `avl_insert`: what an insertion makes of a tree, and how high it gets.
use native.Mathlib.Decide.{dec_lt}
use profit_playground.Common.{
  ℕ, suc, ◌≡◌, ◌≢◌, ◌≤◌, ◌⊎◌, inl, inr, refl, sym, ap, ◌∙◌, subst, arith,
}
use profit_playground.Common.Int.{ℤ, ◌<ℤ◌}
use profit_playground.Book.State.{Book, level, null_idx}
use profit_playground.Book.Avl.{insert_rebalance}
use profit_playground.Book.Tree.{Tree, leaf, node, height, AllSlots, AllSlots-map, Has, Sorted}
use profit_playground.Book.Tree.Search.{AllSlots-Has}
use profit_playground.Book.Avl.Shape.{Shape, Shape-frame, Joins, Fresh, AllSlots-all, data_of}
use profit_playground.Book.Avl.Balance.{IsBalanced}
use profit_playground.Book.Avl.Grow.{Leans, Regrown, Regrown-even}
use profit_playground.Book.Avl.Regrow.{Regrown-high_left, Regrown-high_right}

-- The slot of a level as `level_new` leaves it.
pub record IsNew (b : Book) (n : ℕ) : Type 0 where
  pub real : n ≢ null_idx
  pub no_left : (level b n).left_idx ≡ null_idx
  pub no_right : (level b n).right_idx ≡ null_idx
  pub one_high : (level b n).height ≡ 1

-- The tree is as high as before, or by 1 higher on the side of the new slot.
abbrev pub Grown : Book → ℤ → Tree → Tree → Type 0
Grown b np t t' = (height t' ≡ height t) ⊎ ((height t' ≡ suc (height t)) × Leans b np t')

-- What an insertion of slot `n` makes of a tree.
pub record Inserted (b : Book) (n : ℕ) (t : Tree) (res : Book × ℕ) : Type 0 where
  pub tree : Tree
  pub shape : Shape res.0 res.1 tree
  pub sorted : Sorted b tree
  pub balanced : IsBalanced tree
  pub none_new : AllSlots (λ j. (j ≡ n) ⊎ Has j t) tree
  pub none_lost : AllSlots (λ j. Has j tree) t
  pub joined : Has n tree
  pub data_kept : (j : ℕ) → data_of (level res.0 j) ≡ data_of (level b j)
  pub outside : (j : ℕ) → j ≢ n → Fresh j t → level res.0 j ≡ level b j
  pub grown : Grown b (level b n).price t tree

pub Inserted-leaf : (b : Book) (n : ℕ) → IsNew b n → Inserted b n leaf (b, n)
unfolding Shape Sorted AllSlots Has IsBalanced
Inserted-leaf b n v = record {
  tree = node leaf n leaf;
  shape = (refl, v.real, omega (arith, v.one_high), v.no_left, v.no_right);
  sorted = (tt, tt, tt, tt);
  balanced = (omega arith, omega arith, tt, tt);
  none_new = (inl refl, tt, tt);
  none_lost = tt;
  joined = inl refl;
  data_kept = λ j. refl;
  outside = λ j other fresh. refl;
  grown = inr (
    refl,
    ((λ h. absurd (omega (arith, h))), (λ h. absurd (omega (arith, h))), λ same. (refl, refl)),
  );
}

-- The prices alone say on which side a tree leans.
pub Leans-data :
    (b b' : Book) (np : ℤ) (t : Tree)
    → ((j : ℕ) → data_of (level b' j) ≡ data_of (level b j))
    → Leans b np t
    → Leans b' np t
Leans-data b b' np leaf same h = tt
Leans-data b b' np (node l k r) same h =
    subst
      (λ p.
        (np <ℤ p → height l ≡ suc (height r))
        × (p <ℤ np → height r ≡ suc (height l))
        × (p ≡ np → (height l ≡ 0) × (height r ≡ 0)))
      (sym (ap (λ lv. lv.price) (same k))) h

-- What is new in a tree is the new slot.
pub AllSlots-Inserted :
    (P : ℕ → Type 0) (n : ℕ) (t t' : Tree)
    → AllSlots (λ j. (j ≡ n) ⊎ Has j t) t'
    → P n
    → AllSlots P t
    → AllSlots P t'
AllSlots-Inserted P n t t' h new old =
    AllSlots-map t'
      (λ j m. elim m [ inl same ↦ subst P (sym same) new | inr has ↦ AllSlots-Has P t j old has ]) h

-- The height of a whole after its left or its right part has grown and been balanced.
pub Grown-left :
    (b : Book) (np : ℤ) (l l' : Tree) (k : ℕ) (r t' : Tree)
    → IsBalanced (node l k r)
    → np <ℤ (level b k).price
    → Grown b np l l'
    → (height l' ≤ suc (height r) → height r ≤ suc (height l') → t' ≡ node l' k r)
    → (height l' ≡ suc (suc (height r)) → height t' ≡ height l')
    → Grown b np (node l k r) t'
unfolding IsBalanced
Grown-left b np l l' k r t' (p, q, bl, br) lower (inl same) even high =
    inl (ap height (even (omega (arith, same, p)) (omega (arith, same, q))) ∙ ground (arith, same))
Grown-left b np l l' k r t' (p, q, bl, br) lower (inr (more, leans)) even high =
    elim (dec_lt (suc (height r)) (height l')) [
      | yes over ↦ inl (high (omega (arith, over, more, p)) ∙ ground (arith, over, more, p))
      | no within ↦
          let same : t' ≡ node l' k r = even (omega (arith, within)) (omega (arith, more, q)) in
          elim (dec_lt (height r) (height l')) [
            | yes higher ↦ inr (
              ap height same ∙ ground (arith, higher, within, more),
              subst (Leans b np) (sym same) (
                (λ h. omega (arith, higher, within)),
                (λ h. absurd (omega (arith, h, lower))),
                λ h. absurd (ground (arith, h, lower)),
              ),
            )
            | no not_higher ↦ inl (ap height same ∙ ground (arith, not_higher, more))
          ]
    ]

pub Grown-right :
    (b : Book) (np : ℤ) (l : Tree) (k : ℕ) (r r' t' : Tree)
    → IsBalanced (node l k r)
    → (level b k).price <ℤ np
    → Grown b np r r'
    → (height l ≤ suc (height r') → height r' ≤ suc (height l) → t' ≡ node l k r')
    → (height r' ≡ suc (suc (height l)) → height t' ≡ height r')
    → Grown b np (node l k r) t'
unfolding IsBalanced
Grown-right b np l k r r' t' (p, q, bl, br) higher (inl same) even high =
    inl (ap height (even (omega (arith, same, p)) (omega (arith, same, q))) ∙ ground (arith, same))
Grown-right b np l k r r' t' (p, q, bl, br) higher (inr (more, leans)) even high =
    elim (dec_lt (suc (height l)) (height r')) [
      | yes over ↦ inl (high (omega (arith, over, more, q)) ∙ ground (arith, over, more, q))
      | no within ↦
          let same : t' ≡ node l k r' = even (omega (arith, more, p)) (omega (arith, within)) in
          elim (dec_lt (height l) (height r')) [
            | yes taller ↦ inr (
              ap height same ∙ ground (arith, taller, within, more),
              subst (Leans b np) (sym same) (
                (λ h. absurd (omega (arith, h, higher))),
                (λ h. omega (arith, taller, within)),
                λ h. absurd (ground (arith, h, higher)),
              ),
            )
            | no not_taller ↦ inl (ap height same ∙ ground (arith, not_taller, more))
          ]
    ]

-- The balancing after a growth, on either side.
pub regrow_left :
    (b : Book) (l : Tree) (k : ℕ) (r : Tree) (np : ℤ)
    → Joins b l k r
    → Sorted b (node l k r)
    → IsBalanced l
    → IsBalanced r
    → height l ≤ suc (suc (height r))
    → height r ≤ suc (height l)
    → (height l ≡ suc (suc (height r)) → Leans b np l)
    → Regrown b l k r (insert_rebalance b k np)
regrow_left b l k r np joins sorted bl br p q leans = elim (dec_lt (suc (height r)) (height l)) [
  | yes over ↦
      let high : height l ≡ suc (suc (height r)) = omega (arith, over, p) in
      Regrown-high_left b l k r np joins sorted bl br high (leans high)
  | no within ↦ Regrown-even b k l r np joins sorted bl br (omega (arith, within)) q
]

pub regrow_right :
    (b : Book) (l : Tree) (k : ℕ) (r : Tree) (np : ℤ)
    → Joins b l k r
    → Sorted b (node l k r)
    → IsBalanced l
    → IsBalanced r
    → height r ≤ suc (suc (height l))
    → height l ≤ suc (height r)
    → (height r ≡ suc (suc (height l)) → Leans b np r)
    → Regrown b l k r (insert_rebalance b k np)
regrow_right b l k r np joins sorted bl br p q leans = elim (dec_lt (suc (height l)) (height r)) [
  | yes over ↦
      let high : height r ≡ suc (suc (height l)) = omega (arith, over, p) in
      Regrown-high_right b l k r np joins sorted bl br high (leans high)
  | no within ↦ Regrown-even b k l r np joins sorted bl br q (omega (arith, within))
]

-- A tree that leans has grown.
pub Leans-of_Grown :
    (b : Book) (np : ℤ) (t t' : Tree) → Grown b np t t' → height t' ≢ height t → Leans b np t'
Leans-of_Grown b np t t' (inl same) other = absurd (other same)
Leans-of_Grown b np t t' (inr (more, leans)) other = leans

-- What an insertion makes of a tree is about the levels only.
pub Inserted-levels :
    (b b2 b3 : Book) (n root : ℕ) (t : Tree)
    → ((j : ℕ) → level b3 j ≡ level b2 j)
    → Inserted b n t (b2, root)
    → Inserted b n t (b3, root)
Inserted-levels b b2 b3 n root t same v = record {
  tree = v.tree;
  shape = Shape-frame b2 b3 root v.tree (AllSlots-all v.tree same) v.shape;
  sorted = v.sorted;
  balanced = v.balanced;
  none_new = v.none_new;
  none_lost = v.none_lost;
  joined = v.joined;
  data_kept = λ j. ap data_of (same j) ∙ v.data_kept j;
  outside = λ j other fresh. same j ∙ v.outside j other fresh;
  grown = v.grown;
}

pub Grown-le : (b : Book) (np : ℤ) (t t' : Tree) → Grown b np t t' → height t' ≤ suc (height t)
Grown-le b np t t' (inl same) = omega (arith, same)
Grown-le b np t t' (inr (more, leans)) = omega (arith, more)

pub Grown-ge : (b : Book) (np : ℤ) (t t' : Tree) → Grown b np t t' → height t ≤ height t'
Grown-ge b np t t' (inl same) = omega (arith, same)
Grown-ge b np t t' (inr (more, leans)) = omega (arith, more)
