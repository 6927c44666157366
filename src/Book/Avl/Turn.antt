-- ===== src/Book/Avl/Turn.antt =====
-- engine/orderbook.c: the rotations of two steps, and what every rotation keeps of a search tree.
use profit_playground.Common.{ℕ, ◌≡◌, ◌≢◌, refl, sym, ◌∙◌, subst, arith, inl, inr}
use profit_playground.Book.State.{Book, level, null_idx}
use profit_playground.Book.Avl.{set_left, set_right}
use profit_playground.Book.Tree.{Tree, leaf, node, AllSlots, AllSlots-map, Has, Sorted}
use profit_playground.Book.Tree.Search.{AllSlots-Has}
use profit_playground.Book.Avl.Shape.{
  Shape, Joins, Fresh, Unchanged, Moves, data_of, Shape-frame, level-set_level, Joins-set_left,
  Joins-set_right,
}

-- Both trees have the same slots.
pub record SameSlots (t t' : Tree) : Type 0 where
  pub none_new : AllSlots (λ j. Has j t) t'
  pub none_lost : AllSlots (λ j. Has j t') t

pub AllSlots-self : (t : Tree) → AllSlots (λ j. Has j t) t
unfolding AllSlots Has
AllSlots-self leaf = tt
AllSlots-self (node l k r) = (
  inl refl,
  AllSlots-map l (λ j h. inr (inl h)) (AllSlots-self l),
  AllSlots-map r (λ j h. inr (inr h)) (AllSlots-self r),
)

pub SameSlots-refl : (t : Tree) → SameSlots t t
SameSlots-refl t = record { none_new = AllSlots-self t; none_lost = AllSlots-self t }

-- What holds of all slots of a tree holds of those of a tree within it.
pub AllSlots-within :
    (P : ℕ → Type 0) (t t' : Tree) → AllSlots (λ j. Has j t) t' → AllSlots P t → AllSlots P t'
AllSlots-within P t t' within h = AllSlots-map t' (λ j has. AllSlots-Has P t j h has) within

module _ (P : ℕ → Type 0) (a m c : Tree) (x y : ℕ) where
  pub turn_right : AllSlots P (node (node a x m) y c) → AllSlots P (node a x (node m y c))
  unfolding AllSlots
  turn_right (hy, (hx, ha, hm), hc) = (hx, ha, (hy, hm, hc))

  pub turn_left : AllSlots P (node a x (node m y c)) → AllSlots P (node (node a x m) y c)
  unfolding AllSlots
  turn_left (hx, ha, (hy, hm, hc)) = (hy, (hx, ha, hm), hc)

module _ (a m c : Tree) (x y : ℕ) where
  abbrev pub left_tall : Tree
  left_tall = node (node a x m) y c

  abbrev pub right_tall : Tree
  right_tall = node a x (node m y c)

  pub SameSlots-right : SameSlots left_tall right_tall
  SameSlots-right = record {
    none_new = turn_right (λ j. Has j left_tall) a m c x y (AllSlots-self left_tall);
    none_lost = turn_left (λ j. Has j right_tall) a m c x y (AllSlots-self right_tall);
  }

  pub SameSlots-left : SameSlots right_tall left_tall
  SameSlots-left = record {
    none_new = turn_left (λ j. Has j right_tall) a m c x y (AllSlots-self right_tall);
    none_lost = turn_right (λ j. Has j left_tall) a m c x y (AllSlots-self left_tall);
  }

  pub Sorted-right : (b : Book) → Sorted b left_tall → Sorted b right_tall
  unfolding Sorted AllSlots
  Sorted-right b ((xy, ay, my), yc, (ax, xm, sa, sm), sc) =
      (ax, (xy, xm, AllSlots-map c (λ j h. omega (arith, h, xy)) yc), sa, (my, yc, sm, sc))

  pub Sorted-left : (b : Book) → Sorted b right_tall → Sorted b left_tall
  unfolding Sorted AllSlots
  Sorted-left b (ax, (xy, xm, xc), sa, (my, yc, sm, sc)) =
      ((xy, AllSlots-map a (λ j h. omega (arith, h, xy)) ax, my), yc, (ax, xm, sa, sm), sc)

-- No slot on one side of `k` is on the other side.
pub sides_apart :
    (b : Book) (l r : Tree) (k : ℕ) → Sorted b (node l k r) → AllSlots (λ j. Fresh j l) r
unfolding Sorted
sides_apart b l r k (below, above, sl, sr) =
    AllSlots-map r (λ j h. AllSlots-map l (λ i g e. ground (arith, g, h, e)) below) above

pub sides_apart_back :
    (b : Book) (l r : Tree) (k : ℕ) → Sorted b (node l k r) → AllSlots (λ j. Fresh j r) l
unfolding Sorted
sides_apart_back b l r k (below, above, sl, sr) =
    AllSlots-map l (λ j h. AllSlots-map r (λ i g e. ground (arith, g, h, e)) above) below

-- Another tree in the place of the left subtree, after an operation that left the rest alone.
pub Joins-put_left :
    (b b' : Book) (l' r : Tree) (k i : ℕ)
    → Fresh k l'
    → Fresh k r
    → k ≢ null_idx
    → level b' k ≡ level b k
    → Unchanged b b' r
    → Shape b' i l'
    → Shape b (level b k).right_idx r
    → Joins (set_left b' k i) l' k r
Joins-put_left b b' l' r k i fl fr real same u sl sr = Joins-set_left b' l' r k i fl fr real sl (
    subst (λ lv. Shape b' lv.right_idx r) (sym same)
      (Shape-frame b b' (level b k).right_idx r u sr))

pub Joins-put_right :
    (b b' : Book) (l r' : Tree) (k i : ℕ)
    → Fresh k l
    → Fresh k r'
    → k ≢ null_idx
    → level b' k ≡ level b k
    → Unchanged b b' l
    → Shape b' i r'
    → Shape b (level b k).left_idx l
    → Joins (set_right b' k i) l k r'
Joins-put_right b b' l r' k i fl fr real same u sr sl =
    Joins-set_right b' l r' k i fl fr real
      (subst (λ lv. Shape b' lv.left_idx l) (sym same)
        (Shape-frame b b' (level b k).left_idx l u sl))
      sr

pub data-set_left :
    (b : Book) (k i j : ℕ) → data_of (level (set_left b k i) j) ≡ data_of (level b j)
data-set_left b k i j = ground arith

pub data-set_right :
    (b : Book) (k i j : ℕ) → data_of (level (set_right b k i) j) ≡ data_of (level b j)
data-set_right b k i j = ground arith

-- A change of the left subtree, then the write of its new root, change the whole tree only.
pub Moves-set_left :
    (b b' : Book) (l r : Tree) (k i : ℕ) → Moves b b' l → Moves b (set_left b' k i) (node l k r)
unfolding AllSlots
Moves-set_left b b' l r k i v = record {
  data_kept = λ j. data-set_left b' k i j ∙ v.data_kept j;
  outside = λ j (fk, fl, fr).
      level-set_level b' k (record (level b' k) { left_idx = i }) j (λ e. fk (sym e))
      ∙ v.outside j fl;
}

pub Moves-set_right :
    (b b' : Book) (l r : Tree) (k i : ℕ) → Moves b b' r → Moves b (set_right b' k i) (node l k r)
unfolding AllSlots
Moves-set_right b b' l r k i v = record {
  data_kept = λ j. data-set_right b' k i j ∙ v.data_kept j;
  outside = λ j (fk, fl, fr).
      level-set_level b' k (record (level b' k) { right_idx = i }) j (λ e. fk (sym e))
      ∙ v.outside j fr;
}

-- Two changes in a row, the second within the same slots.
pub Moves-trans :
    (b b' b'' : Book) (t t' : Tree)
    → AllSlots (λ j. Has j t) t'
    → Moves b b' t
    → Moves b' b'' t'
    → Moves b b'' t
Moves-trans b b' b'' t t' within p q = record {
  data_kept = λ j. q.data_kept j ∙ p.data_kept j;
  outside =
      λ j fresh. q.outside j (AllSlots-within (λ i. i ≢ j) t t' within fresh) ∙ p.outside j fresh;
}

-- The left subtree in a larger tree.
within-left :
    (l l' r : Tree) (k : ℕ)
    → AllSlots (λ j. Has j l) l'
    → AllSlots (λ j. Has j (node l k r)) (node l' k r)
unfolding AllSlots Has
within-left l l' r k h = (
  inl refl,
  AllSlots-map l' (λ j g. inr (inl g)) h,
  AllSlots-map r (λ j g. inr (inr g)) (AllSlots-self r),
)

within-right :
    (l r r' : Tree) (k : ℕ)
    → AllSlots (λ j. Has j r) r'
    → AllSlots (λ j. Has j (node l k r)) (node l k r')
unfolding AllSlots Has
within-right l r r' k h = (
  inl refl,
  AllSlots-map l (λ j g. inr (inl g)) (AllSlots-self l),
  AllSlots-map r' (λ j g. inr (inr g)) h,
)

pub SameSlots-node_left :
    (l l' r : Tree) (k : ℕ) → SameSlots l l' → SameSlots (node l k r) (node l' k r)
SameSlots-node_left l l' r k s = record {
  none_new = within-left l l' r k s.none_new;
  none_lost = within-left l' l r k s.none_lost;
}

pub SameSlots-node_right :
    (l r r' : Tree) (k : ℕ) → SameSlots r r' → SameSlots (node l k r) (node l k r')
SameSlots-node_right l r r' k s = record {
  none_new = within-right l r r' k s.none_new;
  none_lost = within-right l r' r k s.none_lost;
}

pub SameSlots-trans : (t u v : Tree) → SameSlots t u → SameSlots u v → SameSlots t v
SameSlots-trans t u v p q = record {
  none_new = AllSlots-within (λ j. Has j t) u v q.none_new p.none_new;
  none_lost = AllSlots-within (λ j. Has j v) u t p.none_lost q.none_lost;
}

-- A search tree stays one when a subtree of the same slots takes the place of its left or right one.
pub Sorted-node :
    (b : Book) (l l' r r' : Tree) (k : ℕ)
    → Sorted b (node l k r)
    → SameSlots l l'
    → SameSlots r r'
    → Sorted b l'
    → Sorted b r'
    → Sorted b (node l' k r')
unfolding Sorted
Sorted-node b l l' r r' k (below, above, sl, sr) vl vr sl' sr' =
    (AllSlots-within _ l l' vl.none_new below, AllSlots-within _ r r' vr.none_new above, sl', sr')
