-- ===== src/Book/Avl/Double.antt =====
-- engine/orderbook.c, the two rotations in a row of `avl_insert` and `avl_remove`.
use profit_playground.Common.{ℕ, ◌≡◌, refl, sym, subst}
use profit_playground.Book.State.{Book, level}
use profit_playground.Book.Avl.{
  avl_rotate_right, avl_rotate_left, rotate_left_right, rotate_right_left, set_left, set_right,
}
use profit_playground.Book.Tree.{Tree, node, AllSlots-map, Sorted}
use profit_playground.Book.Avl.Shape.{Shape, Joins, Becomes, Fresh-above, Fresh-below}
use profit_playground.Book.Avl.Rotate.{
  Apart-left, Apart-right, rotate_right-Becomes, rotate_left-Becomes,
}
use profit_playground.Book.Avl.Turn.{
  SameSlots, SameSlots-refl, SameSlots-left, SameSlots-right, SameSlots-node_left,
  SameSlots-node_right, SameSlots-trans, Sorted-left, Sorted-right, Sorted-node, AllSlots-within,
  Joins-put_left, Joins-put_right, Moves-set_left, Moves-set_right, Moves-trans, sides_apart,
  sides_apart_back,
}

-- The middle subtree of the left child becomes the root.
module _ (b : Book) (a p q c : Tree) (x z y : ℕ) where
  abbrev pub bent_left : Tree
  bent_left = node (node a x (node p z q)) y c

  abbrev pub straight_left : Tree
  straight_left = node (node (node a x p) z q) y c

  abbrev pub topped : Tree
  topped = node (node a x p) z (node q y c)

  SameSlots-straight_left : SameSlots bent_left straight_left
  SameSlots-straight_left = SameSlots-node_left _ _ c y (SameSlots-left a p q x z)

  pub SameSlots-topped : SameSlots bent_left topped
  SameSlots-topped =
      SameSlots-trans bent_left straight_left topped SameSlots-straight_left
        (SameSlots-right (node a x p) q c z y)

  Sorted-straight_left : Sorted b bent_left → Sorted b straight_left
  unfolding Sorted
  Sorted-straight_left s =
      Sorted-node b _ _ c c y s (SameSlots-left a p q x z) (SameSlots-refl c)
        (Sorted-left a p q x z b s.2) s.3

  pub Sorted-topped : Sorted b bent_left → Sorted b topped
  Sorted-topped s = Sorted-right (node a x p) q c z y b (Sorted-straight_left s)

  rotate_left_right-unfold :
      (level b y).left_idx ≡ x
      → let (b', l) = avl_rotate_left b x in
        rotate_left_right b y ≡ avl_rotate_right (set_left b' y l) y
  unfolding rotate_left_right
  rotate_left_right-unfold here = rw here refl

  pub rotate_left_right-Becomes :
      Sorted b bent_left
      → Joins b (node a x (node p z q)) y c
      → Becomes b bent_left (rotate_left_right b y) topped
  unfolding Shape Sorted
  rotate_left_right-Becomes s (real_y, (here, real_x, tall, sa, sm), sc) =
      let left = node a x (node p z q) in
      let first = rotate_left-Becomes b a p q x z (Apart-right b a p q x z s.2) (real_x, sa, sm) in
      let (b', l) = avl_rotate_left b x in
      let Fresh-left = Fresh-above b y left s.0 in
      let joined : Joins (set_left b' y l) (node (node a x p) z q) y c =
        Joins-put_left b b' (node (node a x p) z q) c y l
          (AllSlots-within _ left _ (SameSlots-left a p q x z).none_new Fresh-left)
          (Fresh-below b y c s.1) real_y (first.moves.outside y Fresh-left)
          (AllSlots-map c (λ j h. first.moves.outside j h) (sides_apart b left c y s)) first.shape
          sc in
      let second =
        rotate_right-Becomes (set_left b' y l) (node a x p) q c z y
          (Apart-left b (node a x p) q c z y (Sorted-straight_left s)) joined in
      subst (λ res. Becomes b bent_left res topped) (sym (rotate_left_right-unfold here))
        (record {
          shape = second.shape;
          moves =
              Moves-trans b (set_left b' y l) _ bent_left straight_left
                SameSlots-straight_left.none_new (Moves-set_left b b' left c y l first.moves)
                second.moves;
        })

-- The middle subtree of the right child becomes the root.
module _ (b : Book) (a p q c : Tree) (x z y : ℕ) where
  abbrev pub bent_right : Tree
  bent_right = node a x (node (node p z q) y c)

  abbrev pub straight_right : Tree
  straight_right = node a x (node p z (node q y c))

  SameSlots-straight_right : SameSlots bent_right straight_right
  SameSlots-straight_right = SameSlots-node_right a _ _ x (SameSlots-right p q c z y)

  pub SameSlots-topped_right : SameSlots bent_right (topped b a p q c x z y)
  SameSlots-topped_right =
      SameSlots-trans bent_right straight_right _ SameSlots-straight_right
        (SameSlots-left a p (node q y c) x z)

  Sorted-straight_right : Sorted b bent_right → Sorted b straight_right
  unfolding Sorted
  Sorted-straight_right s =
      Sorted-node b a a _ _ x s (SameSlots-refl a) (SameSlots-right p q c z y) s.2
        (Sorted-right p q c z y b s.3)

  pub Sorted-topped_right : Sorted b bent_right → Sorted b (topped b a p q c x z y)
  Sorted-topped_right s = Sorted-left a p (node q y c) x z b (Sorted-straight_right s)

  rotate_right_left-unfold :
      (level b x).right_idx ≡ y
      → let (b', r) = avl_rotate_right b y in
        rotate_right_left b x ≡ avl_rotate_left (set_right b' x r) x
  unfolding rotate_right_left
  rotate_right_left-unfold here = rw here refl

  pub rotate_right_left-Becomes :
      Sorted b bent_right
      → Joins b a x (node (node p z q) y c)
      → Becomes b bent_right (rotate_right_left b x) (topped b a p q c x z y)
  unfolding Shape Sorted
  rotate_right_left-Becomes s (real_x, sa, (here, real_y, tall, sm, sc)) =
      let right = node (node p z q) y c in
      let first = rotate_right-Becomes b p q c z y (Apart-left b p q c z y s.3) (real_y, sm, sc) in
      let (b', r) = avl_rotate_right b y in
      let Fresh-right = Fresh-below b x right s.1 in
      let joined : Joins (set_right b' x r) a x (node p z (node q y c)) =
        Joins-put_right b b' a (node p z (node q y c)) x r (Fresh-above b x a s.0)
          (AllSlots-within _ right _ (SameSlots-right p q c z y).none_new Fresh-right) real_x
          (first.moves.outside x Fresh-right)
          (AllSlots-map a (λ j h. first.moves.outside j h) (sides_apart_back b a right x s))
          first.shape sa in
      let second =
        rotate_left-Becomes (set_right b' x r) a p (node q y c) x z
          (Apart-right b a p (node q y c) x z (Sorted-straight_right s)) joined in
      subst (λ res. Becomes b bent_right res (topped b a p q c x z y))
        (sym (rotate_right_left-unfold here))
        (record {
          shape = second.shape;
          moves =
              Moves-trans b (set_right b' x r) _ bent_right straight_right
                SameSlots-straight_right.none_new (Moves-set_right b b' a right x r first.moves)
                second.moves;
        })
