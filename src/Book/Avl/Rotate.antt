-- ===== src/Book/Avl/Rotate.antt =====
-- engine/orderbook.c, `avl_rotate_right` and `avl_rotate_left` on the tree that the links spell out.
use profit_playground.Common.{ℕ, ◌≡◌, ◌≢◌, refl, sym, ◌∙◌, subst, arith}
use profit_playground.Book.State.{Book, level}
use profit_playground.Book.Avl.{
  avl_update_height, avl_rotate_right, avl_rotate_left, set_left, set_right,
}
use profit_playground.Book.Tree.{Tree, node, AllSlots, AllSlots-map, Sorted}
use profit_playground.Book.Avl.Shape.{
  Shape, Joins, Fresh, Unchanged, Becomes, data_of, Shape-frame, AllSlots-zip, Fresh-above,
  Fresh-below, level-set_level, level-set_level_self, Unchanged-set_level, Joins-set_left,
  Joins-set_right, Shape-avl_update_height, level-avl_update_height, data-avl_update_height,
}

-- The two slots of a rotation, apart from each other and from the three subtrees.
pub record Apart (a : Tree) (x : ℕ) (m : Tree) (y : ℕ) (c : Tree) : Type 0 where
  pub xy : x ≢ y
  pub xa : Fresh x a
  pub xm : Fresh x m
  pub xc : Fresh x c
  pub ya : Fresh y a
  pub ym : Fresh y m
  pub yc : Fresh y c

pub Apart-left :
    (b : Book) (a m c : Tree) (x y : ℕ) → Sorted b (node (node a x m) y c) → Apart a x m y c
unfolding Sorted AllSlots
Apart-left b a m c x y ((xy, ay, my), yc, (ax, xm, sa, sm), sc) = record {
  xy = λ e. ground (arith, xy, e);
  xa = Fresh-above b x a ax;
  xm = Fresh-below b x m xm;
  xc = AllSlots-map c (λ j h e. ground (arith, h, e, xy)) yc;
  ya = Fresh-above b y a ay;
  ym = Fresh-above b y m my;
  yc = Fresh-below b y c yc;
}

pub Apart-right :
    (b : Book) (a m c : Tree) (x y : ℕ) → Sorted b (node a x (node m y c)) → Apart a x m y c
unfolding Sorted AllSlots
Apart-right b a m c x y (ax, (xy, xm, xc), sa, (my, yc, sm, sc)) = record {
  xy = λ e. ground (arith, xy, e);
  xa = Fresh-above b x a ax;
  xm = Fresh-below b x m xm;
  xc = Fresh-below b x c xc;
  ya = AllSlots-map a (λ j h e. ground (arith, h, e, xy)) ax;
  ym = Fresh-above b y m my;
  yc = Fresh-below b y c yc;
}

-- The links after the two writes of a rotation to the right.
module _ (b : Book) (x y : ℕ) where
  abbrev turned_right : Book
  turned_right = set_left (set_right b x y) y (level b x).right_idx

  abbrev lifted_right : Book
  lifted_right = avl_update_height turned_right y

  rotate_right-unfold :
      (level b y).left_idx ≡ x → avl_rotate_right b y ≡ (avl_update_height lifted_right x, x)
  unfolding avl_rotate_right
  rotate_right-unfold here = rw here refl

  level-turned_right : (j : ℕ) → j ≢ x → j ≢ y → level lifted_right j ≡ level b j
  level-turned_right j nx ny =
      level-avl_update_height turned_right y j ny
      ∙ level-set_level (set_right b x y) y _ j ny
      ∙ level-set_level b x _ j nx

  top-turned_right : x ≢ y → level lifted_right x ≡ record (level b x) { right_idx = y }
  top-turned_right xy =
      level-avl_update_height turned_right y x xy
      ∙ level-set_level (set_right b x y) y _ x xy
      ∙ level-set_level_self b x _

  Unchanged-turned_right : (t : Tree) → Fresh x t → Fresh y t → Unchanged b lifted_right t
  Unchanged-turned_right t fx fy = AllSlots-zip t level-turned_right fx fy

  data-turned_right : (j : ℕ) → data_of (level turned_right j) ≡ data_of (level b j)
  data-turned_right j = ground arith

-- A rotation to the right.
pub rotate_right-Becomes :
    (b : Book) (a m c : Tree) (x y : ℕ)
    → Apart a x m y c
    → Joins b (node a x m) y c
    → Becomes b (node (node a x m) y c) (avl_rotate_right b y) (node a x (node m y c))
unfolding Shape AllSlots
rotate_right-Becomes b a m c x y v (real_y, (here, real_x, tall, sa, sm), sc) =
    let b1 = set_right b x y in
    let b3 = lifted_right b x y in
    let ny : y ≢ x = λ e. v.xy (sym e) in
    let y_kept = level-set_level b x (record (level b x) { right_idx = y }) y ny in
    let f1 = Unchanged-set_level b x (record (level b x) { right_idx = y }) in
    let low : Joins (turned_right b x y) m y c =
      Joins-set_left b1 m c y (level b x).right_idx v.ym v.yc real_y
        (Shape-frame b b1 (level b x).right_idx m (f1 m v.xm) sm)
        (subst (λ lv. Shape b1 lv.right_idx c) (sym y_kept)
          (Shape-frame b b1 (level b y).right_idx c (f1 c v.xc) sc)) in
    let lower : Shape b3 y (node m y c) =
      Shape-avl_update_height (turned_right b x y) m c y v.ym v.yc low in
    let top = top-turned_right b x y v.xy in
    let joined : Joins b3 a x (node m y c) = (
      real_x,
      subst (λ lv. Shape b3 lv.left_idx a) (sym top)
          (Shape-frame b b3 (level b x).left_idx a (Unchanged-turned_right b x y a v.xa v.ya) sa),
      subst (λ lv. Shape b3 lv.right_idx (node m y c)) (sym top) lower,
    ) in
    subst (λ res. Becomes b (node (node a x m) y c) res (node a x (node m y c)))
      (sym (rotate_right-unfold b x y here))
      (record {
        shape = Shape-avl_update_height b3 a (node m y c) x v.xa (ny, v.xm, v.xc) joined;
        moves = record {
          data_kept = λ j.
              data-avl_update_height b3 x j
              ∙ data-avl_update_height (turned_right b x y) y j
              ∙ data-turned_right b x y j;
          outside = λ j (fy, (fx, fa, fm), fc).
              level-avl_update_height b3 x j (λ e. fx (sym e))
              ∙ level-turned_right b x y j (λ e. fx (sym e)) (λ e. fy (sym e));
        };
      })

-- The links after the two writes of a rotation to the left.
module _ (b : Book) (x y : ℕ) where
  abbrev turned_left : Book
  turned_left = set_right (set_left b y x) x (level b y).left_idx

  abbrev lifted_left : Book
  lifted_left = avl_update_height turned_left x

  rotate_left-unfold :
      (level b x).right_idx ≡ y → avl_rotate_left b x ≡ (avl_update_height lifted_left y, y)
  unfolding avl_rotate_left
  rotate_left-unfold here = rw here refl

  level-turned_left : (j : ℕ) → j ≢ x → j ≢ y → level lifted_left j ≡ level b j
  level-turned_left j nx ny =
      level-avl_update_height turned_left x j nx
      ∙ level-set_level (set_left b y x) x _ j nx
      ∙ level-set_level b y _ j ny

  top-turned_left : y ≢ x → level lifted_left y ≡ record (level b y) { left_idx = x }
  top-turned_left ny =
      level-avl_update_height turned_left x y ny
      ∙ level-set_level (set_left b y x) x _ y ny
      ∙ level-set_level_self b y _

  Unchanged-turned_left : (t : Tree) → Fresh x t → Fresh y t → Unchanged b lifted_left t
  Unchanged-turned_left t fx fy = AllSlots-zip t level-turned_left fx fy

  data-turned_left : (j : ℕ) → data_of (level turned_left j) ≡ data_of (level b j)
  data-turned_left j = ground arith

-- A rotation to the left.
pub rotate_left-Becomes :
    (b : Book) (a m c : Tree) (x y : ℕ)
    → Apart a x m y c
    → Joins b a x (node m y c)
    → Becomes b (node a x (node m y c)) (avl_rotate_left b x) (node (node a x m) y c)
unfolding Shape AllSlots
rotate_left-Becomes b a m c x y v (real_x, sa, (here, real_y, tall, sm, sc)) =
    let b1 = set_left b y x in
    let b3 = lifted_left b x y in
    let ny : y ≢ x = λ e. v.xy (sym e) in
    let x_kept = level-set_level b y (record (level b y) { left_idx = x }) x v.xy in
    let f1 = Unchanged-set_level b y (record (level b y) { left_idx = x }) in
    let low : Joins (turned_left b x y) a x m =
      Joins-set_right b1 a m x (level b y).left_idx v.xa v.xm real_x
        (subst (λ lv. Shape b1 lv.left_idx a) (sym x_kept)
          (Shape-frame b b1 (level b x).left_idx a (f1 a v.ya) sa))
        (Shape-frame b b1 (level b y).left_idx m (f1 m v.ym) sm) in
    let lower : Shape b3 x (node a x m) =
      Shape-avl_update_height (turned_left b x y) a m x v.xa v.xm low in
    let top = top-turned_left b x y ny in
    let joined : Joins b3 (node a x m) y c = (
      real_y,
      subst (λ lv. Shape b3 lv.left_idx (node a x m)) (sym top) lower,
      subst (λ lv. Shape b3 lv.right_idx c) (sym top)
          (Shape-frame b b3 (level b y).right_idx c (Unchanged-turned_left b x y c v.xc v.yc) sc),
    ) in
    subst (λ res. Becomes b (node a x (node m y c)) res (node (node a x m) y c))
      (sym (rotate_left-unfold b x y here))
      (record {
        shape = Shape-avl_update_height b3 (node a x m) c y (v.xy, v.ya, v.ym) v.yc joined;
        moves = record {
          data_kept = λ j.
              data-avl_update_height b3 y j
              ∙ data-avl_update_height (turned_left b x y) x j
              ∙ data-turned_left b x y j;
          outside = λ j (fx, fa, (fy, fm, fc)).
              level-avl_update_height b3 y j (λ e. fy (sym e))
              ∙ level-turned_left b x y j (λ e. fx (sym e)) (λ e. fy (sym e));
        };
      })
