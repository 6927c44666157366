-- ===== src/Book/Avl/Shape.antt =====
-- engine/orderbook.c: what the links and the heights of the level pool spell out, and how single
-- writes to a slot change it.
use profit_playground.Common.{
  ℕ, ◌+◌, ◌≡◌, ◌≢◌, refl, sym, ap, ◌∙◌, subst, arith, false, ltb, if◌then◌else◌, ◌==◌, update_self,
  update_ne,
}
use profit_playground.Common.Int.{◌<ℤ◌}
use profit_playground.Book.State.{Book, Level, level, set_level, null_idx}
use profit_playground.Book.Avl.{avl_height, avl_update_height, set_left, set_right}
use profit_playground.Book.Tree.{Tree, leaf, node, height, AllSlots, AllSlots-map, Links}

-- From index `i` on the links are those of the tree, and every slot has the height of its subtree.
unfoldable pub Shape : Book → ℕ → Tree → Type 0
Shape b i leaf = i ≡ null_idx
Shape b i (node l k r) =
    (i ≡ k)
    × (k ≢ null_idx)
    × ((level b k).height ≡ height (node l k r))
    × Shape b (level b k).left_idx l
    × Shape b (level b k).right_idx r

-- The same below slot `k`, whose own height may be old.
abbrev pub Joins : Book → Tree → ℕ → Tree → Type 0
Joins b l k r = (k ≢ null_idx) × Shape b (level b k).left_idx l × Shape b (level b k).right_idx r

-- What a slot holds apart from its place in the tree.
abbrev pub data_of : Level → Level
data_of lv = record lv { left_idx = 0; right_idx = 0; height = 0 }

-- No slot of the tree is this one.
abbrev pub Fresh : ℕ → Tree → Type 0
Fresh k t = AllSlots (λ j. j ≢ k) t

abbrev pub Unchanged : Book → Book → Tree → Type 0
Unchanged b b' t = AllSlots (λ j. level b' j ≡ level b j) t

pub Shape-frame : (b b' : Book) (i : ℕ) (t : Tree) → Unchanged b b' t → Shape b i t → Shape b' i t
unfolding Shape AllSlots
Shape-frame b b' i leaf u s = s
Shape-frame b b' i (node l k r) (same, ul, ur) (here, real, tall, sl, sr) = (
  here,
  real,
  ap (λ lv. lv.height) same ∙ tall,
  subst (λ lv. Shape b' lv.left_idx l) (sym same) (Shape-frame b b' (level b k).left_idx l ul sl),
  subst (λ lv. Shape b' lv.right_idx r) (sym same) (Shape-frame b b' (level b k).right_idx r ur sr),
)

pub avl_height-Shape : (b : Book) (i : ℕ) (t : Tree) → Shape b i t → avl_height b i ≡ height t
unfolding Shape avl_height
avl_height-Shape b i leaf s = ground (arith, s)
avl_height-Shape b i (node l k r) (here, real, tall, sl, sr) = rw here (ground (arith, real, tall))

pub Shape-Links : (b : Book) (i : ℕ) (t : Tree) → Shape b i t → Links b i t
unfolding Shape Links
Shape-Links b i leaf s = s
Shape-Links b i (node l k r) (here, real, tall, sl, sr) = (
  here,
  (λ e. real (sym here ∙ e)),
  rw here (Shape-Links b (level b k).left_idx l sl),
  rw here (Shape-Links b (level b k).right_idx r sr),
)

-- A write to slot `k` changes no other slot.
pub level-set_level :
    (b : Book) (k : ℕ) (v : Level) (j : ℕ) → j ≢ k → level (set_level b k v) j ≡ level b j
level-set_level b k v j other = update_ne b.level_pool k v j other

pub level-set_level_self : (b : Book) (k : ℕ) (v : Level) → level (set_level b k v) k ≡ v
level-set_level_self b k v = update_self b.level_pool k v

pub Unchanged-set_level :
    (b : Book) (k : ℕ) (v : Level) (t : Tree) → Fresh k t → Unchanged b (set_level b k v) t
Unchanged-set_level b k v t fresh = AllSlots-map t (λ j. level-set_level b k v j) fresh

pub Joins-set_left :
    (b : Book) (l r : Tree) (k i : ℕ)
    → Fresh k l
    → Fresh k r
    → k ≢ null_idx
    → Shape b i l
    → Shape b (level b k).right_idx r
    → Joins (set_left b k i) l k r
Joins-set_left b l r k i fl fr real sl sr =
    let v : Level = record (level b k) { left_idx = i } in
    rw (level-set_level_self b k v) (
      real,
      Shape-frame b _ i l (Unchanged-set_level b k v l fl) sl,
      Shape-frame b _ _ r (Unchanged-set_level b k v r fr) sr,
    )

pub Joins-set_right :
    (b : Book) (l r : Tree) (k i : ℕ)
    → Fresh k l
    → Fresh k r
    → k ≢ null_idx
    → Shape b (level b k).left_idx l
    → Shape b i r
    → Joins (set_right b k i) l k r
Joins-set_right b l r k i fl fr real sl sr =
    let v : Level = record (level b k) { right_idx = i } in
    rw (level-set_level_self b k v) (
      real,
      Shape-frame b _ _ l (Unchanged-set_level b k v l fl) sl,
      Shape-frame b _ i r (Unchanged-set_level b k v r fr) sr,
    )

-- The write of the height, on a slot that is there.
avl_update_height-unfold :
    (b : Book) (k : ℕ)
    → k ≢ null_idx
    → avl_update_height b k
      ≡ set_level b k (record (level b k) {
        height =
            1
            + (if ltb (avl_height b (level b k).right_idx) (avl_height b (level b k).left_idx)
                then avl_height b (level b k).left_idx
                else avl_height b (level b k).right_idx);
      })
unfolding avl_update_height
avl_update_height-unfold b k real =
    let some_slot : (k == null_idx) ≡ false = ground (arith, real) in rw some_slot refl

pub level-avl_update_height :
    (b : Book) (k j : ℕ) → j ≢ k → level (avl_update_height b k) j ≡ level b j
unfolding avl_update_height
level-avl_update_height b k j other = ground (arith, other)

pub data-avl_update_height :
    (b : Book) (k j : ℕ) → data_of (level (avl_update_height b k) j) ≡ data_of (level b j)
unfolding avl_update_height
data-avl_update_height b k j = ground arith

-- With the height brought up to date the slot is the root of its tree.
pub Shape-avl_update_height :
    (b : Book) (l r : Tree) (k : ℕ)
    → Fresh k l
    → Fresh k r
    → Joins b l k r
    → Shape (avl_update_height b k) k (node l k r)
unfolding Shape
Shape-avl_update_height b l r k fl fr (real, sl, sr) =
    let hl = avl_height-Shape b _ l sl in
    let hr = avl_height-Shape b _ r sr in
    let v : Level = record (level b k) {
      height =
          1
          + (if ltb (avl_height b (level b k).right_idx) (avl_height b (level b k).left_idx)
              then avl_height b (level b k).left_idx
              else avl_height b (level b k).right_idx);
    } in
    let same = level-set_level_self b k v in
    let tall : v.height ≡ height (node l k r) = ground (arith, hl, hr) in
    subst (λ b'. Shape b' k (node l k r)) (sym (avl_update_height-unfold b k real))
      (
        refl,
        real,
        ap (λ lv. lv.height) same ∙ tall,
        subst (λ lv. Shape (set_level b k v) lv.left_idx l) (sym same)
            (Shape-frame b (set_level b k v) _ l (Unchanged-set_level b k v l fl) sl),
        subst (λ lv. Shape (set_level b k v) lv.right_idx r) (sym same)
            (Shape-frame b (set_level b k v) _ r (Unchanged-set_level b k v r fr) sr),
      )

pub AllSlots-all : {P : ℕ → Type 0} (t : Tree) → ((j : ℕ) → P j) → AllSlots P t
unfolding AllSlots
AllSlots-all leaf f = tt
AllSlots-all (node l k r) f = (f k, AllSlots-all l f, AllSlots-all r f)

pub AllSlots-zip :
    {P Q R : ℕ → Type 0} (t : Tree)
    → ((j : ℕ) → P j → Q j → R j)
    → AllSlots P t
    → AllSlots Q t
    → AllSlots R t
unfolding AllSlots
AllSlots-zip leaf f p q = tt
AllSlots-zip (node l k r) f p q = (f k p.0 q.0, AllSlots-zip l f p.1 q.1, AllSlots-zip r f p.2 q.2)

-- A slot whose price lies on one side of all prices of the tree is not in it.
pub Fresh-above :
    (b : Book) (k : ℕ) (t : Tree)
    → AllSlots (λ j. (level b j).price <ℤ (level b k).price) t
    → Fresh k t
Fresh-above b k t = AllSlots-map t (λ j h e. ground (arith, h, e))

pub Fresh-below :
    (b : Book) (k : ℕ) (t : Tree)
    → AllSlots (λ j. (level b k).price <ℤ (level b j).price) t
    → Fresh k t
Fresh-below b k t = AllSlots-map t (λ j h e. ground (arith, h, e))

-- A change of the links and the heights of the tree's slots alone.
pub record Moves (b b' : Book) (t : Tree) : Type 0 where
  pub data_kept : (j : ℕ) → data_of (level b' j) ≡ data_of (level b j)
  pub outside : (j : ℕ) → Fresh j t → level b' j ≡ level b j

-- What an operation on a tree makes of it.
pub record Becomes (b : Book) (t : Tree) (res : Book × ℕ) (t' : Tree) : Type 0 where
  pub shape : Shape res.0 res.1 t'
  pub moves : Moves b res.0 t
