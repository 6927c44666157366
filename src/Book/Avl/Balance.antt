-- ===== src/Book/Avl/Balance.antt =====
-- engine/orderbook.c, the end of `avl_insert` and of `avl_remove`: which rotation is chosen.
use profit_playground.Common.{ℕ, suc, ◌≡◌, ◌≤◌, refl, sym, ap, arith, false, ◌==◌}
use profit_playground.Common.Int.{sub_ℕ}
use profit_playground.Book.State.{Book, level, null_idx}
use profit_playground.Book.Avl.{
  avl_balance, avl_update_height, avl_rotate_right, avl_rotate_left, rotate_left_right,
  rotate_right_left,
}
use profit_playground.Book.Tree.{Tree, leaf, node, height, AllSlots, AllSlots-map, Sorted}
use profit_playground.Book.Avl.Shape.{
  Shape, Joins, Becomes, data_of, Fresh-above, Fresh-below, avl_height-Shape,
  Shape-avl_update_height, level-avl_update_height, data-avl_update_height,
}
use profit_playground.Book.Avl.Rotate.{
  Apart-left, Apart-right, rotate_right-Becomes, rotate_left-Becomes,
}
use profit_playground.Book.Avl.Turn.{
  SameSlots, SameSlots-refl, SameSlots-left, SameSlots-right, Sorted-left, Sorted-right,
  AllSlots-self, Moves-trans,
}
use profit_playground.Book.Avl.Double.{
  SameSlots-topped, Sorted-topped, rotate_left_right-Becomes, SameSlots-topped_right,
  Sorted-topped_right, rotate_right_left-Becomes,
}

-- The heights of the two subtrees of every slot differ by at most 1.
unfoldable pub IsBalanced : Tree → Type 0
IsBalanced leaf = Unit
IsBalanced (node l k r) =
    (height l ≤ suc (height r)) × (height r ≤ suc (height l)) × IsBalanced l × IsBalanced r

-- What bringing the height up to date and rotating make of a tree.
pub record Tended (b : Book) (t : Tree) (res : Book × ℕ) (t' : Tree) : Type 0 where
  pub becomes : Becomes b t res t'
  pub same_slots : SameSlots t t'
  pub still_sorted : Sorted b t'

-- The prices are data of the slots.
pub Sorted-data :
    (b b' : Book) (t : Tree)
    → ((j : ℕ) → data_of (level b' j) ≡ data_of (level b j))
    → Sorted b t
    → Sorted b' t
unfolding Sorted
Sorted-data b b' leaf same s = tt
Sorted-data b b' (node l k r) same (below, above, sl, sr) =
    let price : (j : ℕ) → (level b' j).price ≡ (level b j).price =
      λ j. ap (λ lv. lv.price) (same j) in
    (
      AllSlots-map l (λ j h. rw (price j, price k) h) below,
      AllSlots-map r (λ j h. rw (price j, price k) h) above,
      Sorted-data b b' l same sl,
      Sorted-data b b' r same sr,
    )

-- The rotations on a tree whose heights are all up to date.
module _ (b : Book) where
  pub tend_none : (t : Tree) (i : ℕ) → Shape b i t → Sorted b t → Tended b t (b, i) t
  tend_none t i s v = record {
    becomes = record {
      shape = s;
      moves = record { data_kept = λ j. refl; outside = λ j fresh. refl };
    };
    same_slots = SameSlots-refl t;
    still_sorted = v;
  }

  pub tend_right :
      (a m c : Tree) (x y : ℕ)
      → Joins b (node a x m) y c
      → Sorted b (node (node a x m) y c)
      → Tended b (node (node a x m) y c) (avl_rotate_right b y) (node a x (node m y c))
  tend_right a m c x y s v = record {
    becomes = rotate_right-Becomes b a m c x y (Apart-left b a m c x y v) s;
    same_slots = SameSlots-right a m c x y;
    still_sorted = Sorted-right a m c x y b v;
  }

  pub tend_left :
      (a m c : Tree) (x y : ℕ)
      → Joins b a x (node m y c)
      → Sorted b (node a x (node m y c))
      → Tended b (node a x (node m y c)) (avl_rotate_left b x) (node (node a x m) y c)
  tend_left a m c x y s v = record {
    becomes = rotate_left-Becomes b a m c x y (Apart-right b a m c x y v) s;
    same_slots = SameSlots-left a m c x y;
    still_sorted = Sorted-left a m c x y b v;
  }

  pub tend_left_right :
      (a p q c : Tree) (x z y : ℕ)
      → Joins b (node a x (node p z q)) y c
      → Sorted b (node (node a x (node p z q)) y c)
      → Tended b
          (node (node a x (node p z q)) y c)
          (rotate_left_right b y)
          (node (node a x p) z (node q y c))
  tend_left_right a p q c x z y s v = record {
    becomes = rotate_left_right-Becomes b a p q c x z y v s;
    same_slots = SameSlots-topped b a p q c x z y;
    still_sorted = Sorted-topped b a p q c x z y v;
  }

  pub tend_right_left :
      (a p q c : Tree) (x z y : ℕ)
      → Joins b a x (node (node p z q) y c)
      → Sorted b (node a x (node (node p z q) y c))
      → Tended b
          (node a x (node (node p z q) y c))
          (rotate_right_left b x)
          (node (node a x p) z (node q y c))
  tend_right_left a p q c x z y s v = record {
    becomes = rotate_right_left-Becomes b a p q c x z y v s;
    same_slots = SameSlots-topped_right b a p q c x z y;
    still_sorted = Sorted-topped_right b a p q c x z y v;
  }

  pub avl_balance-Shape :
      (i k : ℕ) (l r : Tree)
      → Shape b i (node l k r)
      → avl_balance b i ≡ sub_ℕ (height l) (height r)
  unfolding Shape avl_balance
  avl_balance-Shape i k l r (here, real, tall, sl, sr) =
      let some_slot : (k == null_idx) ≡ false = ground (arith, real) in
      rw (here, some_slot, avl_height-Shape b _ l sl, avl_height-Shape b _ r sr) refl

-- The slot's height is brought up to date.
abbrev pub dated : Book → ℕ → Book
dated b k = avl_update_height b k

-- That is done first.
module _ (b : Book) (k : ℕ) (l r : Tree) (joins : Joins b l k r)
    (sorted : Sorted b (node l k r)) where
  pub Shape-dated : Shape (dated b k) k (node l k r)
  unfolding Sorted
  Shape-dated =
      Shape-avl_update_height b l r k (Fresh-above b k l sorted.0) (Fresh-below b k r sorted.1)
        joins

  pub Sorted-dated : Sorted (dated b k) (node l k r)
  Sorted-dated = Sorted-data b (dated b k) (node l k r) (data-avl_update_height b k) sorted

  pub Joins-dated : Joins (dated b k) l k r
  unfolding Shape
  Joins-dated = (Shape-dated.1, Shape-dated.3, Shape-dated.4)

  pub balance-dated : avl_balance (dated b k) k ≡ sub_ℕ (height l) (height r)
  balance-dated = avl_balance-Shape (dated b k) k k l r Shape-dated

  -- What is done to the book that is up to date is done to the book.
  pub Tended-dated :
      (res : Book × ℕ) (t' : Tree)
      → Tended (dated b k) (node l k r) res t'
      → Tended b (node l k r) res t'
  unfolding AllSlots
  Tended-dated res t' v = record {
    becomes = record {
      shape = v.becomes.shape;
      moves =
          Moves-trans b (dated b k) res.0 (node l k r) (node l k r) (AllSlots-self (node l k r))
            (record {
              data_kept = data-avl_update_height b k;
              outside = λ j (fk, fl, fr). level-avl_update_height b k j (λ e. fk (sym e));
            })
            v.becomes.moves;
    };
    same_slots = v.same_slots;
    still_sorted =
        Sorted-data (dated b k) b t' (λ j. sym (data-avl_update_height b k j)) v.still_sorted;
  }
