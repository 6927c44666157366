-- ===== src/Book/Avl/Erase.antt =====
-- engine/orderbook.c, `avl_remove`: a price leaves the search tree of a side.
use profit_playground.Common.{
  ℕ, zero, suc, ◌≡◌, ◌≢◌, ◌≤◌, inl, inr, refl, sym, ap, ◌∙◌, subst, arith, true, false, ◌==◌,
}
use profit_playground.Common.Int.{ℤ, ltb_ℤ, ◌<ℤ◌}
use profit_playground.Book.State.{Book, level, null_idx, level_slots}
use profit_playground.Book.Pool.{level_pool_free}
use profit_playground.Book.Avl.{
  avl_min, avl_remove, remove_rebalance, set_left, set_right, copy_level,
}
use profit_playground.Book.Tree.{
  Tree, leaf, node, size, height, height-le, AllSlots, AllSlots-map, Has, Sorted,
}
use profit_playground.Book.Tree.Search.{avl_min_lem}
use profit_playground.Book.Avl.Shape.{
  Shape, Joins, Unchanged, data_of, Shape-frame, AllSlots-zip, Shape-Links,
}
use profit_playground.Book.Avl.Turn.{AllSlots-self}
use profit_playground.Book.Avl.Balance.{IsBalanced, Sorted-data}
use profit_playground.Book.Avl.Regrow.{compare_ℤ}
use profit_playground.Book.Avl.Removal.{Removed, Removed-leaf}
use profit_playground.Book.Avl.Remove.{Removed-left}
use profit_playground.Book.Avl.RemoveRight.{Removed-right}
use profit_playground.Book.Avl.Replace.{Sorted-copied_right, Shape-copied_right}
use profit_playground.Book.Avl.Replaced.{Removed-replaced}

-- A freed slot keeps what it holds.
module _ (b : Book) (k : ℕ) where
  level-freed : (j : ℕ) → level (level_pool_free b k) j ≡ level b j
  unfolding level_pool_free
  level-freed j = refl

  Unchanged-freed : (t : Tree) → Unchanged b (level_pool_free b k) t
  unfolding AllSlots
  Unchanged-freed leaf = tt
  Unchanged-freed (node l i r) = (level-freed i, Unchanged-freed l, Unchanged-freed r)

  data-freed : (j : ℕ) → data_of (level (level_pool_free b k) j) ≡ data_of (level b j)
  data-freed j = ap data_of (level-freed j)

-- A root with one subtree leaves its place to it.
module _ (b : Book) (k i : ℕ) (t : Tree) (shape : Shape b i t) (balanced : IsBalanced t) where
  Removed-root_left :
      Sorted b (node t k leaf)
      → Removed b (level b k).price (node t k leaf) (level_pool_free b k, i)
  unfolding AllSlots Has Sorted
  Removed-root_left sorted = record {
    tree = t;
    shape = Shape-frame b (level_pool_free b k) i t (Unchanged-freed b k t) shape;
    sorted = Sorted-data b (level_pool_free b k) t (data-freed b k) sorted.2;
    balanced = balanced;
    none_new =
        AllSlots-zip t
          (λ j has under. (j, inr (inl has), (λ e. ground (arith, e, under)), data-freed b k j))
          (AllSlots-self t) sorted.0;
    none_lost =
        (inl refl, AllSlots-map t (λ j has. inr (j, has, data-freed b k j)) (AllSlots-self t), tt);
    within = AllSlots-map t (λ j has. inr (inl has)) (AllSlots-self t);
    outside = λ j fresh. level-freed b k j;
    lowered = inr (ground arith);
  }

  Removed-root_right :
      Sorted b (node leaf k t)
      → Removed b (level b k).price (node leaf k t) (level_pool_free b k, i)
  unfolding AllSlots Has Sorted
  Removed-root_right sorted = record {
    tree = t;
    shape = Shape-frame b (level_pool_free b k) i t (Unchanged-freed b k t) shape;
    sorted = Sorted-data b (level_pool_free b k) t (data-freed b k) sorted.3;
    balanced = balanced;
    none_new =
        AllSlots-zip t
          (λ j has over. (j, inr (inr has), (λ e. ground (arith, e, over)), data-freed b k j))
          (AllSlots-self t) sorted.1;
    none_lost =
        (inl refl, tt, AllSlots-map t (λ j has. inr (j, has, data-freed b k j)) (AllSlots-self t));
    within = AllSlots-map t (λ j has. inr (inr has)) (AllSlots-self t);
    outside = λ j fresh. level-freed b k j;
    lowered = inr (ground arith);
  }

-- The branches of `avl_remove`.
remove-zero : (b : Book) (i : ℕ) (price : ℤ) → avl_remove zero b i price ≡ (b, i)
unfolding avl_remove
remove-zero b i price = refl

remove-empty :
    (f : ℕ) (b : Book) (i : ℕ) (price : ℤ)
    → i ≡ null_idx
    → avl_remove (suc f) b i price ≡ (b, null_idx)
unfolding avl_remove
remove-empty f b i price none_here = rw none_here refl

module _ (f : ℕ) (b : Book) (k : ℕ) (price : ℤ) (real : k ≢ null_idx) where
  remove-left :
      price <ℤ (level b k).price
      → let (b', i) = avl_remove f b (level b k).left_idx price in
        avl_remove (suc f) b k price ≡ remove_rebalance (set_left b' k i) k
  unfolding avl_remove
  remove-left lower =
      let some_slot : (k == null_idx) ≡ false = ground (arith, real) in
      let is_lower : ltb_ℤ price (level b k).price ≡ true = ground (arith, lower) in
      rw (some_slot, is_lower) refl

  remove-right :
      (level b k).price <ℤ price
      → let (b', i) = avl_remove f b (level b k).right_idx price in
        avl_remove (suc f) b k price ≡ remove_rebalance (set_right b' k i) k
  unfolding avl_remove
  remove-right higher =
      let some_slot : (k == null_idx) ≡ false = ground (arith, real) in
      let not_lower : ltb_ℤ price (level b k).price ≡ false = ground (arith, higher) in
      let is_higher : ltb_ℤ (level b k).price price ≡ true = ground (arith, higher) in
      rw (some_slot, not_lower, is_higher) refl

module _ (f : ℕ) (b : Book) (k : ℕ) (real : k ≢ null_idx) where
  abbrev price_here : ℤ
  price_here = (level b k).price

  remove-root_right :
      (level b k).left_idx ≡ null_idx
      → avl_remove (suc f) b k price_here ≡ (level_pool_free b k, (level b k).right_idx)
  unfolding avl_remove
  remove-root_right no_left =
      let some_slot : (k == null_idx) ≡ false = ground (arith, real) in
      let not_lower : ltb_ℤ (level b k).price (level b k).price ≡ false = ground arith in
      let empty : ((level b k).left_idx == null_idx) ≡ true = ground (arith, no_left) in
      rw (some_slot, not_lower, empty) refl

  remove-root_left :
      (level b k).left_idx ≢ null_idx
      → (level b k).right_idx ≡ null_idx
      → avl_remove (suc f) b k price_here ≡ (level_pool_free b k, (level b k).left_idx)
  unfolding avl_remove
  remove-root_left some_left no_right =
      let some_slot : (k == null_idx) ≡ false = ground (arith, real) in
      let not_lower : ltb_ℤ (level b k).price (level b k).price ≡ false = ground arith in
      let left : ((level b k).left_idx == null_idx) ≡ false = ground (arith, some_left) in
      let right : ((level b k).right_idx == null_idx) ≡ true = ground (arith, no_right) in
      rw (some_slot, not_lower, left, right) refl

  abbrev succ_of : ℕ
  succ_of = avl_min level_slots b (level b k).right_idx

  abbrev copy : Book
  copy = copy_level b k succ_of

  remove-replace :
      (level b k).left_idx ≢ null_idx
      → (level b k).right_idx ≢ null_idx
      → let (b', i) = avl_remove f copy (level copy k).right_idx (level copy succ_of).price in
        avl_remove (suc f) b k price_here ≡ remove_rebalance (set_right b' k i) k
  unfolding avl_remove
  remove-replace some_left some_right =
      let some_slot : (k == null_idx) ≡ false = ground (arith, real) in
      let not_lower : ltb_ℤ (level b k).price (level b k).price ≡ false = ground arith in
      let left : ((level b k).left_idx == null_idx) ≡ false = ground (arith, some_left) in
      let right : ((level b k).right_idx == null_idx) ≡ false = ground (arith, some_right) in
      rw (some_slot, not_lower, left, right) refl

-- A tree that is there has a root.
Shape-real :
    (b : Book) (i : ℕ) (l : Tree) (k : ℕ) (r : Tree) → Shape b i (node l k r) → i ≢ null_idx
unfolding Shape
Shape-real b i l k r (here, real, tall, sl, sr) e = real (sym here ∙ e)

-- The removal of the root of a tree, given the removal in its right subtree.
Removed-root :
    (f : ℕ) (b : Book) (l : Tree) (k : ℕ) (r : Tree)
    → Sorted b (node l k r)
    → IsBalanced (node l k r)
    → Joins b l k r
    → height r ≤ level_slots
    → ((c : Book) (i : ℕ) (p : ℤ) → Shape c i r → Sorted c r → Removed c p r (avl_remove f c i p))
    → Removed b (level b k).price (node l k r) (avl_remove (suc f) b k (level b k).price)
unfolding Shape IsBalanced Sorted
Removed-root f b leaf k r sorted balanced (real, sl, sr) low below =
    subst (Removed b (level b k).price (node leaf k r)) (sym (remove-root_right f b k real sl))
      (Removed-root_right b k (level b k).right_idx r sr balanced.3 sorted)
Removed-root f b (node l1 k1 r1) k leaf sorted balanced (real, sl, sr) low below =
    subst (Removed b (level b k).price (node (node l1 k1 r1) k leaf))
      (sym (remove-root_left f b k real (Shape-real b _ l1 k1 r1 sl) sr))
      (Removed-root_left b k (level b k).left_idx (node l1 k1 r1) sl balanced.2 sorted)
Removed-root f b (node l1 k1 r1) k (node l2 k2 r2) sorted balanced (real, sl, sr) low below =
    let l = node l1 k1 r1 in
    let r = node l2 k2 r2 in
    let joins : Joins b l k r = (real, sl, sr) in
    let s = avl_min level_slots b (level b k).right_idx in
    let (some_slot, has, least) =
      avl_min_lem level_slots b (level b k).right_idx r (Shape-Links b (level b k).right_idx r sr)
        sorted.3 low in
    let v =
      below (copy_level b k s) (level (copy_level b k s) k).right_idx
        (level (copy_level b k s) s).price
        (Shape-copied_right b l k r s sorted balanced joins has least)
        (Sorted-copied_right b l k r s sorted balanced joins has least) in
    subst (Removed b (level b k).price (node l k r))
      (sym (remove-replace f b k real (Shape-real b _ l1 k1 r1 sl) (Shape-real b _ l2 k2 r2 sr)))
      (Removed-replaced b l k r s sorted balanced joins has least _ v)

Removed-from :
    (f : ℕ) (b : Book) (i : ℕ) (t : Tree) (price : ℤ)
    → Shape b i t
    → Sorted b t
    → IsBalanced t
    → height t ≤ f
    → height t ≤ level_slots
    → Removed b price t (avl_remove f b i price)
unfolding Shape Sorted IsBalanced
Removed-from zero b i leaf price shape sorted balanced fuel low =
    subst (Removed b price leaf) (sym (remove-zero b i price)) (Removed-leaf b i price shape)
Removed-from zero b i (node l k r) price shape sorted balanced fuel low =
    absurd (omega (arith, fuel))
Removed-from (suc f) b i leaf price shape sorted balanced fuel low =
    subst (Removed b price leaf) (sym (remove-empty f b i price shape))
      (Removed-leaf b null_idx price refl)
Removed-from (suc f) b i (node l k r) price (here, real, tall, sl, sr) sorted balanced fuel low =
    let left_low : height l ≤ f = ground (arith, fuel) in
    let right_low : height r ≤ f = ground (arith, fuel) in
    let lefts : height l ≤ level_slots = ground (arith, low) in
    let rights : height r ≤ level_slots = ground (arith, low) in
    subst (λ j. Removed b price (node l k r) (avl_remove (suc f) b j price)) (sym here)
      (elim (compare_ℤ price (level b k).price) [
        | inl lower ↦
            subst (Removed b price (node l k r)) (sym (remove-left f b k price real lower)) (
              Removed-left b price l k r _ sorted balanced (real, sl, sr) lower
                (Removed-from f b (level b k).left_idx l price sl sorted.2 balanced.2 left_low
                  lefts))
        | inr (inl higher) ↦
            subst (Removed b price (node l k r)) (sym (remove-right f b k price real higher)) (
              Removed-right b price l k r _ sorted balanced (real, sl, sr) higher
                (Removed-from f b (level b k).right_idx r price sr sorted.3 balanced.3 right_low
                  rights))
        | inr (inr same) ↦
            subst (λ p. Removed b p (node l k r) (avl_remove (suc f) b k p)) (sym same)
              (Removed-root f b l k r sorted balanced (real, sl, sr) rights
                (λ c j p shape order.
                  Removed-from f c j r p shape order balanced.3 right_low rights))
      ])

-- Removing a price from a side leaves a valid tree: where the links and stored heights of at most
-- 512 slots spell out a search tree balanced to within 1, they do so afterwards, the tree being as
-- high or 1 lower; its slots are old ones and hold what the old tree held at other prices, all of
-- that is still held, and no slot outside the old tree changes.
pub avl_remove-Removed :
    (b : Book) (root : ℕ) (t : Tree) (price : ℤ)
    → Shape b root t
    → Sorted b t
    → IsBalanced t
    → size t ≤ 512
    → Removed b price t (avl_remove level_slots b root price)
avl_remove-Removed b root t price shape sorted balanced fits =
    Removed-from level_slots b root t price shape sorted balanced (omega (arith, height-le t, fits))
      (omega (arith, height-le t, fits))
