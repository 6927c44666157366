-- ===== src/Book/Tree/Search.antt =====
-- `avl_find`, `avl_min` and `avl_max` on a search tree.
use profit_playground.Common.{
  ℕ, zero, suc, ◌≡◌, ◌≢◌, ◌⊎◌, ◌≤◌, inl, inr, refl, arith, Bool-cases, true, false, subst, sym,
}
use profit_playground.Common.Int.{ℤ, ◌≤ℤ◌, ltb_ℤ, eq_of_parts}
use profit_playground.Book.State.{Book, level, null_idx}
use profit_playground.Book.Avl.{avl_find, avl_min, avl_max}
use profit_playground.Book.Tree.{
  Tree, leaf, node, height, AllSlots, AllSlots-map, Has, Links, Sorted,
}

-- What a search for a price gives.
abbrev pub Found : Book → Tree → ℤ → ℕ → Type 0
Found b t price i =
    (Has i t × (i ≢ null_idx) × ((level b i).price ≡ price))
    ⊎ ((i ≡ null_idx) × AllSlots (λ j. (level b j).price ≢ price) t)

avl_find-leaf :
    (f : ℕ) (b : Book) (root : ℕ) (price : ℤ) → root ≡ null_idx → avl_find f b root price ≡ null_idx
unfolding avl_find
avl_find-leaf zero b root price h = refl
avl_find-leaf (suc f) b root price h = ground (arith, h)

module _ (f : ℕ) (b : Book) (root : ℕ) (price : ℤ) (some_node : root ≢ null_idx) where
  avl_find-left :
      ltb_ℤ price (level b root).price ≡ true
      → avl_find (suc f) b root price ≡ avl_find f b (level b root).left_idx price
  unfolding avl_find
  avl_find-left lower = ground (arith, some_node, lower)

  avl_find-right :
      ltb_ℤ price (level b root).price ≡ false
      → ltb_ℤ (level b root).price price ≡ true
      → avl_find (suc f) b root price ≡ avl_find f b (level b root).right_idx price
  unfolding avl_find
  avl_find-right not_lower higher = ground (arith, some_node, not_lower, higher)

  avl_find-here :
      ltb_ℤ price (level b root).price ≡ false
      → ltb_ℤ (level b root).price price ≡ false
      → avl_find (suc f) b root price ≡ root
  unfolding avl_find
  avl_find-here not_lower not_higher = ground (arith, some_node, not_lower, not_higher)

pub avl_find_lem :
    (f : ℕ) (b : Book) (root : ℕ) (t : Tree) (price : ℤ)
    → Links b root t
    → Sorted b t
    → height t ≤ f
    → Found b t price (avl_find f b root price)
unfolding Links Sorted AllSlots Has
avl_find_lem f b root leaf price links sorted fuel = inr (avl_find-leaf f b root price links, tt)
avl_find_lem zero b root (node l k r) price links sorted fuel = absurd (omega (arith, fuel))
avl_find_lem (suc f) b root (node l k r) price (here, some_node, left, right) (below, above, sl, sr)
      fuel =
    elim (Bool-cases (ltb_ℤ price (level b root).price)) [
      | inl lower ↦
          subst (Found b (node l k r) price) (sym (avl_find-left f b root price some_node lower))
            (elim (avl_find_lem f b (level b root).left_idx l price left sl
              (ground (arith, fuel))) [
                | inl (has, real, same) ↦ inl (inr (inl has), real, same)
                | inr (none, absent) ↦ inr (
                  none,
                  (
                    (λ e. ground (arith, e, lower, here)),
                    absent,
                    AllSlots-map r (λ j h e. ground (arith, h, e, lower, here)) above,
                  ),
                )
              ])
      | inr not_lower ↦ elim (Bool-cases (ltb_ℤ (level b root).price price)) [
        | inl higher ↦
            subst (Found b (node l k r) price)
              (sym (avl_find-right f b root price some_node not_lower higher))
              (elim (avl_find_lem f b (level b root).right_idx r price right sr
                (ground (arith, fuel))) [
                  | inl (has, real, same) ↦ inl (inr (inr has), real, same)
                  | inr (none, absent) ↦ inr (
                    none,
                    (
                      (λ e. ground (arith, e, higher, here)),
                      AllSlots-map l (λ j h e. ground (arith, h, e, higher, here)) below,
                      absent,
                    ),
                  )
                ])
        | inr not_higher ↦
            subst (Found b (node l k r) price)
              (sym (avl_find-here f b root price some_node not_lower not_higher))
              (inl (inl here, some_node, eq_of_parts _ _ (ground (arith, not_lower, not_higher))))
      ]
    ]

-- The slot has the lowest price of the tree, or the tree is empty.
abbrev pub Lowest : Book → Tree → ℕ → Type 0
Lowest b leaf i = i ≡ null_idx
Lowest b t i = (i ≢ null_idx) × Has i t × AllSlots (λ j. (level b i).price ≤ℤ (level b j).price) t

abbrev pub Highest : Book → Tree → ℕ → Type 0
Highest b leaf i = i ≡ null_idx
Highest b t i = (i ≢ null_idx) × Has i t × AllSlots (λ j. (level b j).price ≤ℤ (level b i).price) t

pub AllSlots-Has : (P : ℕ → Type 0) (t : Tree) (j : ℕ) → AllSlots P t → Has j t → P j
unfolding AllSlots Has
AllSlots-Has P leaf j h m = absurd m
AllSlots-Has P (node l k r) j h (inl at) = subst P (sym at) h.0
AllSlots-Has P (node l k r) j h (inr (inl m)) = AllSlots-Has P l j h.1 m
AllSlots-Has P (node l k r) j h (inr (inr m)) = AllSlots-Has P r j h.2 m

module _ (f : ℕ) (b : Book) (root : ℕ) (some_node : root ≢ null_idx) where
  avl_min-end : (level b root).left_idx ≡ null_idx → avl_min (suc f) b root ≡ root
  unfolding avl_min
  avl_min-end h = ground (arith, some_node, h)

  avl_min-left :
      (level b root).left_idx ≢ null_idx
      → avl_min (suc f) b root ≡ avl_min f b (level b root).left_idx
  unfolding avl_min
  avl_min-left h = ground (arith, some_node, h)

  avl_max-end : (level b root).right_idx ≡ null_idx → avl_max (suc f) b root ≡ root
  unfolding avl_max
  avl_max-end h = ground (arith, some_node, h)

  avl_max-right :
      (level b root).right_idx ≢ null_idx
      → avl_max (suc f) b root ≡ avl_max f b (level b root).right_idx
  unfolding avl_max
  avl_max-right h = ground (arith, some_node, h)

avl_min-leaf : (f : ℕ) (b : Book) (root : ℕ) → root ≡ null_idx → avl_min f b root ≡ null_idx
unfolding avl_min
avl_min-leaf zero b root h = h
avl_min-leaf (suc f) b root h = ground (arith, h)

avl_max-leaf : (f : ℕ) (b : Book) (root : ℕ) → root ≡ null_idx → avl_max f b root ≡ null_idx
unfolding avl_max
avl_max-leaf zero b root h = h
avl_max-leaf (suc f) b root h = ground (arith, h)

pub avl_min_lem :
    (f : ℕ) (b : Book) (root : ℕ) (t : Tree)
    → Links b root t
    → Sorted b t
    → height t ≤ f
    → Lowest b t (avl_min f b root)
unfolding Links Sorted AllSlots Has
avl_min_lem f b root leaf links sorted fuel = avl_min-leaf f b root links
avl_min_lem zero b root (node l k r) links sorted fuel = absurd (omega (arith, fuel))
avl_min_lem (suc f) b root (node leaf k r) (here, some_node, left, right) (below, above, sl, sr)
      fuel =
    subst (Lowest b (node leaf k r)) (sym (avl_min-end f b root some_node left)) (
      some_node,
      inl here,
      (rw here (omega arith), tt, AllSlots-map r (λ j h. rw here (omega (arith, h))) above),
    )
avl_min_lem (suc f) b root (node (node l1 k1 r1) k r) (here, some_node, left, right)
      (below, above, sl, sr) fuel =
    let (real, has, least) =
      avl_min_lem f b (level b root).left_idx (node l1 k1 r1) left sl (ground (arith, fuel)) in
    let under = AllSlots-Has _ (node l1 k1 r1) (avl_min f b (level b root).left_idx) below has in
    subst (Lowest b (node (node l1 k1 r1) k r)) (sym (avl_min-left f b root some_node left.1)) (
      real,
      inr (inl has),
      (omega (arith, under), least, AllSlots-map r (λ j h. omega (arith, h, under)) above),
    )

pub avl_max_lem :
    (f : ℕ) (b : Book) (root : ℕ) (t : Tree)
    → Links b root t
    → Sorted b t
    → height t ≤ f
    → Highest b t (avl_max f b root)
unfolding Links Sorted AllSlots Has
avl_max_lem f b root leaf links sorted fuel = avl_max-leaf f b root links
avl_max_lem zero b root (node l k r) links sorted fuel = absurd (omega (arith, fuel))
avl_max_lem (suc f) b root (node l k leaf) (here, some_node, left, right) (below, above, sl, sr)
      fuel =
    subst (Highest b (node l k leaf)) (sym (avl_max-end f b root some_node right)) (
      some_node,
      inl here,
      (rw here (omega arith), AllSlots-map l (λ j h. rw here (omega (arith, h))) below, tt),
    )
avl_max_lem (suc f) b root (node l k (node l1 k1 r1)) (here, some_node, left, right)
      (below, above, sl, sr) fuel =
    let (real, has, most) =
      avl_max_lem f b (level b root).right_idx (node l1 k1 r1) right sr (ground (arith, fuel)) in
    let over = AllSlots-Has _ (node l1 k1 r1) (avl_max f b (level b root).right_idx) above has in
    subst (Highest b (node l k (node l1 k1 r1))) (sym (avl_max-right f b root some_node right.1)) (
      real,
      inr (inr has),
      (omega (arith, over), AllSlots-map l (λ j h. omega (arith, h, over)) below, most),
    )
