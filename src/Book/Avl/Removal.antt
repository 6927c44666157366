-- ===== src/Book/Avl/Removal.antt =====
-- engine/orderbook.c, `avl_remove`: what a removal makes of a tree.
use native.Mathlib.Decide.{dec_lt}
use profit_playground.Common.{ℕ, suc, ◌≡◌, ◌≢◌, ◌≤◌, ◌⊎◌, inl, inr, refl, ap, ◌∙◌, arith}
use profit_playground.Common.Int.{ℤ}
use profit_playground.Book.State.{Book, Level, level, null_idx}
use profit_playground.Book.Avl.{remove_rebalance}
use profit_playground.Book.Tree.{Tree, leaf, node, height, AllSlots, AllSlots-map, Has, Sorted}
use profit_playground.Book.Tree.Search.{AllSlots-Has}
use profit_playground.Book.Avl.Shape.{Shape, Fresh, data_of, AllSlots-zip}
use profit_playground.Book.Avl.Turn.{AllSlots-within}
use profit_playground.Book.Avl.Balance.{IsBalanced, Sorted-data}
use profit_playground.Book.Avl.Shrink.{Reshrunk}

-- Slot `j` holds now what a slot of the old tree held, at another price than the removed one.
abbrev pub Old : Book → ℤ → Tree → Book → ℕ → Type 0
Old b price t b' j =
    (i : ℕ) × Has i t × ((level b i).price ≢ price) × (data_of (level b' j) ≡ data_of (level b i))

-- What slot `i` held is at the removed price, or some slot of the new tree holds it.
abbrev pub Kept : Book → ℤ → Tree → Book → ℕ → Type 0
Kept b price t' b' i =
    ((level b i).price ≡ price)
    ⊎ ((j : ℕ) × Has j t' × (data_of (level b' j) ≡ data_of (level b i)))

-- The tree is as high as before, or by 1 lower.
abbrev pub Lowered : Tree → Tree → Type 0
Lowered t t' = (height t' ≡ height t) ⊎ (height t ≡ suc (height t'))

-- What a removal of a price makes of a tree: a balanced search tree within the old slots, which hold
-- what the old tree held at the other prices.
pub record Removed (b : Book) (price : ℤ) (t : Tree) (res : Book × ℕ) : Type 0 where
  pub tree : Tree
  pub shape : Shape res.0 res.1 tree
  pub sorted : Sorted res.0 tree
  pub balanced : IsBalanced tree
  pub none_new : AllSlots (Old b price t res.0) tree
  pub none_lost : AllSlots (Kept b price tree res.0) t
  pub within : AllSlots (λ j. Has j t) tree
  pub outside : (j : ℕ) → Fresh j t → level res.0 j ≡ level b j
  pub lowered : Lowered t tree

pub Removed-leaf : (b : Book) (i : ℕ) (price : ℤ) → i ≡ null_idx → Removed b price leaf (b, i)
unfolding Shape Sorted AllSlots IsBalanced
Removed-leaf b i price none_here = record {
  tree = leaf;
  shape = none_here;
  sorted = tt;
  balanced = tt;
  none_new = tt;
  none_lost = tt;
  within = tt;
  outside = λ j fresh. refl;
  lowered = inl refl;
}

-- A search tree stays one where its slots keep their data.
pub Sorted-frame :
    (b b' : Book) (t : Tree)
    → AllSlots (λ j. data_of (level b' j) ≡ data_of (level b j)) t
    → Sorted b t
    → Sorted b' t
unfolding Sorted AllSlots
Sorted-frame b b' leaf same s = tt
Sorted-frame b b' (node l k r) (here, ul, ur) (below, above, sl, sr) =
    let price : (level b' k).price ≡ (level b k).price = ap (λ lv. lv.price) here in
    (
      AllSlots-zip l
          (λ j e h.
            let here : (level b' j).price ≡ (level b j).price = ap (λ (lv : Level). lv.price) e in
            rw (here, price) h)
          ul below,
      AllSlots-zip r
          (λ j e h.
            let here : (level b' j).price ≡ (level b j).price = ap (λ (lv : Level). lv.price) e in
            rw (here, price) h)
          ur above,
      Sorted-frame b b' l ul sl,
      Sorted-frame b b' r ur sr,
    )

-- The heights after the left or the right part has become lower and the whole is balanced.
pub Lowered-left :
    (l l' : Tree) (k : ℕ) (r t' : Tree)
    → IsBalanced (node l k r)
    → Lowered l l'
    → (height l' ≤ suc (height r) → height r ≤ suc (height l') → t' ≡ node l' k r)
    → (height r ≡ suc (suc (height l')) → (height t' ≡ height r) ⊎ (height t' ≡ suc (height r)))
    → Lowered (node l k r) t'
unfolding IsBalanced
Lowered-left l l' k r t' (p, q, bl, br) (inl same) even high =
    inl (ap height (even (omega (arith, same, p)) (omega (arith, same, q))) ∙ ground (arith, same))
Lowered-left l l' k r t' (p, q, bl, br) (inr less) even high =
    elim (dec_lt (suc (height l')) (height r)) [
      | yes over ↦ elim (high (omega (arith, over, less, q))) [
        | inl e ↦ inr (ground (arith, e, over, less, q))
        | inr e ↦ inl (ground (arith, e, over, less, q))
      ]
      | no within ↦
          let same = ap height (even (omega (arith, less, p)) (omega (arith, within))) in
          elim (dec_lt (height r) (height l)) [
            | yes higher ↦ inr (ground (arith, same, higher, less, p))
            | no not_higher ↦ inl (ground (arith, same, not_higher, less))
          ]
    ]

pub Lowered-right :
    (l : Tree) (k : ℕ) (r r' t' : Tree)
    → IsBalanced (node l k r)
    → Lowered r r'
    → (height l ≤ suc (height r') → height r' ≤ suc (height l) → t' ≡ node l k r')
    → (height l ≡ suc (suc (height r')) → (height t' ≡ height l) ⊎ (height t' ≡ suc (height l)))
    → Lowered (node l k r) t'
unfolding IsBalanced
Lowered-right l k r r' t' (p, q, bl, br) (inl same) even high =
    inl (ap height (even (omega (arith, same, p)) (omega (arith, same, q))) ∙ ground (arith, same))
Lowered-right l k r r' t' (p, q, bl, br) (inr less) even high =
    elim (dec_lt (suc (height r')) (height l)) [
      | yes over ↦ elim (high (omega (arith, over, less, p))) [
        | inl e ↦ inr (ground (arith, e, over, less, p))
        | inr e ↦ inl (ground (arith, e, over, less, p))
      ]
      | no within ↦
          let same = ap height (even (omega (arith, within)) (omega (arith, less, q))) in
          elim (dec_lt (height l) (height r)) [
            | yes higher ↦ inr (ground (arith, same, higher, less, q))
            | no not_higher ↦ inl (ground (arith, same, not_higher, less))
          ]
    ]

-- The last step: the book `put` has the changed subtree in place, and is balanced at `k`.
module _ (b : Book) (price : ℤ) (t : Tree) (put : Book) (l : Tree) (k : ℕ) (r : Tree)
    (g : Reshrunk put l k r (remove_rebalance put k)) where
  pub Removed-last :
      AllSlots (Old b price t put) (node l k r)
      → AllSlots (Kept b price (node l k r) put) t
      → AllSlots (λ j. Has j t) (node l k r)
      → ((j : ℕ) → Fresh j t → level put j ≡ level b j)
      → Lowered t g.tree
      → Removed b price t (remove_rebalance put k)
  Removed-last old kept within outside lowered =
      let whole = node l k r in
      let moves = g.tended.becomes.moves in
      let slots = g.tended.same_slots in
      record {
        tree = g.tree;
        shape = g.tended.becomes.shape;
        sorted =
            Sorted-data put (remove_rebalance put k).0 g.tree moves.data_kept g.tended.still_sorted;
        balanced = g.balanced;
        none_new =
            AllSlots-map g.tree
              (λ j (i, has, other, same). (i, has, other, moves.data_kept j ∙ same))
              (AllSlots-within (Old b price t put) whole g.tree slots.none_new old);
        none_lost =
            AllSlots-map t
              (λ i m. elim m [
                | inl gone ↦ inl gone
                | inr (j, has, same) ↦ inr (
                  j,
                  AllSlots-Has (λ x. Has x g.tree) whole j slots.none_lost has,
                  moves.data_kept j ∙ same,
                )
              ])
              kept;
        within = AllSlots-within (λ j. Has j t) whole g.tree slots.none_new within;
        outside = λ j fresh.
            moves.outside j (AllSlots-within (λ i. i ≢ j) t whole within fresh) ∙ outside j fresh;
        lowered = lowered;
      }
