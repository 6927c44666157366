-- ===== src/Book/Avl/Levels.antt =====
-- engine/orderbook.c: `avl_insert`, `avl_remove` and `avl_find` as the operations of a finite map from
-- prices to levels.
use profit_playground.Common.{
  ℕ, ◌≡◌, ◌≢◌, ◌≤◌, ◌<◌, inl, inr, sym, ap, ◌∙◌, subst, arith, Bool-cases, none, some, true, false,
  if◌then◌else◌,
}
use profit_playground.Common.Int.{ℤ, eqb_ℤ, eq_of_parts}
use profit_playground.Book.State.{Book, Level, level, level_slots}
use profit_playground.Book.Avl.{avl_find, avl_insert, avl_remove}
use profit_playground.Book.Tree.{Tree, size, height-le, AllSlots, Sorted}
use profit_playground.Book.Tree.Search.{AllSlots-Has, Found}
use profit_playground.Book.Avl.Shape.{Shape, data_of}
use profit_playground.Book.Avl.Balance.{IsBalanced, Sorted-data}
use profit_playground.Book.Avl.Growth.{IsNew, Inserted, Grown-le}
use profit_playground.Book.Avl.Insert.{avl_insert-Inserted}
use profit_playground.Book.Avl.Removal.{Removed}
use profit_playground.Book.Avl.Remove.{Lowered-ge}
use profit_playground.Book.Avl.Replace.{same_slot}
use profit_playground.Book.Avl.Find.{at_slot, level_at, at_none, at_some, avl_find-Shape}
use profit_playground.Book.Avl.Erase.{avl_remove-Removed}

pub eq_price : (p q : ℤ) → eqb_ℤ p q ≡ true → p ≡ q
eq_price p q h = eq_of_parts p q (ground (arith, h))

pub ne_price : (p q : ℤ) → eqb_ℤ p q ≡ false → p ≢ q
ne_price p q h e = ground (arith, h, e)

price_of :
    (b b' : Book) (i j : ℕ)
    → data_of (level b' j) ≡ data_of (level b i)
    → (level b' j).price ≡ (level b i).price
price_of b b' i j same = ap (λ (lv : Level). lv.price) same

module _ (b : Book) (t : Tree) (price : ℤ) (res : Book × ℕ) (sorted : Sorted b t)
    (v : Removed b price t res) where
  -- The removed price is not found any more.
  removed_absent : (i : ℕ) → Found res.0 v.tree price i → at_slot res.0 i ≡ none
  removed_absent i (inr (missing, absent)) = at_none res.0 i missing
  removed_absent i (inl (has, real, here)) =
      let (k, old, other, same) = AllSlots-Has _ v.tree i v.none_new has in
      absurd (other (sym (price_of b res.0 k i same) ∙ here))

  -- Another price is found as before.
  removed_other :
      (q : ℤ) (i k : ℕ)
      → q ≢ price
      → Found res.0 v.tree q i
      → Found b t q k
      → at_slot res.0 i ≡ at_slot b k
  removed_other q i k other (inr (missing, absent)) (inr (missing', absent')) =
      at_none res.0 i missing ∙ sym (at_none b k missing')
  removed_other q i k other (inl (has, real, here)) (inr (missing', absent')) =
      let (j, old, apart, same) = AllSlots-Has _ v.tree i v.none_new has in
      absurd (AllSlots-Has _ t j absent' old (sym (price_of b res.0 j i same) ∙ here))
  removed_other q i k other (inr (missing, absent)) (inl (has', real', here')) =
      elim (AllSlots-Has _ t k v.none_lost has') [
        | inl gone ↦ absurd (other (sym here' ∙ gone))
        | inr (j, has, same) ↦
            absurd (AllSlots-Has _ v.tree j absent has (price_of b res.0 k j same ∙ here'))
      ]
  removed_other q i k other (inl (has, real, here)) (inl (has', real', here')) =
      let (j, old, apart, same) = AllSlots-Has _ v.tree i v.none_new has in
      let one : j ≡ k =
        same_slot b t j k sorted old has' (sym (price_of b res.0 j i same) ∙ here ∙ sym here') in
      at_some res.0 i real
      ∙ ap some (same ∙ ap (λ x. data_of (level b x)) one)
      ∙ sym (at_some b k real')

-- Removing a price is removing it from the finite map of levels: where the links and stored
-- heights of at most 512 slots spell out a search tree balanced to within 1, after the removal of
-- a price the search finds nothing at that price, and at every other price a level with the same
-- data as before, or nothing where there was none.
pub level_at-avl_remove :
    (b : Book) (root : ℕ) (t : Tree) (price q : ℤ)
    → Shape b root t
    → Sorted b t
    → IsBalanced t
    → size t ≤ 512
    → let (b', root') = avl_remove level_slots b root price in
      level_at b' root' q ≡ (if eqb_ℤ q price then none else level_at b root q)
unfolding level_at
level_at-avl_remove b root t price q shape sorted balanced fits =
    let v = avl_remove-Removed b root t price shape sorted balanced fits in
    let res = avl_remove level_slots b root price in
    let low = Lowered-ge t v.tree v.lowered in
    let after : Found res.0 v.tree q (avl_find level_slots res.0 res.1 q) =
      avl_find-Shape res.0 res.1 v.tree q v.shape v.sorted
        (omega (arith, low.0, height-le t, fits)) in
    let before : Found b t q (avl_find level_slots b root q) =
      avl_find-Shape b root t q shape sorted (omega (arith, height-le t, fits)) in
    elim (Bool-cases (eqb_ℤ q price)) [
      | inl same ↦ rw same (
          removed_absent b t price res sorted v _ (
            subst (λ p. Found res.0 v.tree p (avl_find level_slots res.0 res.1 q))
              (eq_price q price same) after))
      | inr other ↦
          rw other
            (removed_other b t price res sorted v q _ _ (ne_price q price other) after before)
    ]

module _ (b : Book) (n : ℕ) (t : Tree) (res : Book × ℕ) (v : Inserted b n t res) where
  pub inserted_slot : (i : ℕ) → Found res.0 v.tree (level b n).price i → i ≡ n
  inserted_slot i (inr (missing, absent)) =
      absurd (AllSlots-Has _ v.tree n absent v.joined (price_of b res.0 n n (v.data_kept n)))
  inserted_slot i (inl (has, real, here)) =
      same_slot b v.tree i n v.sorted has v.joined
        (sym (price_of b res.0 i i (v.data_kept i)) ∙ here)

  pub inserted_find :
      size t < 512 → (q : ℤ) → Found res.0 v.tree q (avl_find level_slots res.0 res.1 q)
  inserted_find fits q =
      avl_find-Shape res.0 res.1 v.tree q v.shape (Sorted-data b res.0 v.tree v.data_kept v.sorted)
        (omega (arith, Grown-le b (level b n).price t v.tree v.grown, height-le t, fits))

  -- Another price is found as before.
  pub inserted_other :
      (q : ℤ) (i k : ℕ)
      → q ≢ (level b n).price
      → Found res.0 v.tree q i
      → Found b t q k
      → at_slot res.0 i ≡ at_slot b k
  inserted_other q i k other (inr (missing, absent)) (inr (missing', absent')) =
      at_none res.0 i missing ∙ sym (at_none b k missing')
  inserted_other q i k other (inl (has, real, here)) (inr (missing', absent')) =
      let price : (level b i).price ≡ q = sym (price_of b res.0 i i (v.data_kept i)) ∙ here in
      elim (AllSlots-Has _ v.tree i v.none_new has) [
        | inl new ↦ absurd (other (sym price ∙ ap (λ x. (level b x).price) new))
        | inr old ↦ absurd (AllSlots-Has _ t i absent' old price)
      ]
  inserted_other q i k other (inr (missing, absent)) (inl (has', real', here')) = absurd (
      AllSlots-Has _ v.tree k absent (AllSlots-Has _ t k v.none_lost has')
        (price_of b res.0 k k (v.data_kept k) ∙ here'))
  inserted_other q i k other (inl (has, real, here)) (inl (has', real', here')) =
      let one : i ≡ k =
        same_slot b v.tree i k v.sorted has (AllSlots-Has _ t k v.none_lost has')
          (sym (price_of b res.0 i i (v.data_kept i)) ∙ here ∙ sym here') in
      at_some res.0 i real
      ∙ ap some (v.data_kept i ∙ ap (λ x. data_of (level b x)) one)
      ∙ sym (at_some b k real')

-- Inserting a level is adding it to the finite map of levels: where the links and stored heights
-- of fewer than 512 slots spell out a search tree balanced to within 1, and a new slot of height 1
-- without children has a price that none of them has, the search finds the data of the new slot at
-- its price afterwards, and at every other price a level with the same data as before, or nothing
-- where there was none.
pub level_at-avl_insert :
    (b : Book) (root n : ℕ) (t : Tree) (q : ℤ)
    → IsNew b n
    → Shape b root t
    → Sorted b t
    → IsBalanced t
    → AllSlots (λ j. (level b j).price ≢ (level b n).price) t
    → size t < 512
    → let (b', root') = avl_insert level_slots b root n in
      level_at b' root' q
      ≡ (if eqb_ℤ q (level b n).price then some (data_of (level b n)) else level_at b root q)
unfolding level_at
level_at-avl_insert b root n t q new shape sorted balanced apart fits =
    let res = avl_insert level_slots b root n in
    let v = avl_insert-Inserted b root n t new shape sorted balanced apart fits in
    let after = inserted_find b n t res v fits q in
    let before = avl_find-Shape b root t q shape sorted (omega (arith, height-le t, fits)) in
    elim (Bool-cases (eqb_ℤ q (level b n).price)) [
      | inl same ↦
          let one : avl_find level_slots res.0 res.1 q ≡ n = inserted_slot b n t res v _ (
            subst (λ p. Found res.0 v.tree p (avl_find level_slots res.0 res.1 q))
              (eq_price q (level b n).price same) after) in
          rw same (ap (at_slot res.0) one ∙ at_some res.0 n new.real ∙ ap some (v.data_kept n))
      | inr other ↦
          rw other
            (inserted_other b n t res v q _ _ (ne_price q (level b n).price other) after before)
    ]
