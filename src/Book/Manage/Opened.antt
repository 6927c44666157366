-- ===== src/Book/Manage/Opened.antt =====
-- engine/orderbook.c: what finding or opening the level of a price comes to.
use profit_playground.Common.{
  ℕ, ◌≡◌, ◌≢◌, ◌≤◌, ◌<◌, ◌⊎◌, inl, inr, sym, ap, ◌∙◌, subst, arith, Bool-cases, none, some,
  if◌then◌else◌,
}
use profit_playground.Common.Int.{ℤ, eqb_ℤ}
use profit_playground.Book.State.{Book, Side, side_of, null_idx, level_slots, max_levels}
use profit_playground.Book.Avl.{avl_find}
use profit_playground.Book.Tree.{Tree, size, height-le, AllSlots-map, Sorted}
use profit_playground.Book.Tree.Search.{Found}
use profit_playground.Book.Avl.Shape.{Shape, Shape-frame, Unchanged, data_of}
use profit_playground.Book.Avl.Balance.{IsBalanced}
use profit_playground.Book.Avl.Removal.{Sorted-frame}
use profit_playground.Book.Avl.Find.{
  at_slot, level_at, avl_find-Shape, same_found, Found-frame, at_slot-frame,
}
use profit_playground.Book.Avl.Levels.{eq_price}
use profit_playground.Book.Manage.Slots.{root_of, next_slot, new_level}

-- The level was there, or it is new and empty, or the side or the pool has no room for one.
abbrev pub Outcome : Book → Side → ℤ → Book × ℕ → Type 0
Outcome b side price (b', li) =
    let old = level_at b (side_of b side).root_idx price in
    ((li ≢ null_idx) × (at_slot b' li ≡ old))
    ⊎ ((old ≡ none) × (at_slot b' li ≡ some (data_of (new_level price))))
    ⊎ ((old ≡ none)
        × (li ≡ null_idx)
        × ((max_levels ≤ (side_of b side).level_count) ⊎ (next_slot b ≡ null_idx)))

-- What looking for the level of a price on a side comes to, where it is opened if it is missing.
pub record Opened (b : Book) (side : Side) (price : ℤ) (res : Book × ℕ) : Type 0 where
  pub tree : Tree
  pub shape : Shape res.0 (side_of res.0 side).root_idx tree
  pub sorted : Sorted res.0 tree
  pub balanced : IsBalanced tree
  pub found : avl_find level_slots res.0 (side_of res.0 side).root_idx price ≡ res.1
  pub levels :
      (q : ℤ)
      → level_at res.0 (side_of res.0 side).root_idx q
        ≡ (if eqb_ℤ q price then at_slot res.0 res.1 else level_at b (side_of b side).root_idx q)
  pub outcome : Outcome b side price res

module _ (b : Book) (side : Side) (price : ℤ) (t : Tree) (shape : Shape b (root_of b side) t)
    (sorted : Sorted b t) (balanced : IsBalanced t) (fits : size t < 512) where
  pub before : (q : ℤ) → Found b t q (avl_find level_slots b (root_of b side) q)
  before q = avl_find-Shape b (root_of b side) t q shape sorted (omega (arith, height-le t, fits))

  -- A book with the same tree, where the level is not opened.
  pub Opened-unopened :
      (b' : Book) (i : ℕ)
      → Unchanged b b' t
      → root_of b' side ≡ root_of b side
      → avl_find level_slots b (root_of b side) price ≡ i
      → Outcome b side price (b', i)
      → Opened b side price (b', i)
  unfolding level_at
  Opened-unopened b' i u same here why =
      let shape' : Shape b' (root_of b' side) t =
        subst (λ r. Shape b' r t) (sym same) (Shape-frame b b' (root_of b side) t u shape) in
      let sorted' = Sorted-frame b b' t (AllSlots-map t (λ j eq. ap data_of eq) u) sorted in
      let finds : (q : ℤ)
          → avl_find level_slots b' (root_of b' side) q
            ≡ avl_find level_slots b (root_of b side) q =
        λ q.
          same_found b' t q _ _ sorted'
            (avl_find-Shape b' (root_of b' side) t q shape' sorted'
              (omega (arith, height-le t, fits)))
            (Found-frame b b' t u q _ (before q)) in
      record {
        tree = t;
        shape = shape';
        sorted = sorted';
        balanced = balanced;
        found = finds price ∙ here;
        levels = λ q. elim (Bool-cases (eqb_ℤ q price)) [
          | inl eq ↦ rw eq (
              ap (at_slot b') (
                finds q
                ∙ ap (avl_find level_slots b (root_of b side)) (eq_price q price eq)
                ∙ here))
          | inr ne ↦ rw ne (ap (at_slot b') (finds q) ∙ at_slot-frame b b' t u q _ (before q))
        ];
        outcome = why;
      }
