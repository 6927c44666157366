-- ===== src/Book/Matching/Empty.antt =====
-- engine/orderbook.c, `match_against_side`: a level without orders leaves the tree of its side.
use profit_playground.Common.{
  ℕ, Bool, ◌&&◌, ◌≡◌, ◌≤◌, inl, inr, refl, sym, ap, ◌∙◌, subst, arith, Bool-cases, none,
  if◌then◌else◌, ◌==◌,
}
use profit_playground.Common.Int.{ℤ, eqb_ℤ}
use profit_playground.Common.Words.{sub32}
use profit_playground.Book.State.{Book, Side, SideState, side_of, set_side, level, level_slots}
use profit_playground.Book.Avl.{avl_remove}
use profit_playground.Book.Matching.{drop_empty}
use profit_playground.Book.Tree.{Tree, size, height, height-le, Sorted}
use profit_playground.Book.Avl.Shape.{Shape, Shape-frame, AllSlots-all, Unchanged, data_of}
use profit_playground.Book.Avl.Balance.{IsBalanced, Sorted-data}
use profit_playground.Book.Avl.Remove.{Lowered-ge}
use profit_playground.Book.Avl.Erase.{avl_remove-Removed}
use profit_playground.Book.Avl.Find.{
  level_at, avl_find-Shape, same_found, Found-frame, at_slot-frame, at_slot,
}
use profit_playground.Book.Avl.Levels.{level_at-avl_remove}
use profit_playground.Book.Manage.Slots.{side_of-set_side, level-set_side}

-- The side of a book is a tree whose levels are these.
pub record Dropped (b : Book) (side : Side) (empty : Bool) (price : ℤ) (b' : Book) : Type 0 where
  pub tree : Tree
  pub shape : Shape b' (side_of b' side).root_idx tree
  pub sorted : Sorted b' tree
  pub balanced : IsBalanced tree
  pub levels :
      (q : ℤ)
      → level_at b' (side_of b' side).root_idx q
        ≡ (if empty && eqb_ℤ q price then none else level_at b (side_of b side).root_idx q)

-- The write of a side leaves what is found at a price.
level_at-set_side :
    (b : Book) (side : Side) (v : SideState) (root : ℕ) (t : Tree) (q : ℤ)
    → Shape b root t
    → Sorted b t
    → height t ≤ 512
    → level_at (set_side b side v) root q ≡ level_at b root q
unfolding level_at
level_at-set_side b side v root t q shape sorted high =
    let b' = set_side b side v in
    let u : Unchanged b b' t = AllSlots-all t (level-set_side b side v) in
    let sorted' = Sorted-data b b' t (λ j. ap data_of (level-set_side b side v j)) sorted in
    let found = avl_find-Shape b root t q shape sorted high in
    ap (at_slot b') (
      same_found b' t q _ _ sorted'
        (avl_find-Shape b' root t q (Shape-frame b b' root t u shape) sorted' high)
        (Found-frame b b' t u q _ found))
    ∙ at_slot-frame b b' t u q _ found

-- After a level is served, its side is a search tree balanced to within 1 whose stored heights are
-- right, where it was one of at most 512 slots: a level whose order count is 0 is not found any
-- more, and every other price, and every price where the count is not 0, has what it had.
pub drop_empty-Dropped :
    (b : Book) (side : Side) (li : ℕ) (t : Tree)
    → Shape b (side_of b side).root_idx t
    → Sorted b t
    → IsBalanced t
    → size t ≤ 512
    → Dropped b side ((level b li).order_count == 0) (level b li).price (drop_empty b side li)
unfolding drop_empty
drop_empty-Dropped b side li t shape sorted balanced fits =
    let price = (level b li).price in
    let root = (side_of b side).root_idx in
    let res = avl_remove level_slots b root price in
    let v = avl_remove-Removed b root t price shape sorted balanced fits in
    let side' : SideState = record (side_of res.0 side) {
      root_idx = res.1;
      level_count = sub32 (side_of res.0 side).level_count 1;
    } in
    let b' = set_side res.0 side side' in
    let low = Lowered-ge t v.tree v.lowered in
    let at_root : (side_of b' side).root_idx ≡ res.1 =
      ap (λ (s : SideState). s.root_idx) (side_of-set_side res.0 side side') in
    elim (Bool-cases ((level b li).order_count == 0)) [
      | inr some_left ↦ rw some_left (record {
        tree = t;
        shape = shape;
        sorted = sorted;
        balanced = balanced;
        levels = λ q. refl;
      })
      | inl none_left ↦ rw none_left (record {
        tree = v.tree;
        shape =
            subst (λ r. Shape b' r v.tree) (sym at_root)
              (Shape-frame res.0 b' res.1 v.tree
                (AllSlots-all v.tree (level-set_side res.0 side side')) v.shape);
        sorted =
            Sorted-data res.0 b' v.tree (λ j. ap data_of (level-set_side res.0 side side' j))
              v.sorted;
        balanced = v.balanced;
        levels = λ q.
            ap (λ r. level_at b' r q) at_root
            ∙ level_at-set_side res.0 side side' res.1 v.tree q v.shape v.sorted
                (omega (arith, low.0, height-le t, fits))
            ∙ level_at-avl_remove b root t price q shape sorted balanced fits;
      })
    ]
