-- ===== src/Book/Manage/Opening.antt =====
-- engine/orderbook.c, `ob_add_order` and `ob_modify_order`: the level of a price is found, or opened
-- with a slot of the pool.
use profit_playground.Common.{
  ◌≡◌, ◌≢◌, ◌≤◌, ◌<◌, inl, inr, refl, sym, ap, subst, arith, Bool-cases, ◌==◌, leb,
}
use profit_playground.Common.Int.{ℤ}
use profit_playground.Book.State.{Book, Side, SideState, side_of, null_idx, level_slots, max_levels}
use profit_playground.Book.Pool.{level_pool_alloc}
use profit_playground.Book.Avl.{avl_find}
use profit_playground.Book.Manage.{find_or_open, open_level}
use profit_playground.Book.Tree.{Tree, size, Sorted}
use profit_playground.Book.Avl.Shape.{Shape, Fresh, AllSlots-all}
use profit_playground.Book.Avl.Balance.{IsBalanced}
use profit_playground.Book.Avl.Find.{level_at, at_none}
use profit_playground.Book.Manage.Slots.{
  root_of, next_slot, level-alloc, side_of-alloc, open_level-linked, open_level-full,
  open_level-none,
}
use profit_playground.Book.Manage.Opened.{Opened, Opened-unopened}
use profit_playground.Book.Manage.Linking.{Opened-linked}

module _ (b : Book) (side : Side) (price : ℤ) (t : Tree) (shape : Shape b (root_of b side) t)
    (sorted : Sorted b t) (balanced : IsBalanced t) (fits : size t < 512) where
  Opened-open_level :
      Fresh (next_slot b) t
      → avl_find level_slots b (root_of b side) price ≡ null_idx
      → Opened b side price (open_level b side price)
  unfolding level_at
  Opened-open_level fresh missing =
      let old = at_none b _ missing in
      elim (Bool-cases (leb max_levels (side_of b side).level_count)) [
        | inl many ↦
            let full : max_levels ≤ (side_of b side).level_count = ground (arith, many) in
            subst (Opened b side price) (sym (open_level-full b side price full)) (
              Opened-unopened b side price t shape sorted balanced fits b null_idx
                (AllSlots-all t (λ j. refl)) refl missing (inr (inr (old, refl, inl full))))
        | inr few ↦
            let room : (side_of b side).level_count < max_levels = ground (arith, few) in
            elim (Bool-cases (next_slot b == null_idx)) [
              | inl slot ↦
                  let none_left : next_slot b ≡ null_idx = ground (arith, slot) in
                  subst (Opened b side price) (sym (open_level-none b side price room none_left)) (
                    Opened-unopened b side price t shape sorted balanced fits (level_pool_alloc b).0
                      null_idx (AllSlots-all t (level-alloc b))
                      (ap (λ (s : SideState). s.root_idx) (side_of-alloc b side)) missing
                      (inr (inr (old, refl, inr none_left))))
              | inr slot ↦
                  let real : next_slot b ≢ null_idx = ground (arith, slot) in
                  subst (Opened b side price) (sym (open_level-linked b side price room real))
                    (Opened-linked b side price t shape sorted balanced fits fresh real missing)
            ]
      ]

  -- Looking for the level of a price on a side whose links and stored heights of fewer than 512
  -- slots spell out a search tree balanced to within 1, with the next free slot not in that tree,
  -- leaves such a tree and gives the slot that a search for the price finds from then on; every
  -- other price has what it had. The level of the price is the one that was there, or a new and
  -- empty one, or there is none because the side has its 256 levels or the pool has no slot.
  pub find_or_open-Opened : Fresh (next_slot b) t → Opened b side price (find_or_open b side price)
  unfolding find_or_open level_at
  find_or_open-Opened fresh =
      let li = avl_find level_slots b (root_of b side) price in
      elim (Bool-cases (li == null_idx)) [
        | inr slot ↦ rw slot (
            Opened-unopened b side price t shape sorted balanced fits b li
              (AllSlots-all t (λ j. refl)) refl refl (inl (ground (arith, slot), refl)))
        | inl slot ↦ rw slot (Opened-open_level fresh (ground (arith, slot)))
      ]
