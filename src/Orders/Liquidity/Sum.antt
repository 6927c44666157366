-- ===== src/Orders/Liquidity/Sum.antt =====
-- The fill-or-kill check against the whole of the crossing liquidity.
use profit_playground.Common.{
  ℕ, zero, suc, ◌+◌, ◌^◌, ◌≡◌, ◌⊎◌, ◌≤◌, ◌<◌, inl, inr, refl, arith, Bool, Bool-cases, leb,
}
use profit_playground.Common.Int.{ℤ, ltb_ℤ, leb_ℤ}
use profit_playground.Common.Words.{add64}
use profit_playground.Book.State.{Book, Side, level, null_idx, level_slots, side_of, opposite}
use profit_playground.Book.Tree.{
  Tree, leaf, node, height, height-le, AllSlots-map, Links, Sorted, IsTree,
}
use profit_playground.Book.Tree.Sums.{total, total-none}
use profit_playground.Orders.Liquidity.{fok_sum_asc, fok_sum_desc, fok_check}

-- The prices of the other side that cross a limit.
abbrev pub crossing : Side → ℤ → ℤ → Bool
crossing Side.bid limit price = leb_ℤ price limit
crossing _ limit price = leb_ℤ limit price

-- The walk stops early only where it has enough.
abbrev Walked : ℕ → ℕ → ℕ → Type 0
Walked need sum r = (r ≡ sum) ⊎ ((need ≤ r) × (r ≤ sum))

fok_sum_asc-leaf :
    (f : ℕ) (b : Book) (i : ℕ) (limit : ℤ) (need accum : ℕ)
    → i ≡ null_idx
    → fok_sum_asc f b i limit need accum ≡ accum
unfolding fok_sum_asc
fok_sum_asc-leaf zero b i limit need accum h = refl
fok_sum_asc-leaf (suc f) b i limit need accum h = ground (arith, h)

fok_sum_asc_lem :
    (f : ℕ) (b : Book) (i : ℕ) (t : Tree) (limit : ℤ) (need accum : ℕ)
    → Links b i t
    → Sorted b t
    → height t ≤ f
    → accum + total (crossing Side.bid limit) b t < 2 ^ 64
    → Walked need (accum + total (crossing Side.bid limit) b t) (fok_sum_asc f b i limit need accum)
unfolding Links Sorted total fok_sum_asc
fok_sum_asc_lem f b i leaf limit need accum links sorted fuel small =
    inl (rw (fok_sum_asc-leaf f b i limit need accum links) (omega arith))
fok_sum_asc_lem zero b i (node l k r) limit need accum links sorted fuel small =
    absurd (omega (arith, fuel))
fok_sum_asc_lem (suc f) b i (node l k r) limit need accum (here, some_node, left, right)
      (below, above, sl, sr) fuel small =
    elim (Bool-cases (ltb_ℤ limit (level b k).price)) [
      | inl beyond ↦
          let none_right : total (crossing Side.bid limit) b r ≡ 0 =
            total-none (crossing Side.bid limit) b r
              (AllSlots-map r (λ j h. ground (arith, h, beyond)) above) in
          ground (
            arith,
            beyond,
            none_right,
            here,
            some_node,
            small,
            fok_sum_asc_lem f b (level b i).left_idx l limit need accum left sl
                (ground (arith, fuel)) (omega (arith, small)),
          )
      | inr crosses ↦
          let lsum = fok_sum_asc f b (level b i).left_idx limit need accum in
          let own = add64 lsum (level b i).total_qty in
          ground (
            arith,
            crosses,
            here,
            some_node,
            small,
            fok_sum_asc_lem f b (level b i).left_idx l limit need accum left sl
                (ground (arith, fuel)) (omega (arith, small)),
            fok_sum_asc_lem f b (level b i).right_idx r limit need own right sr
                (ground (arith, fuel)),
          )
    ]

fok_sum_desc-leaf :
    (f : ℕ) (b : Book) (i : ℕ) (limit : ℤ) (need accum : ℕ)
    → i ≡ null_idx
    → fok_sum_desc f b i limit need accum ≡ accum
unfolding fok_sum_desc
fok_sum_desc-leaf zero b i limit need accum h = refl
fok_sum_desc-leaf (suc f) b i limit need accum h = ground (arith, h)

fok_sum_desc_lem :
    (f : ℕ) (b : Book) (i : ℕ) (t : Tree) (limit : ℤ) (need accum : ℕ)
    → Links b i t
    → Sorted b t
    → height t ≤ f
    → accum + total (crossing Side.ask limit) b t < 2 ^ 64
    → Walked need
        (accum + total (crossing Side.ask limit) b t)
        (fok_sum_desc f b i limit need accum)
unfolding Links Sorted total fok_sum_desc
fok_sum_desc_lem f b i leaf limit need accum links sorted fuel small =
    inl (rw (fok_sum_desc-leaf f b i limit need accum links) (omega arith))
fok_sum_desc_lem zero b i (node l k r) limit need accum links sorted fuel small =
    absurd (omega (arith, fuel))
fok_sum_desc_lem (suc f) b i (node l k r) limit need accum (here, some_node, left, right)
      (below, above, sl, sr) fuel small =
    elim (Bool-cases (ltb_ℤ (level b k).price limit)) [
      | inl beyond ↦
          let none_left : total (crossing Side.ask limit) b l ≡ 0 =
            total-none (crossing Side.ask limit) b l
              (AllSlots-map l (λ j h. ground (arith, h, beyond)) below) in
          ground (
            arith,
            beyond,
            none_left,
            here,
            some_node,
            small,
            fok_sum_desc_lem f b (level b i).right_idx r limit need accum right sr
                (ground (arith, fuel)) (omega (arith, small)),
          )
      | inr crosses ↦
          let rsum = fok_sum_desc f b (level b i).right_idx limit need accum in
          let own = add64 rsum (level b i).total_qty in
          ground (
            arith,
            crosses,
            here,
            some_node,
            small,
            fok_sum_desc_lem f b (level b i).right_idx r limit need accum right sr
                (ground (arith, fuel)) (omega (arith, small)),
            fok_sum_desc_lem f b (level b i).left_idx l limit need own left sl
                (ground (arith, fuel)),
          )
    ]

crossing-count :
    (limit : ℤ) (b : Book) (t : Tree)
    → total (crossing Side.count limit) b t ≡ total (crossing Side.ask limit) b t
crossing-count limit b t = refl

-- With the other side of the book a search tree that fits the level pool, of less than 2^64
-- crossing liquidity, the pruned walk of the fill-or-kill check answers whether the whole of the
-- crossing liquidity is at least the quantity.
pub fok_check_lem :
    (b : Book) (side : Side) (price : ℤ) (qty : ℕ) (t : Tree)
    → IsTree b (side_of b (opposite side)).root_idx t
    → total (crossing side price) b t < 2 ^ 64
    → fok_check b side price qty ≡ leb qty (total (crossing side price) b t)
unfolding fok_check
fok_check_lem b Side.bid price qty t v small = ground (
  arith,
  fok_sum_asc_lem level_slots b b.asks.root_idx t price qty 0 v.links v.sorted
      (omega (arith, height-le t, v.fits)) (omega (arith, small)),
)
fok_check_lem b Side.ask price qty t v small = ground (
  arith,
  fok_sum_desc_lem level_slots b b.bids.root_idx t price qty 0 v.links v.sorted
      (omega (arith, height-le t, v.fits)) (omega (arith, small)),
)
fok_check_lem b Side.count price qty t v small = ground (
  arith,
  fok_sum_desc_lem level_slots b b.bids.root_idx t price qty 0 v.links v.sorted
      (omega (arith, height-le t, v.fits)) (omega (arith, small)),
)
