-- ===== src/Book/Query/Depth.antt =====
-- What `ob_depth` counts of the levels within its range.
use profit_playground.Common.{
  sym, ap, ◌∙◌, subst, Bool, ◌^◌, ◌≡◌, ◌≢◌, ◌≤◌, ◌<◌, refl, arith, false, Bool-cases, inl, inr,
  if◌then◌else◌,
}
use profit_playground.Common.Int.{
  ℤ, pos, +ℤ_parts, -ℤ_parts, leb_ℤ, ◌-ℤ◌, ◌<ℤ◌, negsuc, eqb_ℤ, eq_of_parts,
}
use profit_playground.Book.State.{Book, Side, level, level_slots, side_of, is_bid}
use profit_playground.Book.Query.{within, depth_in_tree, depth, best_bid, best_ask}
use profit_playground.Book.Tree.{Tree, leaf, node, height-le, AllSlots, IsTree}
use profit_playground.Book.Tree.Sums.{total}
use profit_playground.Book.Tree.Search.{AllSlots-Has}
use profit_playground.Book.Tree.Best.{best_bid-IsHighest, best_ask-IsLowest}
use profit_playground.Book.Query.Crown.{crown, crown-le, depth_in_tree-crown}

-- The best price of a side, which `ob_depth` measures from.
abbrev pub best : Book → Side → ℤ
best b side = if is_bid side then best_bid b else best_ask b

-- The price is at most `range` worse than the best.
unfoldable pub near : Side → ℤ → ℤ → ℤ → Bool
near Side.bid best_price range p = leb_ℤ (best_price -ℤ p) range
near _ best_price range p = leb_ℤ (p -ℤ best_price) range

within-near :
    (side : Side) (limit range p : ℤ) → within side limit range p ≡ near side limit range p
unfolding near
within-near Side.bid limit range p = ground (arith, -ℤ_parts limit range, -ℤ_parts limit p)
within-near Side.ask limit range p = ground (arith, +ℤ_parts limit range, -ℤ_parts p limit)
within-near Side.count limit range p = ground (arith, +ℤ_parts limit range, -ℤ_parts p limit)

eqb_ne : (a c : ℤ) → a ≢ c → eqb_ℤ a c ≡ false
eqb_ne a c h = elim (Bool-cases (eqb_ℤ a c)) [
  | inl same ↦ absurd (h (eq_of_parts a c (ground (arith, same))))
  | inr differ ↦ differ
]

-- The best price is that of a level, or there is no level.
best-real :
    (b : Book) (side : Side) (t : Tree)
    → IsTree b (side_of b side).root_idx t
    → side ≢ Side.count
    → AllSlots (λ j. pos 0 <ℤ (level b j).price) t
    → best b side ≡ pos 0
    → t ≡ leaf
best-real b side leaf v known real none_there = refl
best-real b Side.bid (node l k r) v known real none_there =
    let ((j, has, here), most) = best_bid-IsHighest b (node l k r) v in
    absurd (ground (arith, none_there, here, AllSlots-Has _ (node l k r) j real has))
best-real b Side.ask (node l k r) v known real none_there =
    let ((j, has, here), least) = best_ask-IsLowest b (node l k r) v in
    absurd (ground (arith, none_there, here, AllSlots-Has _ (node l k r) j real has))
best-real b Side.count (node l k r) v known real none_there = absurd (known refl)

depth-sum :
    (b : Book) (side : Side) (range : ℤ)
    → range ≢ negsuc 0
    → best b side ≢ pos 0
    → depth b side range
      ≡ depth_in_tree level_slots b (side_of b side).root_idx side (best b side) range
unfolding depth
depth-sum b side range some_range some_price =
    rw (eqb_ne range (negsuc 0) some_range, eqb_ne (best b side) (pos 0) some_price) refl

depth-none :
    (b : Book) (side : Side) (range : ℤ)
    → range ≢ negsuc 0
    → best b side ≡ pos 0
    → depth b side range ≡ 0
unfolding depth
depth-none b side range some_range no_price = rw (eqb_ne range (negsuc 0) some_range, no_price) refl

depth-crown :
    (b : Book) (side : Side) (range : ℤ) (t : Tree)
    → IsTree b (side_of b side).root_idx t
    → side ≢ Side.count
    → AllSlots (λ j. pos 0 <ℤ (level b j).price) t
    → range ≢ negsuc 0
    → crown (within side (best b side) range) b t < 2 ^ 64
    → depth b side range ≡ crown (within side (best b side) range) b t
unfolding crown
depth-crown b side range t v known real some_range small =
    elim (Bool-cases (eqb_ℤ (best b side) (pos 0))) [
      | inl none_there ↦
          let no_price = eq_of_parts (best b side) (pos 0) (ground (arith, none_there)) in
          depth-none b side range some_range no_price
          ∙ sym (
              ap (crown (within side (best b side) range) b)
                (best-real b side t v known real no_price))
      | inr some_there ↦
          depth-sum b side range some_range (λ e. ground (arith, some_there, e))
          ∙ depth_in_tree-crown level_slots b (side_of b side).root_idx t side (best b side) range
              v.links v.sorted (omega (arith, height-le t, v.fits)) small
    ]

-- On the bid or the ask side, where it is a search tree of positive prices that fits the level
-- pool, for a range other than -1, with less than 2^64 at most the range worse than the best
-- price, the depth is the quantity of the levels that are at most the range worse than the best
-- price and lie, in the tree, below such levels only; so it is at most the quantity of all the
-- levels that are at most the range worse.
pub depth_lem :
    (b : Book) (side : Side) (range : ℤ) (t : Tree)
    → IsTree b (side_of b side).root_idx t
    → side ≢ Side.count
    → AllSlots (λ j. pos 0 <ℤ (level b j).price) t
    → range ≢ negsuc 0
    → total (near side (best b side) range) b t < 2 ^ 64
    → (depth b side range ≡ crown (near side (best b side) range) b t)
      × (depth b side range ≤ total (near side (best b side) range) b t)
depth_lem b side range t v known real some_range small =
    let same : within side (best b side) range ≡ near side (best b side) range =
      λ i. λ p. within-near side (best b side) range p i in
    let le = crown-le (near side (best b side) range) b t in
    let small' : crown (within side (best b side) range) b t < 2 ^ 64 =
      subst (λ test. crown test b t < 2 ^ 64) (sym same) (omega (arith, le, small)) in
    let exact : depth b side range ≡ crown (near side (best b side) range) b t =
      depth-crown b side range t v known real some_range small'
      ∙ ap (λ test. crown test b t) same in
    (exact, omega (arith, exact, le))
