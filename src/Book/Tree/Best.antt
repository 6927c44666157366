-- ===== src/Book/Tree/Best.antt =====
-- `ob_best_bid`, `ob_best_ask` and the lookup of a price level on the tree of a side.
use profit_playground.Common.{ℕ, ◌≡◌, ◌≤◌, refl, arith, if◌then◌else◌, ◌==◌, false}
use profit_playground.Common.Int.{ℤ, pos, ◌≤ℤ◌}
use profit_playground.Book.State.{Book, level, null_idx, level_slots}
use profit_playground.Book.Avl.{avl_find, avl_min, avl_max}
use profit_playground.Book.Query.{best_bid, best_ask}
use profit_playground.Book.Tree.{Tree, leaf, node, height, height-le, AllSlots, Has, IsTree}
use profit_playground.Book.Tree.Search.{
  Found, Lowest, Highest, avl_find_lem, avl_min_lem, avl_max_lem,
}

-- The price is the lowest of the tree's, or 0 for an empty tree.
abbrev pub IsLowest : Book → Tree → ℤ → Type 0
IsLowest b leaf p = p ≡ pos 0
IsLowest b t p =
    ((j : ℕ) × Has j t × ((level b j).price ≡ p)) × AllSlots (λ j. p ≤ℤ (level b j).price) t

abbrev pub IsHighest : Book → Tree → ℤ → Type 0
IsHighest b leaf p = p ≡ pos 0
IsHighest b t p =
    ((j : ℕ) × Has j t × ((level b j).price ≡ p)) × AllSlots (λ j. (level b j).price ≤ℤ p) t

enough : (b : Book) (root : ℕ) (t : Tree) → IsTree b root t → height t ≤ level_slots
enough b root t v = omega (arith, height-le t, v.fits)

pub best_bid-IsHighest :
    (b : Book) (t : Tree) → IsTree b b.bids.root_idx t → IsHighest b t (best_bid b)
unfolding best_bid
best_bid-IsHighest b t v =
    bid t (avl_max_lem level_slots b b.bids.root_idx t v.links v.sorted (enough b _ t v))
  where
    bid :
        (t : Tree)
        → Highest b t (avl_max level_slots b b.bids.root_idx)
        → IsHighest b t (
            if avl_max level_slots b b.bids.root_idx == null_idx
            then pos 0
            else (level b (avl_max level_slots b b.bids.root_idx)).price)
    bid leaf h = ground (arith, h)
    bid (node l k r) (real, has, most) =
        let found : (avl_max level_slots b b.bids.root_idx == null_idx) ≡ false =
          ground (arith, real) in
        rw found ((_, has, refl), most)

pub best_ask-IsLowest :
    (b : Book) (t : Tree) → IsTree b b.asks.root_idx t → IsLowest b t (best_ask b)
unfolding best_ask
best_ask-IsLowest b t v =
    ask t (avl_min_lem level_slots b b.asks.root_idx t v.links v.sorted (enough b _ t v))
  where
    ask :
        (t : Tree)
        → Lowest b t (avl_min level_slots b b.asks.root_idx)
        → IsLowest b t (
            if avl_min level_slots b b.asks.root_idx == null_idx
            then pos 0
            else (level b (avl_min level_slots b b.asks.root_idx)).price)
    ask leaf h = ground (arith, h)
    ask (node l k r) (real, has, least) =
        let found : (avl_min level_slots b b.asks.root_idx == null_idx) ≡ false =
          ground (arith, real) in
        rw found ((_, has, refl), least)

-- In a book whose sides are search trees that fit the level pool, the best bid is the highest
-- price of the bid tree and the best ask the lowest price of the ask tree, each 0 for an empty
-- tree.
pub best_prices_lem :
    (b : Book) (bids asks : Tree)
    → IsTree b b.bids.root_idx bids
    → IsTree b b.asks.root_idx asks
    → IsHighest b bids (best_bid b) × IsLowest b asks (best_ask b)
best_prices_lem b bids asks v w = (best_bid-IsHighest b bids v, best_ask-IsLowest b asks w)

-- In a search tree that fits the level pool, a search for a price gives a node of the tree at that
-- price, or the null index where no node has it.
avl_find-Found :
    (b : Book) (root : ℕ) (t : Tree) (price : ℤ)
    → IsTree b root t
    → Found b t price (avl_find level_slots b root price)
avl_find-Found b root t price v =
    avl_find_lem level_slots b root t price v.links v.sorted (enough b root t v)
