-- ===== src/Book/Tree.antt =====
-- The tree that the level indices of engine/orderbook.c stand for, and what a search in it finds.
pub mod Search
pub mod Sums
pub mod Best
use profit_playground.Common.{ℕ, suc, ◌+◌, ◌≡◌, ◌≢◌, ◌⊎◌, ◌≤◌, ltb, if◌then◌else◌, arith}
use profit_playground.Common.Int.{ℤ, ◌<ℤ◌}
use profit_playground.Book.State.{Book, Level, level, null_idx}

-- A node is a slot of the level pool between two subtrees.
pub data Tree : Type 0 where
  leaf : Tree
  node : Tree → ℕ → Tree → Tree

abbrev pub size : Tree → ℕ
size leaf = 0
size (node l k r) = suc (size l + size r)

abbrev pub height : Tree → ℕ
height leaf = 0
height (node l k r) = suc (if ltb (height l) (height r) then height r else height l)

-- Every slot of the tree.
unfoldable pub AllSlots : (ℕ → Type 0) → Tree → Type 0
AllSlots P leaf = Unit
AllSlots P (node l k r) = P k × AllSlots P l × AllSlots P r

-- The tree has this slot.
unfoldable pub Has : ℕ → Tree → Type 0
Has j leaf = ⊥
Has j (node l k r) = (j ≡ k) ⊎ Has j l ⊎ Has j r

-- The links of the book's levels from index `i` on spell out the tree.
unfoldable pub Links : Book → ℕ → Tree → Type 0
Links b i leaf = i ≡ null_idx
Links b i (node l k r) =
    (i ≡ k) × (i ≢ null_idx) × Links b (level b i).left_idx l × Links b (level b i).right_idx r

-- Prices rise from left to right.
unfoldable pub Sorted : Book → Tree → Type 0
Sorted b leaf = Unit
Sorted b (node l k r) =
    AllSlots (λ j. (level b j).price <ℤ (level b k).price) l
    × AllSlots (λ j. (level b k).price <ℤ (level b j).price) r
    × Sorted b l
    × Sorted b r

-- The search tree of one side, which fits into the level pool.
pub record IsTree (b : Book) (root : ℕ) (t : Tree) : Type 0 where
  pub links : Links b root t
  pub sorted : Sorted b t
  pub fits : size t ≤ 512

pub height-le : (t : Tree) → height t ≤ size t
height-le leaf = omega arith
height-le (node l k r) = ground (arith, height-le l, height-le r)

pub AllSlots-map :
    {P Q : ℕ → Type 0} (t : Tree) → ((j : ℕ) → P j → Q j) → AllSlots P t → AllSlots Q t
unfolding AllSlots
AllSlots-map leaf f h = tt
AllSlots-map (node l k r) f h = (f k h.0, AllSlots-map l f h.1, AllSlots-map r f h.2)
