-- ===== src/Book/Tree/Sums.antt =====
-- Sums of the resting quantity over the levels of a tree.
use profit_playground.Common.{ℕ, ◌+◌, ◌≡◌, refl, Bool, false, if◌then◌else◌}
use profit_playground.Common.Int.{ℤ}
use profit_playground.Book.State.{Book, level}
use profit_playground.Book.Tree.{Tree, leaf, node, AllSlots}

-- The quantity at the prices that pass the test.
unfoldable pub total : (ℤ → Bool) → Book → Tree → ℕ
total test b leaf = 0
total test b (node l k r) =
    total test b l + (if test (level b k).price then (level b k).total_qty else 0) + total test b r

pub total-none :
    (test : ℤ → Bool) (b : Book) (t : Tree)
    → AllSlots (λ j. test (level b j).price ≡ false) t
    → total test b t ≡ 0
unfolding total AllSlots
total-none test b leaf h = refl
total-none test b (node l k r) (here, left, right) =
    rw (here, total-none test b l left, total-none test b r right) refl
