-- ===== src/Book/Avl/Find.antt =====
-- engine/orderbook.c, `avl_find`: what a search gives, and that it reads the levels of the tree only.
use profit_playground.Common.{
  ℕ, ◌≡◌, ◌≢◌, ◌≤◌, inl, inr, sym, ap, ◌∙◌, arith, Option, none, some, false, refl, if◌then◌else◌,
  ◌==◌,
}
use profit_playground.Common.Int.{ℤ}
use profit_playground.Book.State.{Book, Level, level, null_idx, level_slots}
use profit_playground.Book.Avl.{avl_find}
use profit_playground.Book.Tree.{Tree, height, Sorted}
use profit_playground.Book.Tree.Search.{AllSlots-Has, Found, avl_find_lem}
use profit_playground.Book.Avl.Shape.{Shape, Shape-Links, Unchanged, AllSlots-zip, data_of}
use profit_playground.Book.Avl.Replace.{same_slot}

abbrev pub at_slot : Book → ℕ → Option Level
at_slot b i = if i == null_idx then none else some (data_of (level b i))

-- What the tree from `root` on holds at a price.
unfoldable pub level_at : Book → ℕ → ℤ → Option Level
level_at b root price = at_slot b (avl_find level_slots b root price)

pub at_none : (b : Book) (i : ℕ) → i ≡ null_idx → at_slot b i ≡ none
at_none b i e = ground (arith, e)

pub at_some : (b : Book) (i : ℕ) → i ≢ null_idx → at_slot b i ≡ some (data_of (level b i))
at_some b i real = let slot : (i == null_idx) ≡ false = ground (arith, real) in rw slot refl

pub avl_find-Shape :
    (b : Book) (root : ℕ) (t : Tree) (q : ℤ)
    → Shape b root t
    → Sorted b t
    → height t ≤ 512
    → Found b t q (avl_find level_slots b root q)
avl_find-Shape b root t q shape sorted high =
    avl_find_lem level_slots b root t q (Shape-Links b root t shape) sorted high

-- Two searches for a price give one slot.
pub same_found :
    (b : Book) (t : Tree) (q : ℤ) (i k : ℕ) → Sorted b t → Found b t q i → Found b t q k → i ≡ k
same_found b t q i k sorted (inl (has, real, here)) (inl (has', real', here')) =
    same_slot b t i k sorted has has' (here ∙ sym here')
same_found b t q i k sorted (inl (has, real, here)) (inr (missing, absent)) =
    absurd (AllSlots-Has _ t i absent has here)
same_found b t q i k sorted (inr (missing, absent)) (inl (has, real, here)) =
    absurd (AllSlots-Has _ t k absent has here)
same_found b t q i k sorted (inr (missing, absent)) (inr (missing', absent')) =
    missing ∙ sym missing'

module _ (b b' : Book) (t : Tree) (u : Unchanged b b' t) where
  pub Found-frame : (q : ℤ) (i : ℕ) → Found b t q i → Found b' t q i
  Found-frame q i (inl (has, real, here)) =
      inl (has, real, ap (λ lv. lv.price) (AllSlots-Has _ t i u has) ∙ here)
  Found-frame q i (inr (missing, absent)) = inr (
    missing,
    AllSlots-zip t (λ j same other e. other (sym (ap (λ lv. lv.price) same) ∙ e)) u absent,
  )

  pub at_slot-frame : (q : ℤ) (i : ℕ) → Found b t q i → at_slot b' i ≡ at_slot b i
  at_slot-frame q i (inl (has, real, here)) =
      ap (λ lv. if i == null_idx then none else some (data_of lv)) (AllSlots-Has _ t i u has)
  at_slot-frame q i (inr (missing, absent)) = at_none b' i missing ∙ sym (at_none b i missing)
