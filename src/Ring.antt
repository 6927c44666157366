-- ===== src/Ring.antt =====
-- The ring buffer that engine/matching_engine.c (`eq_push`, `eq_pop`) and pipeline/gateway.c
-- (`gw_ring_push`, `gw_ring_pop`) both write out, over any element type. `& (CAP - 1)` is the
-- remainder by the capacity, a power of two.
pub mod Queue
use profit_playground.Common.{
  ℕ, ◌+◌, ◌%◌, Bool, true, false, if◌then◌else◌, ◌==◌, Option, none, some, update,
}
use profit_playground.Common.Words.{add32}

pub record Ring {ℓ} (A : Type ℓ) : Type ℓ where
  pub buf : ℕ → A
  pub head : ℕ
  pub tail : ℕ
  pub dropped : ℕ

-- The index behind `i`.
abbrev pub next : ℕ → ℕ → ℕ
next cap i = add32 i 1 % cap

module _ {ℓ} {A : Type ℓ} (cap : ℕ) where
  -- `width` is the modulus of the counter of dropped elements.
  unfoldable pub push : ℕ → Ring A → A → Ring A × Bool
  push width r x =
      if next cap r.head == r.tail
      then (record r { dropped = (r.dropped + 1) % width }, false)
      else (record r { buf = update r.buf r.head x; head = next cap r.head }, true)

  unfoldable pub pop : Ring A → Ring A × Option A
  pop r =
      if r.tail == r.head
      then (r, none)
      else (record r { tail = next cap r.tail }, some (r.buf r.tail))
