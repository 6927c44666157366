-- ===== src/Engine/Stops/Valid.antt =====
-- engine/matching_engine.c, `me_submit_stop`: which stops are accepted, and into which slot.
use native.Mathlib.Decide.{dec_lt}
use profit_playground.Common.{
  ◌%◌, ◌^◌, true, ltb, if◌then◌else◌, ℕ, zero, suc, ◌+◌, ◌<◌, ◌≤◌, ◌≡◌, ◌≢◌, ◌⊎◌, refl, inl, inr,
  false, arith, none, some,
}
use profit_playground.Common.Int.{ℤ, pos, ◌<ℤ◌, eq_of_parts}
use profit_playground.Common.Words.{add64}
use profit_playground.Book.State.{Side}
use profit_playground.Orders.State.{OrderType}
use profit_playground.Engine.State.{Engine, StopOrder, max_stops}
use profit_playground.Engine.Stops.{find_free_from, find_free, stop_error}

-- The slot that is found is free.
find_free_from_lem :
    (n i j : ℕ) (stops : ℕ → StopOrder)
    → find_free_from stops n i ≡ some j
    → (i ≤ j) × (j < i + n) × ((stops j).active ≡ false)
unfolding find_free_from
find_free_from_lem zero i j stops h = absurd (ground (arith, h))
find_free_from_lem (suc n) i j stops h = ground (arith, h, find_free_from_lem n (i + 1) j stops)

pub find_free_lem :
    (me : Engine) (slot : ℕ)
    → find_free me ≡ some slot
    → (0 ≤ slot) × (slot < max_stops) × ((me.stops slot).active ≡ false)
unfolding find_free
find_free_lem me slot found = find_free_from_lem max_stops 0 slot me.stops found

-- The parameters that a stop may have: a quantity, a side of the book, a trigger price, and a limit
-- price for a stop limit, but none for a stop market.
pub record Valid (type : OrderType) (side : Side) (trigger_price limit_price : ℤ) (qty : ℕ)
    : Type 0 where
  pub some_qty : 0 < qty
  pub real_side : (side ≡ Side.bid) ⊎ (side ≡ Side.ask)
  pub triggered : pos 0 <ℤ trigger_price
  pub no_limit : type ≡ OrderType.stop → limit_price ≡ pos 0
  pub some_limit : type ≡ OrderType.stop_limit → pos 0 <ℤ limit_price

-- Every slot of the pool is taken.
abbrev pub IsFull : Engine → Type 0
IsFull me = (j : ℕ) → j < max_stops → (me.stops j).active ≡ true

-- A stop with a time to live ends that long after now, in 64-bit words; one without never does.
abbrev pub Expiry : ℕ → ℕ → ℕ → Type 0
Expiry now ttl_ns expiry_ts =
    ((ttl_ns ≡ 0) × (expiry_ts ≡ 0)) ⊎ ((0 < ttl_ns) × (expiry_ts ≡ (now + ttl_ns) % 2 ^ 64))

pub Expiry-new : (now ttl_ns : ℕ) → Expiry now ttl_ns (if ltb 0 ttl_ns then add64 now ttl_ns else 0)
Expiry-new now zero = inl (refl, refl)
Expiry-new now (suc ttl_ns) = inr (omega arith, ground arith)

find_free_from-taken :
    (n i : ℕ) (stops : ℕ → StopOrder)
    → find_free_from stops n i ≡ none
    → (j : ℕ) → i ≤ j
    → j < i + n
    → (stops j).active ≡ true
unfolding find_free_from
find_free_from-taken zero i stops h j low high = absurd (omega (arith, low, high))
find_free_from-taken (suc n) i stops h j low high = elim (dec_lt i j) [
  | yes later ↦
      find_free_from-taken n (i + 1) stops (ground (arith, h)) j (omega (arith, later))
        (omega (arith, high))
  | no here ↦ let at : j ≡ i = omega (arith, low, here) in rw at (ground (arith, h))
]

pub find_free-IsFull : (me : Engine) → find_free me ≡ none → IsFull me
unfolding find_free
find_free-IsFull me h j below =
    find_free_from-taken max_stops 0 me.stops h j (omega arith) (omega (arith, below))

pub stop_error-Valid :
    (type : OrderType) (side : Side) (t l : ℤ) (qty : ℕ)
    → stop_error type side t l qty ≡ none
    → Valid type side t l qty
unfolding stop_error
stop_error-Valid type side t l qty h = record {
  some_qty = ground (arith, h);
  real_side = ground (arith, h);
  triggered = ground (arith, h);
  no_limit = λ e. eq_of_parts l (pos 0) (ground (arith, h, e));
  some_limit = λ e. ground (arith, h, e);
}

pub stop_error-not_Valid :
    (type : OrderType) (side : Side) (t l : ℤ) (qty : ℕ)
    → stop_error type side t l qty ≢ none
    → ¬ (Valid type side t l qty)
unfolding stop_error
stop_error-not_Valid type side t l qty h v =
    ground (arith, h, v.some_qty, v.real_side, v.triggered, v.no_limit, v.some_limit)
