-- ===== src/Engine/Stops/Leave.antt =====
-- How a dormant stop leaves the pool by cancellation.
use native.Mathlib.Decide.{dec_lt}
use profit_playground.Common.{
  ℕ, zero, suc, ◌+◌, ◌<◌, ◌≤◌, ◌≡◌, ◌≢◌, ◌⊎◌, refl, inl, inr, Bool, true, false, Bool-cases, arith,
  ◌==◌, ◌&&◌, Option, none, update,
}
use profit_playground.Engine.State.{Engine, StopOrder, max_stops}
use profit_playground.Engine.Emit.{emit_order_event}
use profit_playground.Engine.Submit.{deactivate}
use profit_playground.Engine.Stops.{cancel_slot, cancel_stop_from, cancel_stop}
use profit_playground.Engine.Stops.Count.{
  Fewer, Fewer-refl, Fewer-trans, Fewer-pool, Fewer-deactivate, pool, pool-emit,
}
use Prim.Native.String.{String}

-- The stop, asleep no more.
abbrev pub off : StopOrder → StopOrder
off s = record s { active = false }

pool-cancel_slot :
    (me : Engine) (i : ℕ) (reason : Option String)
    → pool (cancel_slot me i reason) ≡ pool (deactivate me i)
unfolding cancel_slot
pool-cancel_slot me i reason = pool-emit _ _ _ _ _ _ _ _ _ _

pub Fewer-cancel_slot :
    (me : Engine) (i : ℕ) (reason : Option String)
    → i < max_stops
    → (me.stops i).active ≡ true
    → Fewer me (cancel_slot me i reason)
Fewer-cancel_slot me i reason h on =
    Fewer-trans me (deactivate me i) _ (Fewer-deactivate me i h on)
      (Fewer-pool _ _ (pool-cancel_slot me i reason))

pub stops-cancel_slot :
    (me : Engine) (i : ℕ) (reason : Option String)
    → (cancel_slot me i reason).stops ≡ update me.stops i (off (me.stops i))
unfolding cancel_slot emit_order_event deactivate
stops-cancel_slot me i reason = refl

-- An active stop with this id.
abbrev pub Holds : Engine → ℕ → ℕ → Type 0
Holds me id j = ((me.stops j).active ≡ true) × ((me.stops j).id ≡ id)

-- What a cancellation among the slots from `i` on, `n` of them, does.
abbrev pub Cancelled : Engine → ℕ → ℕ → ℕ → Engine × Bool → Type 0
Cancelled me id n i r =
    ((r.1 ≡ true)
      × ((j : ℕ) × (i ≤ j)
          × (j < i + n)
          × Holds me id j
          × (r.0.stops ≡ update me.stops j (off (me.stops j)))))
    ⊎ ((r ≡ (me, false))
        × ((j : ℕ) → i ≤ j → j < i + n → (me.stops j).active ≡ true → (me.stops j).id ≢ id))

cancel_stop_from_lem : (me : Engine) (id n i : ℕ) → Cancelled me id n i (cancel_stop_from me id n i)
unfolding cancel_stop_from
cancel_stop_from_lem me id zero i = inr (refl, λ j low high on. absurd (omega (arith, low, high)))
cancel_stop_from_lem me id (suc n) i =
    elim (Bool-cases ((me.stops i).active && (me.stops i).id == id)) [
      | inl hit ↦ rw hit (
          inl (
            refl,
            (
              i,
              omega arith,
              omega arith,
              (ground (arith, hit), ground (arith, hit)),
              stops-cancel_slot me i none,
            ),
          ))
      | inr miss ↦ rw miss (elim (cancel_stop_from_lem me id n (i + 1)) [
        | inl (found, (j, low, high, holds, after)) ↦
            inl (found, (j, omega (arith, low), omega (arith, high), holds, after))
        | inr (same, absent) ↦ inr (
          same,
          λ j low high on e. elim (dec_lt i j) [
            | yes later ↦ absent j (omega (arith, later)) (omega (arith, high)) on e
            | no here ↦ let at : j ≡ i = omega (arith, low, here) in ground (arith, miss, on, e, at)
          ],
        )
      ])
    ]

-- The cancellation of a stop deactivates one active slot with its id and leaves the other slots,
-- or reports that no active slot has the id and changes nothing.
pub cancel_stop_lem : (me : Engine) (id : ℕ) → Cancelled me id max_stops 0 (cancel_stop me id)
unfolding cancel_stop
cancel_stop_lem me id = cancel_stop_from_lem me id max_stops 0

Fewer-cancel_stop_from :
    (me : Engine) (id n i : ℕ) → i + n ≤ max_stops → Fewer me (cancel_stop_from me id n i).0
unfolding cancel_stop_from
Fewer-cancel_stop_from me id zero i h = Fewer-refl me
Fewer-cancel_stop_from me id (suc n) i h =
    elim (Bool-cases ((me.stops i).active && (me.stops i).id == id)) [
      | inl hit ↦ rw hit (Fewer-cancel_slot me i none (omega (arith, h)) (ground (arith, hit)))
      | inr miss ↦ rw miss (Fewer-cancel_stop_from me id n (i + 1) (omega (arith, h)))
    ]

pub Fewer-cancel_stop : (me : Engine) (id : ℕ) → Fewer me (cancel_stop me id).0
unfolding cancel_stop
Fewer-cancel_stop me id = Fewer-cancel_stop_from me id max_stops 0 (omega arith)
