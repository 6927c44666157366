-- ===== src/Engine/Stops/Sweep.antt =====
-- engine/matching_engine.c, `me_expire_orders`: what a sweep does to the dormant stops.
use native.Mathlib.Decide.{dec_lt}
use profit_playground.Common.{
  ℕ, zero, suc, ◌+◌, ◌<◌, ◌≤◌, ◌≡◌, ◌≢◌, ◌⊎◌, refl, sym, subst, ap, ◌∙◌, inl, inr, Bool, true,
  false, Bool-cases, arith, if◌then◌else◌, ltb, ◌&&◌, some, update_self, update_ne,
}
use profit_playground.Book.State.{max_orders}
use profit_playground.Engine.State.{Engine, StopOrder, max_stops}
use profit_playground.Engine.Stops.{
  cancel_slot, is_due, expire_stops, cancel_expired, expire_book, expire_orders,
}
use profit_playground.Engine.Stops.Count.{
  Fewer, Fewer-refl, Fewer-trans, Fewer-pool, pool, pool-emit, pool-maybe_emit_tob,
}
use profit_playground.Engine.Stops.Leave.{off, Fewer-cancel_slot, stops-cancel_slot}

-- The slot after a sweep at time `now`.
unfoldable swept : ℕ → StopOrder → StopOrder
swept now s = if s.active && is_due s.expiry_ts now then off s else s

abbrev pub stop_due : Engine → ℕ → ℕ → Bool
stop_due me now i = (me.stops i).active && is_due (me.stops i).expiry_ts now

-- One round of the sweep.
abbrev sweep_slot : ℕ → ℕ → Engine → Engine
sweep_slot now i me = if stop_due me now i then cancel_slot me i (some "expired") else me

stops-sweep_slot :
    (now i : ℕ) (me : Engine) → ((sweep_slot now i me).stops i ≡ swept now (me.stops i))
unfolding swept
stops-sweep_slot now i me = elim (Bool-cases (stop_due me now i)) [
  | inl due ↦ rw (due, stops-cancel_slot me i (some "expired")) (update_self me.stops i _)
  | inr kept ↦ rw kept refl
]

stops-sweep_slot_ne :
    (now i j : ℕ) (me : Engine) → j ≢ i → (sweep_slot now i me).stops j ≡ me.stops j
stops-sweep_slot_ne now i j me ne = elim (Bool-cases (stop_due me now i)) [
  | inl due ↦ rw (due, stops-cancel_slot me i (some "expired")) (update_ne me.stops i _ j ne)
  | inr kept ↦ rw kept refl
]

stops-expire_stops_out :
    (now n i j e : ℕ) (me : Engine) → j < i → (expire_stops now n i me e).0.stops j ≡ me.stops j
unfolding expire_stops
stops-expire_stops_out now zero i j e me h = refl
stops-expire_stops_out now (suc n) i j e me h =
    stops-expire_stops_out now n (i + 1) j _ (sweep_slot now i me) (omega (arith, h))
    ∙ stops-sweep_slot_ne now i j me (λ q. omega (arith, q, h))

stops-expire_stops :
    (now n i j e : ℕ) (me : Engine)
    → i ≤ j
    → j < i + n
    → (expire_stops now n i me e).0.stops j ≡ swept now (me.stops j)
unfolding expire_stops
stops-expire_stops now zero i j e me low high = absurd (omega (arith, low, high))
stops-expire_stops now (suc n) i j e me low high = elim (dec_lt i j) [
  | yes later ↦
      stops-expire_stops now n (i + 1) j _ (sweep_slot now i me) (omega (arith, later))
        (omega (arith, high))
      ∙ ap (swept now) (stops-sweep_slot_ne now i j me (λ q. omega (arith, q, later)))
  | no here ↦
      let at : j ≡ i = omega (arith, low, here) in
      rw at (
        stops-expire_stops_out now n (i + 1) i _ (sweep_slot now i me) (omega arith)
        ∙ stops-sweep_slot now i me)
]

pool-cancel_expired : (me : Engine) (i : ℕ) → pool (cancel_expired me i) ≡ pool me
unfolding cancel_expired
pool-cancel_expired me i = pool-emit _ _ _ _ _ _ _ _ _ _

pool-expire_book : (now n i : ℕ) (me : Engine) (e : ℕ) → pool (expire_book now n i me e).0 ≡ pool me
unfolding expire_book
pool-expire_book now zero i me e = refl
pool-expire_book now (suc n) i me e =
    pool-expire_book now n (i + 1) _ _ ∙ ground (arith, pool-cancel_expired me i)

swept-expire_orders :
    (me : Engine) (now j : ℕ)
    → j < max_stops
    → (expire_orders me now).0.stops j ≡ swept now (me.stops j)
unfolding expire_orders
swept-expire_orders me now j h =
    let (me1, n1) = expire_stops now max_stops 0 me 0 in
    let book : pool (expire_book now max_orders 0 me1 n1).0 ≡ pool me1 =
      pool-expire_book now max_orders 0 me1 n1 in
    let slot : me1.stops j ≡ swept now (me.stops j) =
      stops-expire_stops now max_stops 0 j 0 me (omega arith) h in
    elim (Bool-cases (ltb 0 (expire_book now max_orders 0 me1 n1).1)) [
      | inl some_gone ↦ rw some_gone (ap (λ p. p.0 j) (pool-maybe_emit_tob _ ∙ book) ∙ slot)
      | inr none_gone ↦ rw none_gone (ap (λ p. p.0 j) book ∙ slot)
    ]

-- The stop is awake at a time that its expiry does not exceed; an expiry of 0 is none.
abbrev pub Due : ℕ → StopOrder → Type 0
Due now s = (s.active ≡ true) × (0 < s.expiry_ts) × (s.expiry_ts ≤ now)

-- The slot before and after a sweep at time `now`.
abbrev pub Swept : ℕ → StopOrder → StopOrder → Type 0
Swept now s s' = (Due now s × (s' ≡ record s { active = false })) ⊎ (¬ (Due now s) × (s' ≡ s))

swept-Swept : (now : ℕ) (s : StopOrder) → Swept now s (swept now s)
unfolding swept
swept-Swept now s = elim (Bool-cases (s.active && is_due s.expiry_ts now)) [
  | inl due ↦ rw due (inl ((ground (arith, due), ground (arith, due), ground (arith, due)), refl))
  | inr kept ↦ rw kept (inr ((λ d. ground (arith, kept, d.0, d.1, d.2)), refl))
]

-- An expiry sweep deactivates each stop of the pool that is active and has an expiry other than 0
-- that does not exceed the time of the sweep, changing nothing else of it, and leaves every other
-- slot of the pool as it was.
pub stops-expire_orders :
    (me : Engine) (now j : ℕ)
    → j < max_stops
    → Swept now (me.stops j) ((expire_orders me now).0.stops j)
stops-expire_orders me now j h =
    subst (Swept now (me.stops j)) (sym (swept-expire_orders me now j h))
      (swept-Swept now (me.stops j))

Fewer-expire_stops :
    (now n i e : ℕ) (me : Engine) → i + n ≤ max_stops → Fewer me (expire_stops now n i me e).0
unfolding expire_stops
Fewer-expire_stops now zero i e me h = Fewer-refl me
Fewer-expire_stops now (suc n) i e me h =
    Fewer-trans me (sweep_slot now i me) _ (one (Bool-cases (stop_due me now i)))
      (Fewer-expire_stops now n (i + 1) _ (sweep_slot now i me) (omega (arith, h)))
  where
    one : (stop_due me now i ≡ true) ⊎ (stop_due me now i ≡ false) → Fewer me (sweep_slot now i me)
    one (inl due) =
        rw due (Fewer-cancel_slot me i (some "expired") (omega (arith, h)) (ground (arith, due)))
    one (inr kept) = rw kept (Fewer-refl me)

pub Fewer-expire_orders : (me : Engine) (now : ℕ) → Fewer me (expire_orders me now).0
unfolding expire_orders
Fewer-expire_orders me now =
    let (me1, n1) = expire_stops now max_stops 0 me 0 in
    let book : Fewer me1 (expire_book now max_orders 0 me1 n1).0 =
      Fewer-pool _ _ (pool-expire_book now max_orders 0 me1 n1) in
    Fewer-trans me me1 _ (Fewer-expire_stops now max_stops 0 0 me (omega arith))
      (elim (Bool-cases (ltb 0 (expire_book now max_orders 0 me1 n1).1)) [
        | inl some_gone ↦
            rw some_gone (Fewer-trans _ _ _ book (Fewer-pool _ _ (pool-maybe_emit_tob _)))
        | inr none_gone ↦ rw none_gone book
      ])
