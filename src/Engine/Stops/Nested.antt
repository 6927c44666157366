-- ===== src/Engine/Stops/Nested.antt =====
-- The recursion of `me_submit_order` through `check_stops`, and the fuel that it takes.
use profit_playground.Common.{
  ℕ, zero, suc, ◌+◌, ◌<◌, ◌≤◌, ◌≡◌, refl, ap, ◌∙◌, inl, inr, true, Bool-cases, arith, if◌then◌else◌,
  ltb, ◌&&◌, none,
}
use profit_playground.Common.Int.{ℤ, pos, eqb_ℤ}
use profit_playground.Book.State.{Side}
use profit_playground.Orders.State.{OrderType, is_stop}
use profit_playground.Orders.Preprocess.{preprocess}
use profit_playground.Engine.State.{Engine, EventType, Result, max_stops}
use profit_playground.Engine.Emit.{emit_order_event}
use profit_playground.Engine.Submit.{
  reject_order, execute, Submit, is_triggered, is_reject, deactivate, trigger, check_from,
  check_stops, submit_with, submit_nested, submit_order,
}
use profit_playground.Engine.Stops.Count.{
  active, active_count-le, IsCounted, Fewer, Fewer-refl, Fewer-trans, Fewer-pool, Fewer-deactivate,
  active-deactivate, pool-emit, pool-execute, pool-reject_order,
}

-- A submission that leaves the pool in order.
abbrev Keeps : Submit → Type 0
Keeps submit =
    (me : Engine) (type : OrderType) (side : Side) (price : ℤ) (qty : ℕ)
    → Fewer me (submit me type side price qty).0

-- The engine that a triggered stop enters.
abbrev fired : Engine → ℕ → Engine
fired me i =
    let s = me.stops i in
    emit_order_event (deactivate me i) EventType.stop_triggered s.id s.side s.orig_type
      s.trigger_price s.qty s.qty 0 none

Fewer-fired :
    (me : Engine) (i : ℕ) → i < max_stops → (me.stops i).active ≡ true → Fewer me (fired me i)
Fewer-fired me i h on =
    Fewer-trans me (deactivate me i) (fired me i) (Fewer-deactivate me i h on)
      (Fewer-pool _ _ (pool-emit _ _ _ _ _ _ _ _ _ _))

active-fired :
    (me : Engine) (i : ℕ)
    → i < max_stops
    → (me.stops i).active ≡ true
    → suc (active (fired me i)) ≡ active me
active-fired me i h on =
    let same : (fired me i).stops ≡ (deactivate me i).stops =
      ap (λ p. p.0) (pool-emit _ _ _ _ _ _ _ _ _ _) in
    rw same (active-deactivate me i h on)

Fewer-trigger :
    (submit : Submit)
    → Keeps submit
    → (me : Engine) (i : ℕ) → i < max_stops
    → (me.stops i).active ≡ true
    → Fewer me (trigger submit me i)
unfolding trigger
Fewer-trigger submit keeps me i h on = elim (Bool-cases (is_stop (me.stops i).orig_type)) [
  | inl market ↦
      rw market (Fewer-trans me (fired me i) _ (Fewer-fired me i h on) (keeps (fired me i) _ _ _ _))
  | inr limit ↦
      rw limit (Fewer-trans me (fired me i) _ (Fewer-fired me i h on) (keeps (fired me i) _ _ _ _))
]

Fewer-check_from :
    (submit : Submit)
    → Keeps submit
    → (ltp : ℤ) (n i : ℕ) (me : Engine) → i + n ≤ max_stops
    → Fewer me (check_from submit ltp n i me)
unfolding check_from
Fewer-check_from submit keeps ltp zero i me h = Fewer-refl me
Fewer-check_from submit keeps ltp (suc n) i me h =
    elim (Bool-cases ((me.stops i).active && is_triggered ltp (me.stops i))) [
      | inl fires ↦ rw fires (
          Fewer-trans me (trigger submit me i) _
            (Fewer-trigger submit keeps me i (omega (arith, h)) (ground (arith, fires)))
            (Fewer-check_from submit keeps ltp n (i + 1) _ (omega (arith, h))))
      | inr rests ↦ rw rests (Fewer-check_from submit keeps ltp n (i + 1) me (omega (arith, h)))
    ]

Fewer-check_stops :
    (submit : Submit) → Keeps submit → (me : Engine) → Fewer me (check_stops submit me)
unfolding check_stops
Fewer-check_stops submit keeps me = elim (Bool-cases (eqb_ℤ me.last_trade_price (pos 0))) [
  | inl untraded ↦ rw untraded (Fewer-refl me)
  | inr traded ↦
      rw traded (Fewer-check_from submit keeps me.last_trade_price max_stops 0 me (omega arith))
]

submit_with-Keeps :
    (stops : Engine → Engine) → ((me : Engine) → Fewer me (stops me)) → Keeps (submit_with stops)
unfolding submit_with
submit_with-Keeps stops keeps me type side price qty = elim (Bool-cases (is_reject req.flow)) [
  | inl refused ↦ rw refused (Fewer-pool me _ (pool-reject_order me type side price qty req))
  | inr passed ↦ elim (Bool-cases (ltb 0 done.1)) [
    | inl filled ↦ rw (passed, filled) (Fewer-trans me done.0.0 _ executed (keeps done.0.0))
    | inr unfilled ↦ rw (passed, unfilled) executed
  ]
]
  where
    req : profit_playground.Orders.State.Request
    req = preprocess me.store.book type side price qty

    done : (Engine × Result) × ℕ
    done = execute me type side price qty req

    executed : Fewer me done.0.0
    executed = Fewer-pool me done.0.0 (pool-execute me type side price qty req)

submit_nested-Keeps : (f : ℕ) → Keeps (submit_nested f)
unfolding submit_nested
submit_nested-Keeps zero me type side price qty = Fewer-refl me
submit_nested-Keeps (suc f) me type side price qty =
    submit_with-Keeps (check_stops (submit_nested f))
      (Fewer-check_stops (submit_nested f) (submit_nested-Keeps f)) me type side price qty

-- Two submissions that agree on engines with fewer than `n` active stops.
abbrev Agrees : ℕ → Submit → Submit → Type 0
Agrees n s s' =
    (me : Engine) (type : OrderType) (side : Side) (price : ℤ) (qty : ℕ)
    → active me < n
    → s me type side price qty ≡ s' me type side price qty

module _ (n : ℕ) (s s' : Submit) (agree : Agrees n s s') (keeps : Keeps s) where
  trigger_agrees :
      (me : Engine) (i : ℕ)
      → i < max_stops
      → (me.stops i).active ≡ true
      → active me ≤ n
      → trigger s me i ≡ trigger s' me i
  unfolding trigger
  trigger_agrees me i h on few =
      let less : active (fired me i) < n = omega (arith, active-fired me i h on, few) in
      elim (Bool-cases (is_stop (me.stops i).orig_type)) [
        | inl market ↦ rw market (ap (λ r. r.0) (agree (fired me i) _ _ _ _ less))
        | inr limit ↦ rw limit (ap (λ r. r.0) (agree (fired me i) _ _ _ _ less))
      ]

  check_from_agrees :
      (ltp : ℤ) (k i : ℕ) (me : Engine)
      → i + k ≤ max_stops
      → active me ≤ n
      → check_from s ltp k i me ≡ check_from s' ltp k i me
  unfolding check_from
  check_from_agrees ltp zero i me h few = refl
  check_from_agrees ltp (suc k) i me h few =
      elim (Bool-cases ((me.stops i).active && is_triggered ltp (me.stops i))) [
        | inl fires ↦
            let inside : i < max_stops = omega (arith, h) in
            let on : (me.stops i).active ≡ true = ground (arith, fires) in
            let fewer = (Fewer-trigger s keeps me i inside on).fewer in
            rw fires (
              check_from_agrees ltp k (i + 1) (trigger s me i) (omega (arith, h))
                (omega (arith, fewer, few))
              ∙ ap (check_from s' ltp k (i + 1)) (trigger_agrees me i inside on few))
        | inr rests ↦ rw rests (check_from_agrees ltp k (i + 1) me (omega (arith, h)) few)
      ]

  check_stops_agrees : (me : Engine) → active me ≤ n → check_stops s me ≡ check_stops s' me
  unfolding check_stops
  check_stops_agrees me few = elim (Bool-cases (eqb_ℤ me.last_trade_price (pos 0))) [
    | inl untraded ↦ rw untraded refl
    | inr traded ↦
        rw traded (check_from_agrees me.last_trade_price max_stops 0 me (omega arith) few)
  ]

  submit_with-Agrees : Agrees (suc n) (submit_with (check_stops s)) (submit_with (check_stops s'))
  unfolding submit_with
  submit_with-Agrees me type side price qty few =
      let req = preprocess me.store.book type side price qty in
      let done = execute me type side price qty req in
      let fewer = (Fewer-pool me done.0.0 (pool-execute me type side price qty req)).fewer in
      ap
        (λ (e : Engine).
          if is_reject req.flow
          then reject_order me type side price qty req
          else (if ltb 0 done.1 then e else done.0.0, done.0.1))
        (check_stops_agrees done.0.0 (omega (arith, fewer, few)))

-- More fuel than active stops gives the result that one unit more gives.
submit_nested-enough : (f : ℕ) → Agrees f (submit_nested f) (submit_nested (suc f))
unfolding submit_nested
submit_nested-enough zero me type side price qty few = absurd (omega (arith, few))
submit_nested-enough (suc f) me type side price qty few =
    submit_with-Agrees f (submit_nested f) (submit_nested (suc f)) (submit_nested-enough f)
      (submit_nested-Keeps f) me type side price qty few

-- The recursion of an order through the stops that its trades trigger never runs out of fuel: a
-- submission is one pass of the code whose triggered stops are submissions again, for every engine
-- and order.
pub submit_order_unfold :
    (me : Engine) (type : OrderType) (side : Side) (price : ℤ) (qty : ℕ)
    → submit_order me type side price qty
      ≡ submit_with (check_stops submit_order) me type side price qty
unfolding submit_order submit_nested
submit_order_unfold me type side price qty =
    submit_nested-enough 257 me type side price qty
      (omega (arith, active_count-le max_stops me.stops))

-- Counted.
pub submit_order-IsCounted :
    (me : Engine) (type : OrderType) (side : Side) (price : ℤ) (qty : ℕ)
    → IsCounted me
    → IsCounted (submit_order me type side price qty).0
      × (active (submit_order me type side price qty).0 ≤ active me)
unfolding submit_order
submit_order-IsCounted me type side price qty c =
    let kept = submit_nested-Keeps 257 me type side price qty in (kept.counted c, kept.fewer)
