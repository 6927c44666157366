-- ===== src/Engine/Stops/Count.antt =====
-- The active slots of the pool of dormant stops, and their counter.
use native.Mathlib.Decide.{dec_lt}
use profit_playground.Common.{
  ℕ, zero, suc, ◌+◌, ◌<◌, ◌≤◌, ◌≡◌, refl, ap, ◌∙◌, Bool, true, false, arith, List, [], ◌∷◌, Option,
  update, update_self, update_ne,
}
use profit_playground.Common.Int.{ℤ}
use profit_playground.Book.State.{Side, Status, Match}
use profit_playground.Orders.State.{OrderType, Request}
use profit_playground.Engine.State.{Engine, EventType, Result, StopOrder, max_stops}
use profit_playground.Engine.Emit.{emit_order_event, emit_trade, maybe_emit_tob}
use Prim.Native.String.{String}
use profit_playground.Engine.Submit.{
  reject_order, add_fills, cancel_remainder, conclude, execute, deactivate,
}

abbrev pub bit : Bool → ℕ
bit true = 1
bit false = 0

-- The number of active slots below `n`.
unfoldable pub active_count : ℕ → (ℕ → StopOrder) → ℕ
active_count zero stops = 0
active_count (suc n) stops = active_count n stops + bit (stops n).active

pub active_count-le : (n : ℕ) (stops : ℕ → StopOrder) → active_count n stops ≤ n
unfolding active_count
active_count-le zero stops = omega arith
active_count-le (suc n) stops = ground (arith, active_count-le n stops)

active_count-update_out :
    (n i : ℕ) (stops : ℕ → StopOrder) (s : StopOrder)
    → n ≤ i
    → active_count n (update stops i s) ≡ active_count n stops
unfolding active_count
active_count-update_out zero i stops s h = refl
active_count-update_out (suc n) i stops s h =
    rw
      (
        update_ne stops i s n (λ e. omega (arith, h)),
        active_count-update_out n i stops s (omega (arith, h)),
      )
      refl

-- Writing a slot exchanges its bit.
pub active_count-update :
    (n i : ℕ) (stops : ℕ → StopOrder) (s : StopOrder)
    → i < n
    → active_count n (update stops i s) + bit (stops i).active ≡ active_count n stops + bit s.active
unfolding active_count
active_count-update zero i stops s h = absurd (omega (arith, h))
active_count-update (suc n) i stops s h = elim (dec_lt i n) [
  | yes below ↦
      rw (update_ne stops i s n (λ e. omega (arith, e, below)))
        (omega (arith, active_count-update n i stops s below))
  | no last ↦
      let same : i ≡ n = omega (arith, h, last) in
      rw (same, update_self stops n s, active_count-update_out n n stops s (omega arith))
        (omega arith)
]

-- The stops and their count.
abbrev pub Pool : Type 0
Pool = (ℕ → StopOrder) × ℕ

abbrev pub pool : Engine → Pool
pool me = (me.stops, me.stop_count)

pub pool-emit :
    (me : Engine) (type : EventType) (id : ℕ) (side : Side) (otype : OrderType) (price : ℤ)
    (a b c : ℕ) (reason : Option String)
    → pool (emit_order_event me type id side otype price a b c reason) ≡ pool me
unfolding emit_order_event
pool-emit me type id side otype price a b c reason = refl

pub pool-maybe_emit_tob : (me : Engine) → pool (maybe_emit_tob me) ≡ pool me
unfolding maybe_emit_tob
pool-maybe_emit_tob me = ground arith

pool-add_fills :
    (ms : List Match) (me : Engine) (id : ℕ) (side : Side) (q v : ℕ)
    → pool (add_fills me id side q v ms).0 ≡ pool me
unfolding add_fills emit_trade
pool-add_fills [] me id side q v = refl
pool-add_fills (m ∷ ms) me id side q v = pool-add_fills ms _ id side _ _

pool-cancel_remainder :
    (me : Engine) (type : OrderType) (side : Side) (price : ℤ) (qty : ℕ) (out : Result)
    → pool (cancel_remainder me type side price qty out).0 ≡ pool me
unfolding cancel_remainder emit_order_event
pool-cancel_remainder me type side price qty out = ground arith

pool-conclude :
    (st : Status) (me : Engine) (type : OrderType) (side : Side) (price : ℤ) (qty : ℕ)
    (out : Result)
    → pool (conclude st me type side price qty out).0 ≡ pool me
unfolding conclude emit_order_event
pool-conclude st me type side price qty out = ground arith

pub pool-execute :
    (me : Engine) (type : OrderType) (side : Side) (price : ℤ) (qty : ℕ) (req : Request)
    → pool (execute me type side price qty req).0.0 ≡ pool me
unfolding execute
pool-execute me type side price qty req =
    pool-maybe_emit_tob _
    ∙ pool-conclude _ _ _ _ _ _ _
    ∙ pool-cancel_remainder _ _ _ _ _ _
    ∙ pool-add_fills _ _ _ _ _ _

pub pool-reject_order :
    (me : Engine) (type : OrderType) (side : Side) (price : ℤ) (qty : ℕ) (req : Request)
    → pool (reject_order me type side price qty req).0 ≡ pool me
unfolding reject_order emit_order_event
pool-reject_order me type side price qty req = pool-maybe_emit_tob _

abbrev pub active : Engine → ℕ
active me = active_count max_stops me.stops

-- The counter is the number of active slots.
abbrev pub IsCounted : Engine → Type 0
IsCounted me = me.stop_count ≡ active me

-- What every step does: the counter stays right, and no slot becomes active.
pub record Fewer (me me' : Engine) : Type 0 where
  pub counted : IsCounted me → IsCounted me'
  pub fewer : active me' ≤ active me

pub Fewer-refl : (me : Engine) → Fewer me me
Fewer-refl me = record { counted = λ h. h; fewer = omega arith }

pub Fewer-trans : (a b c : Engine) → Fewer a b → Fewer b c → Fewer a c
Fewer-trans a b c f g = record {
  counted = λ h. g.counted (f.counted h);
  fewer = omega (arith, f.fewer, g.fewer);
}

pub Fewer-pool : (me me' : Engine) → pool me' ≡ pool me → Fewer me me'
Fewer-pool me me' e =
    let stops : me'.stops ≡ me.stops = ap (λ p. p.0) e in
    let count : me'.stop_count ≡ me.stop_count = ap (λ p. p.1) e in
    record { counted = λ h. rw (stops, count) h; fewer = rw stops (omega arith) }

-- Deactivating an active slot takes one off both.
pub active-deactivate :
    (me : Engine) (i : ℕ)
    → i < max_stops
    → (me.stops i).active ≡ true
    → suc (active (deactivate me i)) ≡ active me
unfolding deactivate
active-deactivate me i h on =
    let counts =
      active_count-update max_stops i me.stops (record (me.stops i) { active = false }) h in
    let one : bit (me.stops i).active ≡ 1 = ap bit on in omega (arith, counts, one)

pub Fewer-deactivate :
    (me : Engine) (i : ℕ) → i < max_stops → (me.stops i).active ≡ true → Fewer me (deactivate me i)
unfolding deactivate
Fewer-deactivate me i h on = record {
  counted = λ c. omega (arith, c, active-deactivate me i h on, active_count-le max_stops me.stops);
  fewer = omega (arith, active-deactivate me i h on);
}
