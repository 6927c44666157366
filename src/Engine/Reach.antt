-- ===== src/Engine/Reach.antt =====
-- The engine as a state machine: the calls of engine/matching_engine.h as steps, and what holds of
-- every state that they reach.
use profit_playground.Common.{ℕ, ◌≡◌, refl, arith, Bool}
use profit_playground.Common.Int.{ℤ}
use profit_playground.Book.State.{Side, Store}
use profit_playground.Orders.State.{OrderType}
use profit_playground.Engine.State.{Engine}
use profit_playground.Engine.Emit.{emit_order_event, maybe_emit_tob}
use profit_playground.Engine.Submit.{submit_order}
use profit_playground.Engine.Stops.{submit_stop, cancel_stop, expire_orders}
use profit_playground.Engine.Stops.Count.{IsCounted, active_count, Fewer-pool, pool}
use profit_playground.Engine.Stops.Nested.{submit_order-IsCounted}
use profit_playground.Engine.Stops.Life.{submit_stop-IsCounted}
use profit_playground.Engine.Stops.Leave.{Fewer-cancel_stop}
use profit_playground.Engine.Stops.Sweep.{Fewer-expire_orders}
use profit_playground.Engine.Manage.{me_init, me_cancel_order, me_modify_order, run_events}

-- One call.
pub data Step : Engine → Engine → Type 0 where
  submit :
      (me : Engine) (type : OrderType) (side : Side) (price : ℤ) (qty : ℕ)
      → Step me (submit_order me type side price qty).0
  stop :
      (me : Engine) (type : OrderType) (side : Side) (trigger limit : ℤ) (qty ttl_ns : ℕ)
      → Step me (submit_stop me type side trigger limit qty ttl_ns).0
  unstop : (me : Engine) (id : ℕ) → Step me (cancel_stop me id).0
  expire : (me : Engine) (now : ℕ) → Step me (expire_orders me now).0
  cancel : (me : Engine) (id : ℕ) → Step me (me_cancel_order me id).0
  modify :
      (me : Engine) (id : ℕ) (price : ℤ) (qty : ℕ) → Step me (me_modify_order me id price qty).0
  deliver : (me : Engine) → Step me (run_events me).0

-- The states that calls reach from a new engine.
pub data Reached : Engine → Type 0 where
  start : (s : Store) (has_handler : Bool) → Reached (me_init s has_handler)
  later : {me me' : Engine} → Reached me → Step me me' → Reached me'

pool-me_cancel_order : (me : Engine) (id : ℕ) → pool (me_cancel_order me id).0 ≡ pool me
unfolding me_cancel_order emit_order_event maybe_emit_tob
pool-me_cancel_order me id = ground arith

pool-me_modify_order :
    (me : Engine) (id : ℕ) (price : ℤ) (qty : ℕ)
    → pool (me_modify_order me id price qty).0 ≡ pool me
unfolding me_modify_order emit_order_event maybe_emit_tob
pool-me_modify_order me id price qty = ground arith

pool-run_events : (me : Engine) → pool (run_events me).0 ≡ pool me
unfolding run_events
pool-run_events me = ground arith

step-IsCounted : {me me' : Engine} → Step me me' → IsCounted me → IsCounted me'
step-IsCounted (submit me type side price qty) c =
    (submit_order-IsCounted me type side price qty c).0
step-IsCounted (stop me type side t l qty ttl) c = submit_stop-IsCounted me type side t l qty ttl c
step-IsCounted (unstop me id) c = (Fewer-cancel_stop me id).counted c
step-IsCounted (expire me now) c = (Fewer-expire_orders me now).counted c
step-IsCounted (cancel me id) c =
    (Fewer-pool me (me_cancel_order me id).0 (pool-me_cancel_order me id)).counted c
step-IsCounted (modify me id price qty) c =
    (Fewer-pool me (me_modify_order me id price qty).0
        (pool-me_modify_order me id price qty)).counted
      c
step-IsCounted (deliver me) c = (Fewer-pool me (run_events me).0 (pool-run_events me)).counted c

-- In every engine that calls of the engine reach from a new one, the stop counter is the number of
-- active slots of the stop pool.
pub Reached-IsCounted : {me : Engine} → Reached me → IsCounted me
unfolding me_init active_count
Reached-IsCounted (start s h) = refl
Reached-IsCounted (later r step) = step-IsCounted step (Reached-IsCounted r)
