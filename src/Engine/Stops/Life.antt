-- ===== src/Engine/Stops/Life.antt =====
-- The life of a dormant stop: it takes a free slot, and leaves it by cancellation or expiry.
use profit_playground.Common.{
  sym, subst, true, update, ℕ, ◌<◌, ◌≡◌, ◌≢◌, ◌⊎◌, refl, ap, inl, inr, false, Option-cases, arith,
  update_self, update_ne,
}
use profit_playground.Common.Int.{ℤ}
use profit_playground.Common.Words.{add64}
use profit_playground.Book.State.{Side, Status, now_ns}
use profit_playground.Orders.State.{OrderType}
use profit_playground.Engine.State.{Engine, Result, max_stops}
use profit_playground.Engine.Emit.{emit_order_event}
use profit_playground.Engine.Stops.{
  find_free, refuse_stop, stop_error, new_stop, store_stop, submit_stop,
}
use profit_playground.Engine.Stops.Count.{
  active_count-le, active_count-update, bit, IsCounted, Fewer-pool, pool,
}
use Prim.Native.String.{String}
use profit_playground.Engine.Stops.Valid.{
  find_free_lem, Expiry, Expiry-new, IsFull, Valid, find_free-IsFull, stop_error-Valid,
  stop_error-not_Valid,
}

-- What a submission does to the pool: with no error and a free slot the stop goes into one, and
-- nothing else changes there.
pub record Stored (me me' : Engine) (type : OrderType) (side : Side) (trigger_price limit_price : ℤ)
    (qty ttl_ns id : ℕ) : Type 0 where
  pub slot : ℕ
  pub inside : slot < max_stops
  pub free : (me.stops slot).active ≡ false
  pub awake : (me'.stops slot).active ≡ true
  pub named : (me'.stops slot).id ≡ id
  pub on_side : (me'.stops slot).side ≡ side
  pub of_type : (me'.stops slot).orig_type ≡ type
  pub trigger : (me'.stops slot).trigger_price ≡ trigger_price
  pub limit : (me'.stops slot).limit_price ≡ limit_price
  pub quantity : (me'.stops slot).qty ≡ qty
  pub expiry : Expiry (now_ns me.store) ttl_ns (me'.stops slot).expiry_ts
  pub others : (j : ℕ) → j ≢ slot → me'.stops j ≡ me.stops j
  pub numbered : id ≡ me.store.book.next_order_id
  pub next : me'.store.book.next_order_id ≡ add64 id 1

store_stop-Stored :
    (me : Engine) (slot : ℕ) (type : OrderType) (side : Side) (t l : ℤ) (qty ttl : ℕ)
    → slot < max_stops
    → (me.stops slot).active ≡ false
    → let (me', out) = store_stop me slot type side t l qty ttl in
      Stored me me' type side t l qty ttl out.id
unfolding store_stop emit_order_event
store_stop-Stored me slot type side t l qty ttl inside free = record {
  slot = slot;
  inside = inside;
  free = free;
  awake = ap (λ o. o.active) written;
  named = ap (λ o. o.id) written;
  on_side = ap (λ o. o.side) written;
  of_type = ap (λ o. o.orig_type) written;
  trigger = ap (λ o. o.trigger_price) written;
  limit = ap (λ o. o.limit_price) written;
  quantity = ap (λ o. o.qty) written;
  expiry =
      subst (Expiry (now_ns me.store) ttl) (sym (ap (λ o. o.expiry_ts) written))
        (Expiry-new (now_ns me.store) ttl);
  others = λ j ne. update_ne me.stops slot _ j ne;
  numbered = refl;
  next = ground arith;
}
  where
    written :
        update me.stops slot (new_stop me type side t l qty ttl) slot
        ≡ new_stop me type side t l qty ttl
    written = update_self me.stops slot _

store_stop-IsCounted :
    (me : Engine) (slot : ℕ) (type : OrderType) (side : Side) (t l : ℤ) (qty ttl : ℕ)
    → slot < max_stops
    → (me.stops slot).active ≡ false
    → IsCounted me
    → IsCounted (store_stop me slot type side t l qty ttl).0
unfolding store_stop emit_order_event
store_stop-IsCounted me slot type side t l qty ttl inside free c =
    let counts =
      active_count-update max_stops slot me.stops (new_stop me type side t l qty ttl) inside in
    let zero_bit : bit (me.stops slot).active ≡ 0 = ap bit free in
    omega (arith, c, counts, zero_bit, active_count-le max_stops me.stops)

pool-refuse_stop :
    (me : Engine) (type : OrderType) (side : Side) (t : ℤ) (qty : ℕ) (reason : String)
    → pool (refuse_stop me type side t qty reason).0 ≡ pool me
unfolding refuse_stop emit_order_event
pool-refuse_stop me type side t qty reason = refl

-- What a refused stop leaves: the pool and the book.
abbrev pub Refused : Engine → Engine × Result → Type 0
Refused me r =
    (r.1.status ≡ Status.rejected)
    × (r.0.stops ≡ me.stops)
    × (r.0.stop_count ≡ me.stop_count)
    × (r.0.store.book ≡ me.store.book)

refuse_stop-Refused :
    (me : Engine) (type : OrderType) (side : Side) (t : ℤ) (qty : ℕ) (reason : String)
    → Refused me (refuse_stop me type side t qty reason)
unfolding refuse_stop emit_order_event
refuse_stop-Refused me type side t qty reason = (refl, refl, refl, refl)

module _ (me : Engine) (type : OrderType) (side : Side) (trigger_price limit_price : ℤ)
    (qty ttl_ns : ℕ) where
  -- A stop is accepted only with valid parameters: a quantity, a bid or ask side, a positive
  -- trigger price, and a limit price that is 0 for STOP and positive for STOP_LIMIT. It goes,
  -- active and with its fields, into a free slot below the capacity, under the next order id of
  -- the book, with an expiry of now and its time to live modulo 2^64, or 0 without one, and no
  -- other slot changes. Otherwise it is refused, because its parameters are not valid or every
  -- slot of the pool is active, and the pool and the book stay as they were.
  pub submit_stop_lem :
      let r = submit_stop me type side trigger_price limit_price qty ttl_ns in
      ((r.1.status ≡ Status.ok)
        × Valid type side trigger_price limit_price qty
        × Stored me r.0 type side trigger_price limit_price qty ttl_ns r.1.id)
      ⊎ (Refused me r × (¬ (Valid type side trigger_price limit_price qty) ⊎ IsFull me))
  unfolding submit_stop store_stop
  submit_stop_lem = elim (Option-cases (stop_error type side trigger_price limit_price qty)) [
    | inr (reason, bad) ↦
        rw (submit_stop, bad)
          (inr (
            refuse_stop-Refused me type side trigger_price qty reason,
            inl (
                stop_error-not_Valid type side trigger_price limit_price qty
                  (λ e. ground (arith, e, bad))),
          ))
    | inl fine ↦ elim (Option-cases (find_free me)) [
      | inl full ↦
          rw (submit_stop, fine, full)
            (inr (
              refuse_stop-Refused me type side trigger_price qty _,
              inr (find_free-IsFull me full),
            ))
      | inr (slot, found) ↦
          let (low, high, free) = find_free_lem me slot found in
          rw (submit_stop, fine, found)
            (inl (
              refl,
              stop_error-Valid type side trigger_price limit_price qty fine,
              store_stop-Stored me slot type side trigger_price limit_price qty ttl_ns high free,
            ))
    ]
  ]

pub submit_stop-IsCounted :
    (me : Engine) (type : OrderType) (side : Side) (t l : ℤ) (qty ttl : ℕ)
    → IsCounted me
    → IsCounted (submit_stop me type side t l qty ttl).0
unfolding submit_stop
submit_stop-IsCounted me type side t l qty ttl c =
    elim (Option-cases (stop_error type side t l qty)) [
      | inr (reason, bad) ↦
          rw (submit_stop, bad)
            ((Fewer-pool me (refuse_stop me type side t qty reason).0
                (pool-refuse_stop me type side t qty reason)).counted
              c)
      | inl fine ↦ elim (Option-cases (find_free me)) [
        | inl full ↦
            rw (submit_stop, fine, full)
              ((Fewer-pool me (refuse_stop me type side t qty "stop pool full").0
                  (pool-refuse_stop me type side t qty "stop pool full")).counted
                c)
        | inr (slot, found) ↦
            let (low, high, free) = find_free_lem me slot found in
            rw (submit_stop, fine, found)
              (store_stop-IsCounted me slot type side t l qty ttl high free c)
      ]
    ]
