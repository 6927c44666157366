-- ===== src/Engine/Submit/Outcome.antt =====
-- What an order that is let through comes to: its fills, the result, and the engine's totals.
use profit_playground.Common.{
  ℕ, ◌+◌, ◌%◌, ◌^◌, ◌<◌, ◌≤◌, ◌≡◌, refl, ap, ◌∙◌, inl, inr, arith, true, Bool-cases, if◌then◌else◌,
  ◌==◌, ◌&&◌, ◌||◌, not, List, [], ◌∷◌, length, All,
}
use profit_playground.Common.Int.{ℤ, leb_ℤ, pos}
use profit_playground.Common.Words.{add64, sub64, mul64, to_u64}
use profit_playground.Book.State.{
  Store, Side, Status, Match, opposite, max_orders, null_idx, is_invalid,
}
use profit_playground.Book.Manage.{add_order, match_and_rest, admit, Added, refused}
use profit_playground.Book.Pool.{order_pool_alloc}
use profit_playground.Book.Matching.{match_against_side}
use profit_playground.Book.Matching.Account.{Booked, Accepts, sum_qty, match_against_side-Booked}
use profit_playground.Orders.State.{OrderType, Request, is_ioc}
use profit_playground.Engine.State.{Engine, Result}
use profit_playground.Engine.Emit.{emit_order_event, emit_trade, maybe_emit_tob}
use profit_playground.Engine.Submit.{add_fills, average_price, cancel_remainder, conclude, execute}

-- What `ob_add_order` reports of an order for `qty`.
pub record Reported (side : Side) (price : ℤ) (qty : ℕ) (a : Added) : Type 0 where
  pub counted : a.mc ≡ length a.fills
  pub fits : a.mc ≤ max_orders
  pub at_most : a.mc < max_orders → sum_qty a.fills ≤ qty
  pub accepted : All (λ m. Accepts (opposite side) price m.price) a.fills

report :
    (side : Side) (price : ℤ) (qty : ℕ) (r : profit_playground.Book.Matching.Run) (st : Status)
    (id : ℕ)
    → Booked (opposite side) price qty r
    → Reported side price qty (record { status = st; out_id = id; fills = r.fills; mc = r.mc })
report side price qty r st id k = record {
  counted = k.counted;
  fits = k.fits;
  at_most = λ h. omega (arith, k.total h);
  accepted = k.accepted;
}

matched_lem :
    (s : Store) (oi : ℕ) (side : Side) (price : ℤ) (qty : ℕ)
    → qty < 2 ^ 64
    → Reported side price qty (match_and_rest true s oi side price qty).1
unfolding match_and_rest
matched_lem s oi side price qty word =
    let r = match_against_side true s (opposite side) price qty in
    let k = match_against_side-Booked s (opposite side) price qty word in
    elim (Bool-cases (r.qty_remain == 0)) [
      | inl done ↦ rw done (report side price qty r _ _ k)
      | inr more ↦ rw more (report side price qty r _ _ k)
    ]

-- An order of a 64-bit quantity that is added to a book reports the number of its fills, at most
-- as many as the buffer holds, all at prices that its limit accepts, of together at most its
-- quantity where the buffer is not full.
add_order-Reported :
    (s : Store) (side : Side) (price : ℤ) (qty expiry_ts : ℕ)
    → qty < 2 ^ 64
    → Reported side price qty (add_order true s side price qty expiry_ts).1
unfolding add_order
add_order-Reported s side price qty expiry_ts word =
    elim (Bool-cases (leb_ℤ price (pos 0) || qty == 0 || is_invalid side)) [
      | inl bad ↦ rw bad nothing
      | inr fine ↦ elim (Bool-cases (slot.1 == null_idx)) [
        | inl full ↦ rw (fine, full) nothing
        | inr free ↦
            rw (fine, free) (matched (admit s slot.0 slot.1 side price qty expiry_ts) slot.1)
      ]
    ]
  where
    slot : profit_playground.Book.State.Book × ℕ
    slot = order_pool_alloc s.book

    nothing : Reported side price qty refused
    nothing = record {
      counted = refl;
      fits = omega arith;
      at_most = λ h. omega arith;
      accepted = tt;
    }

    matched :
        (s' : Store) (oi : ℕ) → Reported side price qty (match_and_rest true s' oi side price qty).1
    matched s' oi = matched_lem s' oi side price qty word

-- The totals of the engine, as words.
abbrev totals : Engine → ℕ × ℕ
totals me = (me.total_trades, me.total_qty_traded)

module _ (me : Engine) where
  totals-maybe_emit_tob : totals (maybe_emit_tob me) ≡ totals me
  unfolding maybe_emit_tob
  totals-maybe_emit_tob = ground arith

  totals-cancel_remainder :
      (type : OrderType) (side : Side) (price : ℤ) (qty : ℕ) (out : Result)
      → totals (cancel_remainder me type side price qty out).0 ≡ totals me
  unfolding cancel_remainder emit_order_event
  totals-cancel_remainder type side price qty out = ground arith

  totals-conclude :
      (st : Status) (type : OrderType) (side : Side) (price : ℤ) (qty : ℕ) (out : Result)
      → totals (conclude st me type side price qty out).0 ≡ totals me
  unfolding conclude emit_order_event
  totals-conclude st type side price qty out = ground arith

  result-conclude :
      (st : Status) (type : OrderType) (side : Side) (price : ℤ) (qty : ℕ) (out : Result)
      → let out' = (conclude st me type side price qty out).1 in
        (out'.fills ≡ out.fills)
        × (out'.qty_filled ≡ out.qty_filled)
        × (out'.qty_remain ≡ out.qty_remain)
  unfolding conclude
  result-conclude st type side price qty out = ground arith

  result-cancel_remainder :
      (type : OrderType) (side : Side) (price : ℤ) (qty : ℕ) (out : Result)
      → let out' = (cancel_remainder me type side price qty out).1 in
        (out'.fills ≡ out.fills)
        × (out'.qty_filled ≡ out.qty_filled)
        × (out'.qty_remain ≡ (if is_ioc type && not (out.id == 0) then 0 else out.qty_remain))
  unfolding cancel_remainder
  result-cancel_remainder type side price qty out = ground arith

add_fills_lem :
    (ms : List Match) (me : Engine) (id : ℕ) (side : Side) (q v : ℕ)
    → q < 2 ^ 64
    → me.total_trades < 2 ^ 64
    → me.total_qty_traded < 2 ^ 64
    → let r = add_fills me id side q v ms in
      (r.1 ≡ (q + sum_qty ms) % 2 ^ 64)
      × (r.0.total_trades ≡ (me.total_trades + length ms) % 2 ^ 64)
      × (r.0.total_qty_traded ≡ (me.total_qty_traded + sum_qty ms) % 2 ^ 64)
unfolding add_fills emit_trade
add_fills_lem [] me id side q v a b c = (omega (arith, a), omega (arith, b), omega (arith, c))
add_fills_lem (m ∷ ms) me id side q v a b c =
    let (x, y, z) =
      add_fills_lem ms (emit_trade me id side m) id side (add64 q m.qty)
        (add64 v (mul64 (to_u64 m.price) m.qty)) (omega arith) (omega arith) (omega arith) in
    (omega (arith, x), omega (arith, y), omega (arith, z))

-- What the submission makes of the answer of the book.
pub record Settled (me : Engine) (type : OrderType) (side : Side) (price : ℤ) (qty : ℕ) (a : Added)
    (r : Engine × Result) : Type 0 where
  pub reported : Reported side price qty a
  pub fills : r.1.fills ≡ length a.fills
  pub filled : r.1.qty_filled ≡ sum_qty a.fills
  pub rest :
      r.1.qty_remain + r.1.qty_filled
      ≡ (if is_ioc type && not (a.out_id == 0) then r.1.qty_filled else qty)
  pub trades : r.0.total_trades ≡ (me.total_trades + length a.fills) % 2 ^ 64
  pub traded : r.0.total_qty_traded ≡ (me.total_qty_traded + sum_qty a.fills) % 2 ^ 64

-- For an order of a 64-bit quantity on an engine whose totals are 64-bit words, where the fills do
-- not reach the buffer, the result of a submission that is let through has the number and the sum
-- of the fills, all at prices that its limit accepts; the quantity is split into filled and
-- remaining, except that the remainder of an IOC order that has an id is 0; and the totals of the
-- engine grow by the trades and the quantity, modulo 2^64.
pub execute-Settled :
    (me : Engine) (type : OrderType) (side : Side) (price : ℤ) (qty : ℕ) (req : Request)
    → qty < 2 ^ 64
    → me.total_trades < 2 ^ 64
    → me.total_qty_traded < 2 ^ 64
    → (add_order true me.store side req.eff_price qty req.expiry_ts).1.mc < max_orders
    → Settled me type side req.eff_price qty
        (add_order true me.store side req.eff_price qty req.expiry_ts).1
        (execute me type side price qty req).0
unfolding execute
execute-Settled me type side price qty req word t1 t2 room =
    let (s, a) = add_order true me.store side req.eff_price qty req.expiry_ts in
    let k = add_order-Reported me.store side req.eff_price qty req.expiry_ts word in
    let (me1, filled, vwap) = add_fills (record me { store = s }) a.out_id side 0 0 a.fills in
    let (sum, trades, traded) =
      add_fills_lem a.fills (record me { store = s }) a.out_id side 0 0 (omega arith) t1 t2 in
    let out : Result = record {
      id = a.out_id;
      status = Status.ok;
      fills = a.mc;
      qty_filled = filled;
      qty_remain = sub64 qty filled;
      avg_price = average_price vwap filled;
    } in
    let (me2, out2) = cancel_remainder me1 type side price qty out in
    let (me3, out3) = conclude a.status me2 type side price qty out2 in
    let c = result-cancel_remainder me1 type side price qty out in
    let d = result-conclude me2 a.status type side price qty out2 in
    let same : totals (maybe_emit_tob me3) ≡ totals me1 =
      totals-maybe_emit_tob me3
      ∙ totals-conclude me2 a.status type side price qty out2
      ∙ totals-cancel_remainder me1 type side price qty out in
    let exact : filled ≡ sum_qty a.fills = omega (arith, sum, k.at_most room, word) in
    record {
      reported = k;
      fills = d.0 ∙ c.0 ∙ k.counted;
      filled = d.1 ∙ c.1 ∙ exact;
      rest = ground (arith, c.1, c.2, d.1, d.2, exact, k.at_most room, word);
      trades = ap (λ t. t.0) same ∙ trades;
      traded = ap (λ t. t.1) same ∙ traded;
    }
