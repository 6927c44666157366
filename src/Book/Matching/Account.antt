-- ===== src/Book/Matching/Account.antt =====
-- The accounts of `match_against_side`: quantities, the number of fills, and their prices.
use profit_playground.Common.{
  ℕ, zero, suc, ◌+◌, ◌^◌, ◌≤◌, ◌<◌, ◌≡◌, refl, ap, ◌∙◌, inl, inr, true, false, Bool-cases, arith,
  ◌==◌, ltb, ◌||◌, List, [], ◌∷◌, ◌++◌, length, length-append, ltb→lt, All,
}
use profit_playground.Common.Int.{ℤ, ◌≤ℤ◌}
use profit_playground.Common.Words.{sub64}
use profit_playground.Book.State.{
  Book, Side, Store, Match, Order, level, max_orders, null_idx, side_of,
}
use profit_playground.Book.Fifo.{level_dequeue}
use profit_playground.Book.Pool.{order_pool_free}
use profit_playground.Book.Matching.{
  Run, fill_qty, record_fill, take_fill, drop_filled, fill_head, fill_level, best_level, beyond,
  drop_empty, match_levels, match_against_side, match_rounds, fill_rounds,
}

abbrev pub sum_qty : List Match → ℕ
sum_qty [] = 0
sum_qty (m ∷ ms) = m.qty + sum_qty ms

length-snoc : (xs : List Match) (m : Match) → length (xs ++ m ∷ []) ≡ length xs + 1
length-snoc xs m = omega (arith, length-append xs (m ∷ []))

sum_qty-append : (xs ys : List Match) → sum_qty (xs ++ ys) ≡ sum_qty xs + sum_qty ys
sum_qty-append [] ys = omega arith
sum_qty-append (x ∷ xs) ys = omega (arith, sum_qty-append xs ys)

sum_qty-snoc : (xs : List Match) (m : Match) → sum_qty (xs ++ m ∷ []) ≡ sum_qty xs + m.qty
sum_qty-snoc xs m = omega (arith, sum_qty-append xs (m ∷ []))

-- A price of the resting side that an aggressor with this limit accepts: an ask at most, a bid at
-- least the limit.
abbrev pub Accepts : Side → ℤ → ℤ → Type 0
Accepts Side.ask limit price = price ≤ℤ limit
Accepts Side.bid limit price = limit ≤ℤ price
Accepts Side.count limit price = Unit {0}

All-append {ℓ κ} :
    {A : Type ℓ} (P : A → Type κ) (xs ys : List A) → All P xs → All P ys → All P (xs ++ ys)
All-append P [] ys h k = k
All-append P (x ∷ xs) ys h k = (h.0, All-append P xs ys h.1 k)

-- The loop's books after some rounds, started with `qty` to fill.
pub record Booked (opp : Side) (limit : ℤ) (qty : ℕ) (r : Run) : Type 0 where
  pub rest : r.qty_remain ≤ qty
  pub counted : r.mc ≡ length r.fills
  pub fits : r.mc ≤ max_orders
  pub total : r.mc < max_orders → r.qty_remain + sum_qty r.fills ≡ qty
  pub accepted : All (λ m. Accepts opp limit m.price) r.fills

price-level_dequeue :
    (b : Book) (li oi : ℕ) → (level (level_dequeue b li oi) li).price ≡ (level b li).price
unfolding level_dequeue
price-level_dequeue b li oi = ground arith

price-take_fill :
    (b : Book) (opp : Side) (li oi qty : ℕ)
    → (level (take_fill b opp li oi qty) li).price ≡ (level b li).price
unfolding take_fill
price-take_fill b Side.bid li oi qty = ground arith
price-take_fill b Side.ask li oi qty = ground arith
price-take_fill b Side.count li oi qty = ground arith

price-drop_filled :
    (s : Store) (li oi : ℕ) → (level (drop_filled s li oi).book li).price ≡ (level s.book li).price
unfolding drop_filled order_pool_free
price-drop_filled s li oi = ground (arith, price-level_dequeue s.book li oi)

book-record_fill :
    (r : Run) (o : Order) (price : ℤ) (qty : ℕ)
    → (record_fill true r o price qty).store.book ≡ r.store.book
unfolding record_fill
book-record_fill r o price qty = ground arith

qty_remain-record_fill :
    (r : Run) (o : Order) (price : ℤ) (qty : ℕ)
    → (record_fill true r o price qty).qty_remain ≡ r.qty_remain
unfolding record_fill
qty_remain-record_fill r o price qty = ground arith

-- The price of the level that is filled does not change.
price-fill_head :
    (opp : Side) (li : ℕ) (r : Run)
    → (level (fill_head true opp li r).store.book li).price ≡ (level r.store.book li).price
unfolding fill_head
price-fill_head opp li r =
    price-drop_filled _ li _
    ∙ price-take_fill _ opp li _ _
    ∙ ap (λ b. (level b li).price) (book-record_fill r _ _ _)

module _ (opp : Side) (limit : ℤ) (qty : ℕ) (word : qty < 2 ^ 64) (r : Run)
    (b : Booked opp limit qty r) where
  sub-fill :
      (have : ℕ)
      → sub64 r.qty_remain (fill_qty r.qty_remain have) + fill_qty r.qty_remain have ≡ r.qty_remain
  sub-fill have = ground (arith, b.rest)

  fill-le : (have : ℕ) → fill_qty r.qty_remain have ≤ r.qty_remain
  fill-le have = ground arith

  -- The books after a fill at an accepted price.
  book_fill :
      (s : Store) (o : Order) (price : ℤ) (have : ℕ)
      → Accepts opp limit price
      → let q = fill_qty r.qty_remain have in
        Booked opp limit qty
          (record (record_fill true r o price q) { store = s; qty_remain = sub64 r.qty_remain q })
  unfolding record_fill
  book_fill s o price have ok = elim (Bool-cases (ltb r.mc max_orders)) [
    | inl room ↦ rw room (record {
      rest = omega (arith, b.rest, sub-fill have);
      counted = omega (arith, b.counted, b.fits, ltb→lt r.mc max_orders room, length-snoc r.fills);
      fits = omega (arith, ltb→lt r.mc max_orders room);
      total = λ h.
          omega (arith, b.total (ltb→lt r.mc max_orders room), sum_qty-snoc r.fills, sub-fill have);
      accepted =
          All-append (λ (m : Match). Accepts opp limit m.price) r.fills _ b.accepted (ok, tt);
    })
    | inr full ↦ rw full (record {
      rest = omega (arith, b.rest, sub-fill have);
      counted = b.counted;
      fits = b.fits;
      total = λ h. ground (arith, full, h);
      accepted = b.accepted;
    })
  ]

-- One round keeps the books, at a level whose price is accepted.
fill_head-Booked :
    (opp : Side) (limit : ℤ) (qty li : ℕ) (r : Run)
    → qty < 2 ^ 64
    → Accepts opp limit (level r.store.book li).price
    → Booked opp limit qty r
    → Booked opp limit qty (fill_head true opp li r)
unfolding fill_head
fill_head-Booked opp limit qty li r word ok b =
    rw (qty_remain-record_fill r _ _ _) (book_fill opp limit qty word r b _ _ _ _ ok)

fill_level-Booked :
    (f : ℕ) (opp : Side) (limit : ℤ) (qty li : ℕ) (r : Run)
    → qty < 2 ^ 64
    → Accepts opp limit (level r.store.book li).price
    → Booked opp limit qty r
    → Booked opp limit qty (fill_level f true opp li r)
unfolding fill_level
fill_level-Booked zero opp limit qty li r word ok b = b
fill_level-Booked (suc f) opp limit qty li r word ok b =
    elim (Bool-cases (r.qty_remain == 0 || (level r.store.book li).head_idx == null_idx)) [
      | inl stop ↦ rw stop b
      | inr go ↦ rw go (
          fill_level-Booked f opp limit qty li (fill_head true opp li r) word
            (rw (price-fill_head opp li r) ok) (fill_head-Booked opp limit qty li r word ok b))
    ]

-- The test of the price boundary lets exactly the accepted prices through.
accepts_of_within :
    (opp : Side) (limit price : ℤ) → beyond opp price limit ≡ false → Accepts opp limit price
accepts_of_within Side.bid limit price h = ground (arith, h)
accepts_of_within Side.ask limit price h = ground (arith, h)
accepts_of_within Side.count limit price h = tt

match_levels-Booked :
    (f g : ℕ) (opp : Side) (limit : ℤ) (qty : ℕ) (r : Run)
    → qty < 2 ^ 64
    → Booked opp limit qty r
    → Booked opp limit qty (match_levels f g true opp limit r)
unfolding match_levels
match_levels-Booked zero g opp limit qty r word b = b
match_levels-Booked (suc f) g opp limit qty r word b =
    elim (Bool-cases (r.qty_remain == 0 || (side_of r.store.book opp).root_idx == null_idx)) [
      | inl stop ↦ rw stop b
      | inr go ↦
          elim (Bool-cases (li == null_idx || beyond opp (level r.store.book li).price limit)) [
            | inl stop ↦ rw (go, stop) b
            | inr crossing ↦
                rw (go, crossing)
                  (match_levels-Booked f g opp limit qty _ word (
                    emptied (fill_level g true opp li r) (
                      fill_level-Booked g opp limit qty li r word
                        (accepts_of_within opp limit (level r.store.book li).price
                          (ground (arith, crossing)))
                        b)))
          ]
    ]
  where
    li : ℕ
    li = best_level r.store.book opp

    emptied :
        (q : Run)
        → Booked opp limit qty q
        → Booked opp limit qty
            (record q { store = record (q.store) { book = drop_empty q.store.book opp li } })
    emptied q k = record {
      rest = k.rest;
      counted = k.counted;
      fits = k.fits;
      total = k.total;
      accepted = k.accepted;
    }

-- For an aggressor of a 64-bit quantity, a match with a buffer for the fills counts its fills,
-- keeps them within the buffer, fills only at prices that the limit accepts, and, unless the
-- buffer is full, the fills and the remainder add up to the quantity.
pub match_against_side-Booked :
    (s : Store) (opp : Side) (limit : ℤ) (qty : ℕ)
    → qty < 2 ^ 64
    → Booked opp limit qty (match_against_side true s opp limit qty)
unfolding match_against_side
match_against_side-Booked s opp limit qty word =
    match_levels-Booked match_rounds fill_rounds opp limit qty _ word (record {
      rest = omega arith;
      counted = refl;
      fits = omega arith;
      total = λ h. omega arith;
      accepted = tt;
    })
