-- ===== src/Pipeline/Portfolio/Value.antt =====
-- What a fill does to an account: cash, position, and the value at the average price.
use native.Mathlib.Decide.{dec_lt}
use profit_playground.Common.{
  ℕ, ◌+◌, ◌*◌, ◌/◌, ◌^◌, ◌<◌, ◌≡◌, refl, ◌∙◌, ◌≢◌, inl, inr, true, false, Bool-cases, arith,
  if◌then◌else◌, ◌||◌,
}
use profit_playground.Common.Int.{
  ℤ, pos, neg, ◌+ℤ◌, ◌-ℤ◌, ◌*ℤ◌, ◌≤ℤ◌, pos_part, nat_abs, int_laws, +ℤ_parts, neg_parts,
  eq_of_parts, eqb_ℤ,
}
use profit_playground.Common.Int.Algebra.{
  *ℤ-neg, *ℤ_comm, +ℤ-*ℤ, -ℤ-*ℤ, pos-nat_abs, pos-nat_abs-neg, *ℤ_parts, *ℤ-pos, pos-+ℤ,
  div_pos-pos,
}
use profit_playground.Common.Words.{to_i64}
use profit_playground.Book.State.{Side, opposite, is_bid}
use profit_playground.Pipeline.Portfolio.{
  Portfolio, on_fill, signed_qty, pnl_per, close_qty, closed_avg, same_sign, is_pos, vwap,
}

-- A fill adds the signed quantity to the position.
pub net_qty-on_fill :
    (p : Portfolio) (side : Side) (price : ℤ) (qty : ℕ)
    → (on_fill p side price qty).net_qty ≡ p.net_qty +ℤ signed_qty side qty
unfolding on_fill
net_qty-on_fill p side price qty = ground arith

-- A fill takes price times signed quantity out of the cash.
pub cash-on_fill :
    (p : Portfolio) (side : Side) (price : ℤ) (qty : ℕ)
    → (on_fill p side price qty).cash ≡ p.cash -ℤ price *ℤ signed_qty side qty
unfolding on_fill signed_qty
cash-on_fill p side price qty =
    elim (Bool-cases (eqb_ℤ p.net_qty (pos 0) || same_sign p.net_qty (signed_qty side qty))) [
      | inl opens ↦ rw (opens, on_fill) (spent side)
      | inr closes ↦ rw (closes, on_fill) (spent side)
    ]
  where
    spent :
        (s : Side)
        → p.cash +ℤ (if is_bid s then neg (price *ℤ to_i64 qty) else price *ℤ to_i64 qty)
          ≡ p.cash -ℤ price *ℤ signed_qty s qty
    spent Side.bid = omega int_laws
    spent Side.ask = rw (*ℤ-neg price (to_i64 qty)) (omega int_laws)
    spent Side.count = rw (*ℤ-neg price (to_i64 qty)) (omega int_laws)

signed_qty-opposite :
    (side : Side) (qty : ℕ)
    → side ≢ Side.count
    → signed_qty (opposite side) qty ≡ neg (signed_qty side qty)
unfolding signed_qty
signed_qty-opposite Side.bid qty h = refl
signed_qty-opposite Side.ask qty h = omega (int_laws, neg_parts (neg (to_i64 qty)))
signed_qty-opposite Side.count qty h = absurd (h refl)

-- Both legs of a trade, on a real side and its opposite, leave the sum of the cash and the sum of
-- the positions of the two accounts as they were.
pub legs_conserve :
    (a b : Portfolio) (side : Side) (price : ℤ) (qty : ℕ)
    → side ≢ Side.count
    → let a' = on_fill a side price qty in
      let b' = on_fill b (opposite side) price qty in
      (a'.cash +ℤ b'.cash ≡ a.cash +ℤ b.cash) × (a'.net_qty +ℤ b'.net_qty ≡ a.net_qty +ℤ b.net_qty)
legs_conserve a b side price qty h = (
  rw
      (
        cash-on_fill a side price qty,
        cash-on_fill b (opposite side) price qty,
        signed_qty-opposite side qty h,
        *ℤ-neg price (signed_qty side qty),
      )
      (omega int_laws),
  rw
      (
        net_qty-on_fill a side price qty,
        net_qty-on_fill b (opposite side) price qty,
        signed_qty-opposite side qty h,
      )
      (omega int_laws),
)

-- The account's value with the position at its average price, less the profit already realised.
abbrev pub book_value : Portfolio → ℤ
book_value p = p.cash +ℤ p.net_qty *ℤ p.avg_price -ℤ p.realised_pnl

module _ (cash net sq avg price realised : ℤ) where
  abbrev after_close : ℤ → ℤ → ℕ → ℤ
  after_close avg' per closed =
      cash -ℤ price *ℤ sq +ℤ (net +ℤ sq) *ℤ avg' -ℤ (realised +ℤ per *ℤ pos closed)

  -- The slice that is closed is the whole fill.
  close_part :
      (per closed : ℤ)
      → per *ℤ closed ≡ price *ℤ neg sq -ℤ avg *ℤ neg sq
      → cash -ℤ price *ℤ sq +ℤ (net +ℤ sq) *ℤ avg -ℤ (realised +ℤ per *ℤ closed)
        ≡ cash +ℤ net *ℤ avg -ℤ realised
  close_part per closed e =
      rw (e, +ℤ-*ℤ net sq avg, *ℤ-neg price sq, *ℤ-neg avg sq, *ℤ_comm sq avg) (omega int_laws)

  -- The slice that is closed is the whole position.
  close_flip :
      (per closed : ℤ)
      → per *ℤ closed ≡ price *ℤ net -ℤ avg *ℤ net
      → cash -ℤ price *ℤ sq +ℤ (net +ℤ sq) *ℤ price -ℤ (realised +ℤ per *ℤ closed)
        ≡ cash +ℤ net *ℤ avg -ℤ realised
  close_flip per closed e =
      rw (e, +ℤ-*ℤ net sq price, *ℤ_comm sq price, *ℤ_comm net price, *ℤ_comm net avg)
        (omega int_laws)

  -- The profit on `closed` units, whichever way the position points.
  pnl_long : is_pos net ≡ true → (c : ℤ) → pnl_per net avg price *ℤ c ≡ price *ℤ c -ℤ avg *ℤ c
  unfolding pnl_per
  pnl_long h c = rw h (-ℤ-*ℤ price avg c)

  pnl_short : is_pos net ≡ false → (c : ℤ) → pnl_per net avg price *ℤ neg c ≡ price *ℤ c -ℤ avg *ℤ c
  unfolding pnl_per
  pnl_short h c = rw (h, *ℤ-neg (avg -ℤ price) c, -ℤ-*ℤ avg price c) (omega int_laws)

  -- The fill points against the position.
  record Closes : Type 0 where
    open_ : net ≢ pos 0
    against : same_sign net sq ≡ false

  pnl_sq : Closes → pnl_per net avg price *ℤ pos (nat_abs sq) ≡ price *ℤ neg sq -ℤ avg *ℤ neg sq
  pnl_sq v = elim (Bool-cases (is_pos net)) [
    | inl long ↦ rw (pos-nat_abs-neg sq (ground (arith, v.against))) (pnl_long long (neg sq))
    | inr short ↦ rw (the_abs (ground (arith, v.against, v.open_))) (pnl_short short (neg sq))
  ]
    where
      the_abs : pos 0 ≤ℤ sq → pos (nat_abs sq) ≡ neg (neg sq)
      the_abs h = pos-nat_abs sq h ∙ omega (int_laws, neg_parts (neg sq))

  pnl_net : Closes → pnl_per net avg price *ℤ pos (nat_abs net) ≡ price *ℤ net -ℤ avg *ℤ net
  pnl_net v = elim (Bool-cases (is_pos net)) [
    | inl long ↦ rw (pos-nat_abs net (ground arith)) (pnl_long long net)
    | inr short ↦ rw (pos-nat_abs-neg net (ground arith)) (pnl_short short net)
  ]

  -- The three outcomes: the position shrinks, goes to zero, or turns round.
  shrinks :
      Closes
      → nat_abs sq < nat_abs net
      → (closed_avg sq net (net +ℤ sq) avg price ≡ avg) × (close_qty sq net ≡ nat_abs sq)
  unfolding closed_avg close_qty
  shrinks v h = ground (arith, +ℤ_parts net sq, v.against, v.open_)

  turns :
      Closes
      → nat_abs net < nat_abs sq
      → (closed_avg sq net (net +ℤ sq) avg price ≡ price) × (close_qty sq net ≡ nat_abs net)
  unfolding closed_avg close_qty
  turns v h = ground (arith, +ℤ_parts net sq, v.against, v.open_)

  vanishes :
      Closes → nat_abs net ≡ nat_abs sq → (close_qty sq net ≡ nat_abs sq) × (net +ℤ sq ≡ pos 0)
  unfolding close_qty
  vanishes v h = (
    ground arith,
    eq_of_parts (net +ℤ sq) (pos 0) (ground (arith, +ℤ_parts net sq, v.against, v.open_)),
  )

  zero-*ℤ : (a b : ℤ) → pos 0 *ℤ a ≡ pos 0 *ℤ b
  zero-*ℤ a b = omega (int_laws, *ℤ_parts (pos 0) a, *ℤ_parts (pos 0) b)

  close_value :
      Closes
      → cash
          -ℤ price *ℤ sq
          +ℤ (net +ℤ sq) *ℤ closed_avg sq net (net +ℤ sq) avg price
          -ℤ (realised +ℤ pnl_per net avg price *ℤ pos (close_qty sq net))
        ≡ cash +ℤ net *ℤ avg -ℤ realised
  close_value v = elim (dec_lt (nat_abs sq) (nat_abs net)) [
    | yes less ↦ rw ((shrinks v less).0, (shrinks v less).1) (close_part _ _ (pnl_sq v))
    | no not_less ↦ elim (dec_lt (nat_abs net) (nat_abs sq)) [
      | yes more ↦ rw ((turns v more).0, (turns v more).1) (close_flip _ _ (pnl_net v))
      | no same ↦
          let (closed, gone) = vanishes v (omega arith) in
          rw (closed, gone, zero-*ℤ (closed_avg sq net (pos 0) avg price) avg)
            (rw (← gone) (close_part _ _ (pnl_sq v)))
    ]
  ]

booked :
    (p : Portfolio) (side : Side) (price : ℤ) (qty : ℕ)
    → p.net_qty ≢ pos 0
    → same_sign p.net_qty (signed_qty side qty) ≡ false
    → let sq = signed_qty side qty in
      let q = on_fill p side price qty in
      (q.avg_price ≡ closed_avg sq p.net_qty (p.net_qty +ℤ sq) p.avg_price price)
      × (q.realised_pnl
          ≡ p.realised_pnl +ℤ pnl_per p.net_qty p.avg_price price *ℤ pos (close_qty sq p.net_qty))
unfolding on_fill closed_avg
booked p side price qty h against =
    let closes : (eqb_ℤ p.net_qty (pos 0) || same_sign p.net_qty (signed_qty side qty)) ≡ false =
      rw against (ground (arith, eq_of_parts p.net_qty (pos 0))) in
    (rw (on_fill, closes), rw (on_fill, closes))

-- A fill against an open position, whether it reduces, closes or turns it, leaves the cash plus
-- the position at average price less the realised profit as it was.
pub on_fill-closes :
    (p : Portfolio) (side : Side) (price : ℤ) (qty : ℕ)
    → p.net_qty ≢ pos 0
    → same_sign p.net_qty (signed_qty side qty) ≡ false
    → book_value (on_fill p side price qty) ≡ book_value p
on_fill-closes p side price qty h against =
    rw
      (
        cash-on_fill p side price qty,
        net_qty-on_fill p side price qty,
        (booked p side price qty h against).0,
        (booked p side price qty h against).1,
      )
      (close_value p.cash p.net_qty (signed_qty side qty) p.avg_price price p.realised_pnl
        (record { open_ = h; against = against }))

module _ (p : Portfolio) (side : Side) (price : ℤ) (qty : ℕ) (some_qty : 0 < qty)
    (fits : qty < 2 ^ 63)
    (opens : (eqb_ℤ p.net_qty (pos 0) || same_sign p.net_qty (signed_qty side qty)) ≡ true) where
  positive : to_i64 qty ≡ pos qty
  positive = ground arith

  grows : nat_abs (p.net_qty +ℤ signed_qty side qty) ≡ nat_abs p.net_qty + qty
  unfolding signed_qty ◌+ℤ◌ neg
  grows = ground (arith, opens)

  cost :
      pos 0 ≤ℤ p.avg_price
      → pos 0 ≤ℤ price
      → p.avg_price *ℤ pos (nat_abs p.net_qty) +ℤ price *ℤ to_i64 qty
        ≡ pos (pos_part p.avg_price * nat_abs p.net_qty + pos_part price * qty)
  cost h k =
      rw (positive, *ℤ-pos p.avg_price (nat_abs p.net_qty) h, *ℤ-pos price qty k) (pos-+ℤ _ _)

  -- A fill of a positive 63-bit quantity that opens or extends a position, at prices that are not
  -- negative, adds its size to the position, realises nothing, and sets the average price to the
  -- total cost over the total size, rounded down.
  pub on_fill-extends :
      pos 0 ≤ℤ p.avg_price
      → pos 0 ≤ℤ price
      → let q = on_fill p side price qty in
        (nat_abs q.net_qty ≡ nat_abs p.net_qty + qty)
        × (q.realised_pnl ≡ p.realised_pnl)
        × (q.avg_price
            ≡ pos (
                (pos_part p.avg_price * nat_abs p.net_qty + pos_part price * qty)
                / (nat_abs p.net_qty + qty)))
  unfolding on_fill vwap
  on_fill-extends h k = (
    rw (net_qty-on_fill p side price qty) grows,
    rw (opens, on_fill),
    rw (opens, on_fill)
        (rw
          (
            grows,
            cost h k,
            div_pos-pos (pos_part p.avg_price * nat_abs p.net_qty + pos_part price * qty)
                (nat_abs p.net_qty + qty),
          )
          (ground arith)),
  )
