-- ===== src/Pipeline/Portfolio/Reserve.antt =====
-- The limits of an account, and what is locked behind its working orders.
use profit_playground.Common.{◌≢◌, ◌⊎◌, ℕ, ◌≡◌, ◌↔◌, inl, inr, true, false, Bool-cases, arith}
use profit_playground.Common.Int.{ℤ, pos, ◌+ℤ◌, ◌-ℤ◌, ◌*ℤ◌, ◌≤ℤ◌, ◌<ℤ◌, nat_abs, int_laws}
use profit_playground.Common.Words.{to_i64}
use profit_playground.Book.State.{Side}
use profit_playground.Pipeline.Portfolio.{
  Portfolio, floor_zero, reserve, release, breaches, projected,
}

-- The order and the position that it would lead to lie within the limits that are set.
pub record WithinLimits (p : Portfolio) (side : Side) (price : ℤ) (qty : ℕ) : Type 0 where
  pub notional : pos 0 <ℤ p.max_order_notional → price *ℤ to_i64 qty ≤ℤ p.max_order_notional
  pub bought :
      side ≡ Side.bid
      → pos 0 <ℤ p.max_position
      → pos (nat_abs (p.net_qty +ℤ to_i64 qty)) ≤ℤ p.max_position
  pub sold :
      side ≢ Side.bid
      → pos 0 <ℤ p.max_position
      → pos (nat_abs (p.net_qty -ℤ to_i64 qty)) ≤ℤ p.max_position

-- What the order locks behind it: the notional of a bid, or the quantity of another order.
abbrev pub Reserved : Portfolio → Side → ℤ → ℕ → Portfolio → Type 0
Reserved p side price qty p' =
    ((side ≡ Side.bid)
      × (p' ≡ record p { open_buy_notional = p.open_buy_notional +ℤ price *ℤ to_i64 qty }))
    ⊎ ((side ≢ Side.bid) × (p' ≡ record p { open_sell_qty = p.open_sell_qty +ℤ to_i64 qty }))

module _ (p : Portfolio) (side : Side) (price : ℤ) (qty : ℕ) where
  breaches_iff : (breaches p side price qty ≡ false) ↔ WithinLimits p side price qty
  unfolding breaches projected
  breaches_iff = (
    λ h. record {
      notional = λ m. ground (arith, h);
      bought = λ e m. ground (arith, h, e);
      sold = λ e m. ground (arith, h, e);
    },
    λ w. ground (arith, w.notional, w.bought, w.sold),
  )

  reserve-Reserved :
      breaches p side price qty ≡ false → Reserved p side price qty (reserve p side price qty).0
  unfolding reserve
  reserve-Reserved fine = ground (arith, fine)

  -- A reservation succeeds exactly when the order keeps within the limits of the account, and one
  -- that fails changes nothing.
  pub reserve_lem :
      let (p', reserved) = reserve p side price qty in
      ((reserved ≡ true) × WithinLimits p side price qty × Reserved p side price qty p')
      ⊎ ((reserved ≡ false) × ¬ (WithinLimits p side price qty) × (p' ≡ p))
  unfolding reserve
  reserve_lem = elim (Bool-cases (breaches p side price qty)) [
    | inl bad ↦
        inr (ground (arith, bad), (λ w. ground (arith, bad, breaches_iff.1 w)), ground (arith, bad))
    | inr fine ↦ inl (ground (arith, fine), breaches_iff.0 fine, reserve-Reserved fine)
  ]

add-sub-floor : (a b : ℤ) → pos 0 ≤ℤ a → floor_zero (a +ℤ b -ℤ b) ≡ a
add-sub-floor a b h = rw (back a b) (ground arith)
  where
    back : (a b : ℤ) → a +ℤ b -ℤ b ≡ a
    back a b = omega int_laws

restored :
    (p : Portfolio) (side : Side) (price : ℤ) (qty : ℕ)
    → breaches p side price qty ≡ false
    → pos 0 ≤ℤ p.open_buy_notional
    → pos 0 ≤ℤ p.open_sell_qty
    → release (reserve p side price qty).0 side price qty ≡ p
unfolding reserve release
restored p Side.bid price qty fine b s =
    ground (arith, fine, add-sub-floor p.open_buy_notional (price *ℤ to_i64 qty))
restored p Side.ask price qty fine b s =
    ground (arith, fine, add-sub-floor p.open_sell_qty (to_i64 qty))
restored p Side.count price qty fine b s =
    ground (arith, fine, add-sub-floor p.open_sell_qty (to_i64 qty))

-- Releasing what an order has reserved restores an account whose reservations are not negative.
pub release-reserve :
    (p : Portfolio) (side : Side) (price : ℤ) (qty : ℕ)
    → (reserve p side price qty).1 ≡ true
    → pos 0 ≤ℤ p.open_buy_notional
    → pos 0 ≤ℤ p.open_sell_qty
    → release (reserve p side price qty).0 side price qty ≡ p
unfolding reserve release
release-reserve p side price qty h b s = elim (Bool-cases (breaches p side price qty)) [
  | inl bad ↦ absurd (ground (arith, h, bad))
  | inr fine ↦ restored p side price qty fine b s
]
