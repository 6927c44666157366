-- ===== src/Pipeline/Risk/Limits.antt =====
-- The risk check: what it asks of an order, what it reserves, and what it counts.
use profit_playground.Common.{
  subst, Option, ℕ, ◌+◌, ◌*◌, ◌/◌, ◌%◌, ◌^◌, ◌<◌, ◌≤◌, ◌≡◌, ◌≢◌, ◌⊎◌, ◌↔◌, inl, inr, sym, true,
  false, arith, none, Bool-cases,
}
use profit_playground.Common.Int.{
  ℤ, pos, negsuc, pos_part, ◌-ℤ◌, ◌≤ℤ◌, ◌<ℤ◌, nat_abs, eq_of_parts, eqb_ℤ,
}
use profit_playground.Common.Int.Algebra.{*ℤ-pos, rem_pos-pos, div_pos-pos}
use Prim.Native.String.{String}
use profit_playground.Orders.State.{OrderType}
use profit_playground.Pipeline.Portfolio.{Portfolio, reserve, is_pos}
use profit_playground.Pipeline.Portfolio.Reserve.{WithinLimits, Reserved, reserve_lem}
use profit_playground.Pipeline.Message.{Action, OrderEvent}
use profit_playground.Pipeline.Risk.{Risk, check, off_tick, too_far, band, reserve_price}

-- The order types with a limit price of their own.
abbrev pub HasLimit : OrderType → Type 0
HasLimit type =
    (type ≡ OrderType.limit)
    ⊎ (type ≡ OrderType.ioc)
    ⊎ (type ≡ OrderType.fok)
    ⊎ (type ≡ OrderType.stop_limit)

-- The price that an order without one is taken at: the last price, or 1 while none is known.
abbrev pub Reference : Risk → ℤ → ℤ → Type 0
Reference r price px =
    ((pos 0 <ℤ price) × (px ≡ price))
    ⊎ ((price ≤ℤ pos 0) × (r.last_trade_price ≢ pos 0) × (px ≡ r.last_trade_price))
    ⊎ ((price ≤ℤ pos 0) × (r.last_trade_price ≡ pos 0) × (px ≡ pos 1))

-- What a new order has to meet, at the price `px`: the tick grid where the tick exceeds 1, the band
-- round a known last price, in basis points, and the limits of the account.
pub record Sound (r : Risk) (p : Portfolio) (ev : OrderEvent) (px : ℤ) : Type 0 where
  pub on_tick :
      pos 1 <ℤ r.tick_size → pos 0 <ℤ ev.price → pos_part ev.price % pos_part r.tick_size ≡ 0
  pub in_band :
      pos 0 <ℤ r.last_trade_price
      → 0 < r.fat_finger_bps
      → pos 0 <ℤ ev.price
      → HasLimit ev.type
      → nat_abs (ev.price -ℤ r.last_trade_price) * 10000
        ≤ pos_part r.last_trade_price * r.fat_finger_bps
  pub limits : WithinLimits p ev.side px ev.qty

on_tick_iff :
    (r : Risk) (price : ℤ)
    → (off_tick r price ≡ false)
      ↔ (pos 1 <ℤ r.tick_size → pos 0 <ℤ price → pos_part price % pos_part r.tick_size ≡ 0)
unfolding off_tick
on_tick_iff r (pos n) = (
  λ h tick positive. ground (arith, h, rem_pos-pos n (pos_part r.tick_size)),
  λ h. ground (arith, h, rem_pos-pos n (pos_part r.tick_size)),
)
on_tick_iff r (negsuc n) = ((λ h tick positive. absurd (omega arith)), λ h. ground arith)

band-known :
    (r : Risk)
    → pos 0 <ℤ r.last_trade_price
    → band r ≡ pos (pos_part r.last_trade_price * r.fat_finger_bps / 10000)
unfolding band
band-known r known =
    rw (*ℤ-pos r.last_trade_price r.fat_finger_bps (omega (arith, known)))
      (div_pos-pos (pos_part r.last_trade_price * r.fat_finger_bps) 10000)

-- A distance within the band, and the same in basis points.
within_band :
    (r : Risk) (d : ℕ)
    → pos 0 <ℤ r.last_trade_price
    → (pos d ≤ℤ band r) ↔ (d * 10000 ≤ pos_part r.last_trade_price * r.fat_finger_bps)
within_band r d known = rw (band-known r known) ((λ h. omega (arith, h)), λ h. omega (arith, h))

in_band_iff :
    (r : Risk) (type : OrderType) (price : ℤ)
    → (too_far r type price ≡ false) ↔ (
        pos 0 <ℤ r.last_trade_price
        → 0 < r.fat_finger_bps
        → pos 0 <ℤ price
        → HasLimit type
        → nat_abs (price -ℤ r.last_trade_price) * 10000
          ≤ pos_part r.last_trade_price * r.fat_finger_bps)
unfolding too_far
in_band_iff r type price = (
  λ h known on positive has.
      (within_band r (nat_abs (price -ℤ r.last_trade_price)) known).0
        (ground (arith, h, known, on, positive, has)),
  λ near. elim (Bool-cases (too_far r type price)) [
    | inr fine ↦ fine
    | inl far ↦
        let known : pos 0 <ℤ r.last_trade_price = ground (arith, far) in
        let has : HasLimit type = ground (arith, far) in
        let close =
          (within_band r (nat_abs (price -ℤ r.last_trade_price)) known).1
            (near known (ground (arith, far)) (ground (arith, far)) has) in
        ground (arith, far, close)
  ],
)

Reference-reserve_price : (r : Risk) (price : ℤ) → Reference r price (reserve_price r price)
unfolding reserve_price
Reference-reserve_price r price = elim (Bool-cases (is_pos price)) [
  | inl positive ↦ inl (ground (arith, positive), ground (arith, positive))
  | inr other ↦ elim (Bool-cases (eqb_ℤ r.last_trade_price (pos 0))) [
    | inl unknown ↦ inr (
        inr (
          ground (arith, other),
          eq_of_parts r.last_trade_price (pos 0) (ground (arith, unknown)),
          ground (arith, other, unknown),
        ))
    | inr known ↦
        inr (
          inl
            (ground (arith, other), (λ e. ground (arith, known, e)), ground (arith, other, known)))
  ]
]

-- An order that passes, with what its account and the counters are then.
abbrev pub Passed : Risk → Portfolio → OrderEvent → ℤ → (Risk × Portfolio) × Option String → Type 0
Passed r p ev px ((r', p'), reason) =
    (reason ≡ none)
    × Sound r p ev px
    × Reserved p ev.side px ev.qty p'
    × (r' ≡ record r { accepted = (r.accepted + 1) % 2 ^ 64 })

-- An order that is refused.
abbrev pub Failed : Risk → Portfolio → OrderEvent → ℤ → (Risk × Portfolio) × Option String → Type 0
Failed r p ev px ((r', p'), reason) =
    (reason ≢ none)
    × ¬ (Sound r p ev px)
    × (p' ≡ p)
    × (r' ≡ record r { rejected = (r.rejected + 1) % 2 ^ 64 })

module _ (r : Risk) (p : Portfolio) (ev : OrderEvent) (new : ev.action ≡ Action.new) where
  check-off_tick :
      off_tick r ev.price ≡ true → Failed r p ev (reserve_price r ev.price) (check r p ev)
  unfolding check
  check-off_tick off = (
    (λ e. ground (arith, new, off, e)),
    (λ s. ground (arith, off, (on_tick_iff r ev.price).1 s.on_tick)),
    ground (arith, new, off),
    ground (arith, new, off),
  )

  check-too_far :
      off_tick r ev.price ≡ false
      → too_far r ev.type ev.price ≡ true
      → Failed r p ev (reserve_price r ev.price) (check r p ev)
  unfolding check
  check-too_far on far = (
    (λ e. ground (arith, new, on, far, e)),
    (λ s. ground (arith, far, (in_band_iff r ev.type ev.price).1 s.in_band)),
    ground (arith, new, on, far),
    ground (arith, new, on, far),
  )

  check-limits :
      off_tick r ev.price ≡ false
      → too_far r ev.type ev.price ≡ false
      → Passed r p ev (reserve_price r ev.price) (check r p ev)
        ⊎ Failed r p ev (reserve_price r ev.price) (check r p ev)
  unfolding check
  check-limits on near = elim (reserve_lem p ev.side (reserve_price r ev.price) ev.qty) [
    | inl (done, within, after) ↦
        let kept : (check r p ev).0.1 ≡ (reserve p ev.side (reserve_price r ev.price) ev.qty).0 =
          ground (arith, new, on, near, done) in
        inl (
          ground (arith, new, on, near, done),
          record {
            on_tick = (on_tick_iff r ev.price).0 on;
            in_band = (in_band_iff r ev.type ev.price).0 near;
            limits = within;
          },
          subst (Reserved p ev.side (reserve_price r ev.price) ev.qty) (sym kept) after,
          ground (arith, new, on, near, done),
        )
    | inr (failed, without, same) ↦ inr (
      (λ e. ground (arith, new, on, near, failed, e)),
      (λ s. without s.limits),
      ground (arith, new, on, near, failed, same),
      ground (arith, new, on, near, failed),
    )
  ]

  -- A new order is checked at a reference price: its own where that is positive, else the last
  -- price, or 1 while none is known. The check passes it exactly when it meets what is asked:
  -- where the tick exceeds 1, a positive price is a multiple of the tick; where the last price is
  -- positive and the band is not 0, a positive price of a LIMIT, IOC, FOK or STOP_LIMIT order
  -- differs from the last price, in ten-thousandths, by at most the last price times the basis
  -- points; and where they are set, the notional at the reference price and the position after a
  -- whole fill are within the limits of the account. An order that passes locks its notional if it
  -- is a bid and its quantity if not, and counts as accepted; any other leaves the account as it
  -- was and counts as rejected, both counters modulo 2^64.
  pub check-Sound :
      (px : ℤ) × Reference r ev.price px
      × (Passed r p ev px (check r p ev) ⊎ Failed r p ev px (check r p ev))
  check-Sound = (
    reserve_price r ev.price,
    Reference-reserve_price r ev.price,
    elim (Bool-cases (off_tick r ev.price)) [
      | inl off ↦ inr (check-off_tick off)
      | inr on ↦ elim (Bool-cases (too_far r ev.type ev.price)) [
        | inl far ↦ inr (check-too_far on far)
        | inr near ↦ check-limits on near
      ]
    ],
  )
