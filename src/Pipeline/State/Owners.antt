-- ===== src/Pipeline/State/Owners.antt =====
-- The map from the engine's order ids to accounts.
use profit_playground.Common.{
  ℕ, zero, suc, ◌+◌, ◌<◌, ◌≤◌, ◌≡◌, ◌≢◌, refl, subst, arith, false, leb, update, update_self,
}
use profit_playground.Common.Int.{ℤ}
use profit_playground.Book.State.{Side}
use profit_playground.Pipeline.State.{
  Pipeline, Owner, max_id_map, id_map_remember, owner_from, lookup_account,
}

owner_from-missing :
    (m : ℕ → Owner) (n i id : ℕ)
    → ((j : ℕ) → i ≤ j → j < i + n → (m j).server_order_id ≢ id)
    → owner_from m n i id ≡ 0
unfolding owner_from
owner_from-missing m zero i id h = refl
owner_from-missing m (suc n) i id h = ground (
  arith,
  h i (omega arith) (omega arith),
  owner_from-missing m n (i + 1) id (λ j low high. h j (omega (arith, low)) (omega (arith, high))),
)

-- The entry behind the others is found where none of them has the id.
owner_from-new :
    (m : ℕ → Owner) (n i id : ℕ) (o : Owner)
    → ((j : ℕ) → i ≤ j → j < i + n → (m j).server_order_id ≢ id)
    → o.server_order_id ≡ id
    → owner_from (update m (i + n) o) (suc n) i id ≡ o.account_id
unfolding owner_from
owner_from-new m zero i id o h e = ground (arith, e, update_self m i o)
owner_from-new m (suc n) i id o h e = ground (
  arith,
  h i (omega arith) (omega arith),
  owner_from-new m n (i + 1) id o (λ j low high. h j (omega (arith, low)) (omega (arith, high))) e,
)

-- An entry that is found is found whatever is written behind it.
owner_from-old :
    (m : ℕ → Owner) (n i id : ℕ) (o : Owner)
    → owner_from m n i id ≢ 0
    → owner_from (update m (i + n) o) (suc n) i id ≡ owner_from m n i id
unfolding owner_from
owner_from-old m zero i id o h = absurd (h refl)
owner_from-old m (suc n) i id o h = ground (arith, h, owner_from-old m n (i + 1) id o)

-- While the id map has room, remembering an id that it does not hold makes its account the one
-- that is looked up for it, and no account that was found for an id before changes.
lookup_account-remember :
    (pl : Pipeline) (id account_id : ℕ) (side : Side) (price : ℤ) (qty : ℕ)
    → pl.id_map_count < max_id_map
    → let pl' = id_map_remember pl id account_id side price qty in
      (((j : ℕ) → j < pl.id_map_count → (pl.id_map j).server_order_id ≢ id)
        → lookup_account pl' id ≡ account_id)
      × ((other : ℕ)
          → lookup_account pl other ≢ 0
          → lookup_account pl' other ≡ lookup_account pl other)
unfolding lookup_account id_map_remember
lookup_account-remember pl id account_id side price qty room =
    let n = pl.id_map_count in
    let o : Owner = record {
      server_order_id = id;
      account_id = account_id;
      side = side;
      price = price;
      qty = qty;
    } in
    let free : leb max_id_map n ≡ false = ground (arith, room) in
    let at : 0 + n ≡ n = omega arith in
    let next : n + 1 ≡ suc n = omega arith in
    rw (free, next)
      (
        (λ new.
            subst (λ k. owner_from (update pl.id_map k o) (suc n) 0 id ≡ account_id) at
              (owner_from-new pl.id_map n 0 id o (λ j low high. new j (omega (arith, high))) refl)),
        (λ other known.
            subst
              (λ k.
                owner_from (update pl.id_map k o) (suc n) 0 other ≡ owner_from pl.id_map n 0 other)
              at (owner_from-old pl.id_map n 0 other o known)),
      )
