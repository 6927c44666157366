-- ===== src/Pipeline/Idem/Recall.antt =====
-- The idempotency cache as a map from keys to server ids.
use profit_playground.Common.{
  ℕ, zero, suc, ◌≡◌, refl, ap, ◌∙◌, ◌≢◌, ◌⊎◌, inl, inr, Bool-cases, arith, ◌==◌, none, some,
  update_self, update_ne, ==_iff,
}
use profit_playground.Pipeline.Idem.{
  Slot, Cache, find_from, insert_from, idem_find, idem_insert, next_slot, idem_cap, idem_hash,
}

-- Some slot among the next `f` is empty.
unfoldable pub HasRoom : ℕ → (ℕ → Slot) → ℕ → Type 0
HasRoom zero slots i = ⊥
HasRoom (suc f) slots i = ((slots i).client_order_id ≡ 0) ⊎ HasRoom f slots (next_slot i)

-- A slot that is in use stays as it is.
insert_keeps :
    (f : ℕ) (c : Cache) (i j : ℕ) (v : Slot)
    → (c.slots j).client_order_id ≢ 0
    → (insert_from f c i v).slots j ≡ c.slots j
unfolding insert_from
insert_keeps zero c i j v h = refl
insert_keeps (suc f) c i j v h = elim (Bool-cases ((c.slots i).client_order_id == 0)) [
  | inl empty ↦ rw empty (
      update_ne c.slots i v j
        (λ e. h (ap (λ k. (c.slots k).client_order_id) e ∙ (==_iff _ 0).0 empty)))
  | inr used ↦ rw used (insert_keeps f c (next_slot i) j v h)
]

find-insert :
    (f : ℕ) (c : Cache) (i : ℕ) (v : Slot)
    → v.client_order_id ≢ 0
    → HasRoom f c.slots i
    → find_from f c.slots i v.account_id v.client_order_id ≡ none
    → find_from f (insert_from f c i v).slots i v.account_id v.client_order_id ≡ some v
unfolding HasRoom find_from insert_from
find-insert zero c i v key room miss = absurd room
find-insert (suc f) c i v key room miss = elim (Bool-cases ((c.slots i).client_order_id == 0)) [
  | inl empty ↦ rw empty (ground (arith, update_self c.slots i v, key))
  | inr used ↦ rw used (
      ground (
        arith,
        miss,
        used,
        room,
        insert_keeps f c (next_slot i) i v,
        find-insert f c (next_slot i) v key,
      ))
]

-- A key that is found is found again after any insertion.
find_after_insert :
    (f : ℕ) (c : Cache) (i n j : ℕ) (v : Slot) (account_id client_order_id : ℕ) (w : Slot)
    → find_from f c.slots i account_id client_order_id ≡ some w
    → find_from f (insert_from n c j v).slots i account_id client_order_id ≡ some w
unfolding find_from
find_after_insert zero c i n j v a k w hit = hit
find_after_insert (suc f) c i n j v a k w hit =
    ground (arith, hit, insert_keeps n c j i v, find_after_insert f c (next_slot i) n j v a k w)

-- The cache still has an empty slot that a probe for this key reaches.
abbrev pub HasRoomFor : Cache → ℕ → ℕ → Type 0
HasRoomFor c account_id client_order_id =
    HasRoom idem_cap c.slots (idem_hash account_id client_order_id)

-- A new key is found under the id that it was inserted with.
pub idem_find-idem_insert :
    (c : Cache) (account_id client_order_id server_order_id : ℕ)
    → client_order_id ≢ 0
    → HasRoomFor c account_id client_order_id
    → idem_find c account_id client_order_id ≡ none
    → idem_find
        (idem_insert c account_id client_order_id server_order_id)
        account_id
        client_order_id
      ≡ some (record {
        account_id = account_id;
        client_order_id = client_order_id;
        server_order_id = server_order_id;
      })
unfolding idem_find idem_insert
idem_find-idem_insert c a k id key room miss = ground (
  arith,
  miss,
  key,
  find-insert idem_cap c (idem_hash a k)
      (record { account_id = a; client_order_id = k; server_order_id = id }) key room,
)

pub idem_find-idem_insert_other :
    (c : Cache) (a k a' k' id : ℕ) (w : Slot)
    → idem_find c a k ≡ some w
    → idem_find (idem_insert c a' k' id) a k ≡ some w
unfolding idem_find idem_insert
idem_find-idem_insert_other c a k a' k' id w hit = ground (
  arith,
  hit,
  find_after_insert idem_cap c (idem_hash a k) idem_cap (idem_hash a' k')
      (record { account_id = a'; client_order_id = k'; server_order_id = id }) a k w,
)
