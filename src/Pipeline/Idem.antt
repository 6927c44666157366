-- ===== src/Pipeline/Idem.antt =====
-- pipeline/gateway.c, the idempotency cache: open addressing with linear probing, keyed by account
-- and client order id, without removal.
pub mod Recall
use Prim.Native.Nat.{bit_xor}
use profit_playground.Common.{
  ℕ, zero, suc, ◌*◌, ◌/◌, ◌%◌, ◌^◌, Bool, ◌&&◌, if◌then◌else◌, ◌==◌, update, Option, none, some,
}
use profit_playground.Common.Words.{mul64, add32}

-- GW_IDEM_CAP
abbrev pub idem_cap : ℕ
idem_cap = 8192

pub record Slot : Type 0 where
  pub account_id : ℕ
  pub client_order_id : ℕ
  pub server_order_id : ℕ

pub record Cache : Type 0 where
  pub slots : ℕ → Slot
  pub count : ℕ

-- `x ^= x >> 33`
abbrev fold_high : ℕ → ℕ
fold_high x = bit_xor x (x / 2 ^ 33)

unfoldable pub idem_hash : ℕ → ℕ → ℕ
idem_hash account_id client_order_id =
    let x0 = bit_xor (account_id * 2 ^ 32 % 2 ^ 64) client_order_id in
    let x1 = mul64 (fold_high x0) 0xff51afd7ed558ccd in
    let x2 = mul64 (fold_high x1) 0xc4ceb9fe1a85ec53 in fold_high x2 % idem_cap

abbrev pub next_slot : ℕ → ℕ
next_slot i = add32 i 1 % idem_cap

abbrev pub is_slot : Slot → ℕ → ℕ → Bool
is_slot s account_id client_order_id =
    s.client_order_id == client_order_id && s.account_id == account_id

unfoldable pub find_from : ℕ → (ℕ → Slot) → ℕ → ℕ → ℕ → Option Slot
find_from zero slots i account_id client_order_id = none
find_from (suc f) slots i account_id client_order_id =
    let rest = find_from f slots (next_slot i) account_id client_order_id in
    if (slots i).client_order_id == 0
    then none
    else if is_slot (slots i) account_id client_order_id
    then some (slots i)
    else rest

-- `idem_find`; client order id 0 is "no key".
unfoldable pub idem_find : Cache → ℕ → ℕ → Option Slot
idem_find c account_id client_order_id =
    let found =
      find_from idem_cap c.slots (idem_hash account_id client_order_id) account_id
        client_order_id in
    if client_order_id == 0 then none else found

unfoldable pub insert_from : ℕ → Cache → ℕ → Slot → Cache
insert_from zero c i v = c
insert_from (suc f) c i v =
    let rest = insert_from f c (next_slot i) v in
    if (c.slots i).client_order_id == 0
    then record { slots = update c.slots i v; count = add32 c.count 1 }
    else rest

-- `idem_insert`: a full cache stays as it is.
unfoldable pub idem_insert : Cache → ℕ → ℕ → ℕ → Cache
idem_insert c account_id client_order_id server_order_id =
    let inserted = insert_from idem_cap c (idem_hash account_id client_order_id) (record {
      account_id = account_id;
      client_order_id = client_order_id;
      server_order_id = server_order_id;
    }) in
    if client_order_id == 0 then c else inserted
