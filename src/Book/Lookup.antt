-- ===== src/Book/Lookup.antt =====
-- engine/orderbook.c, the order-id table: open addressing with linear probing, and removal that
-- moves the rest of the cluster back. The loops of the source run over the table's 8192 slots; the
-- unbounded probe of `lookup_insert` has that many rounds as fuel.
use profit_playground.Common.{ℕ, zero, suc, ◌+◌, ◌/◌, ◌%◌, ◌^◌, if◌then◌else◌, ◌==◌, update}
use profit_playground.Common.Words.{mul64}
use profit_playground.Book.State.{Table, zero_entry, null_idx}

-- LOOKUP_CAP
abbrev pub lookup_cap : ℕ
lookup_cap = 8192

-- `memset` or `calloc`: every slot is empty.
abbrev pub lookup_init : Table
lookup_init i = zero_entry

-- Fibonacci hashing; the cast to `uint32_t` comes before the remainder.
unfoldable pub lookup_slot : ℕ → ℕ
lookup_slot id = mul64 id 11400714819323198485 / 2 ^ 32 % 2 ^ 32 % lookup_cap

unfoldable pub insert_from : ℕ → Table → ℕ → ℕ → ℕ → Table
insert_from zero t s id pool_idx = t
insert_from (suc f) t s id pool_idx =
    let rest = insert_from f t ((s + 1) % lookup_cap) id pool_idx in
    if (t s).key == 0 then update t s (record { key = id; pool_idx = pool_idx }) else rest

unfoldable pub lookup_insert : Table → ℕ → ℕ → Table
lookup_insert t id pool_idx = insert_from lookup_cap t (lookup_slot id) id pool_idx

-- `i` is the number of probes made; `null_idx` if an empty slot or the last probe is reached.
unfoldable pub find_from : ℕ → Table → ℕ → ℕ → ℕ → ℕ
find_from zero t s i id = null_idx
find_from (suc f) t s i id =
    let idx = (s + i) % lookup_cap in
    let rest = find_from f t s (i + 1) id in
    if (t idx).key == 0 then null_idx else if (t idx).key == id then (t idx).pool_idx else rest

unfoldable pub lookup_find : Table → ℕ → ℕ
lookup_find t id = find_from lookup_cap t (lookup_slot id) 0 id

-- The loop that re-inserts the cluster behind a removed slot.
unfoldable pub shift_back : ℕ → Table → ℕ → Table
shift_back zero t j = t
shift_back (suc f) t j =
    let e = t j in
    let cleared = update t j (record e { key = 0 }) in
    let rest = shift_back f (lookup_insert cleared e.key e.pool_idx) ((j + 1) % lookup_cap) in
    if e.key == 0 then t else rest

unfoldable pub remove_from : ℕ → Table → ℕ → ℕ → ℕ → Table
remove_from zero t s i id = t
remove_from (suc f) t s i id =
    let idx = (s + i) % lookup_cap in
    let rest = remove_from f t s (i + 1) id in
    let hit =
      shift_back lookup_cap (update t idx (record (t idx) { key = 0 })) ((idx + 1) % lookup_cap) in
    if (t idx).key == 0 then t else if (t idx).key == id then hit else rest

unfoldable pub lookup_remove : Table → ℕ → Table
lookup_remove t id = remove_from lookup_cap t (lookup_slot id) 0 id
