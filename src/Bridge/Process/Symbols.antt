-- ===== src/Bridge/Process/Symbols.antt =====
-- bridge/bridge.c: what holds of the symbols of a process whatever calls it has served.
use profit_playground.Common.{
  ℕ, ◌+◌, ◌*◌, ◌≤◌, ◌<◌, ◌≡◌, ◌≢◌, refl, ap, sym, ◌∙◌, subst, Bool, true, false, not, ◌||◌, inl,
  inr, Bool-cases, Option-cases, Option, none, some, arith, ◌==◌, ==_iff, leb, length, update_ne,
}
use profit_playground.Common.Int.{ℤ}
use profit_playground.Book.State.{Store, null_idx}
use profit_playground.Book.Lookup.{lookup_init, lookup_find, find_from}
use profit_playground.Book.Query
use profit_playground.Book.Manage.{init}
use profit_playground.Engine.State.{Engine}
use profit_playground.Engine.Manage.{me_init, me_cancel_order}
use profit_playground.Pipeline.State.{pipeline_init, pipeline_subscribe}
use profit_playground.Pipeline.Gateway.{GwClock}
use profit_playground.Bridge.State.{
  BridgePipeline, BridgeMsg, Symbol, max_symbols, order_id_space, order_registry_cap,
}
use profit_playground.Bridge.Registry
use profit_playground.Bridge.Registry.{local_of, slot_for}
use profit_playground.Bridge.Submit
use profit_playground.Bridge.Submit.{target_of, forward, run_accepted, is_accepted, pre_register}
use profit_playground.Bridge.Submit.Kept.{base-run_accepted}
use profit_playground.Bridge.Process
use profit_playground.Bridge.Process.{
  Process, open_symbol, close_symbol, find_symbol, new_symbol, append_symbol, add_symbol,
  max_symbol_len,
}

-- One call of bridge/bridge.h that changes the process.
pub data Call : Process → Process → Type 0 where
  symbol :
      (p : Process) (name : Option Symbol) (memory : Bool)
      → Call p (Process.add_symbol p name memory).0
  account :
      (p : Process) (h : Option ℕ) (account_id : ℕ) (cash max_position max_order_notional : ℤ)
      → Call p (Process.add_account p h account_id cash max_position max_order_notional).0
  order :
      (p : Process) (h : Option ℕ) (m : Option BridgeMsg) (t : GwClock)
      → Call p (Process.submit p h m t).0
  withdraw :
      (p : Process) (h : Option ℕ) (order_id account_id : ℕ) (t : GwClock)
      → Call p (Process.cancel p h order_id account_id t).0
  poll : (p : Process) (h : Option ℕ) → Call p (Process.poll_event p h).0

-- The processes that calls reach from one without symbols.
pub data Reached : Process → Type 0 where
  start : (p : Process) → p.symbol_count ≡ 0 → Reached p
  later : {p q : Process} → Reached p → Call p q → Reached q

-- The offsets of the symbols are the multiples of BRIDGE_ORDER_ID_SPACE, in order.
IsSpaced : Process → Type 0
IsSpaced p = (i : ℕ) → i < p.symbol_count → (p.symbols i).id_base ≡ i * order_id_space

base-submit :
    (bp : BridgePipeline) (m : BridgeMsg) (t : GwClock)
    → (Submit.submit bp m t).0.id_base ≡ bp.id_base
unfolding Submit.submit forward
base-submit bp m t = grind (arith, base-run_accepted)

base-poll_event : (bp : BridgePipeline) → (Registry.poll_event bp).0.id_base ≡ bp.id_base
unfolding Registry.poll_event
base-poll_event bp = ground arith

IsSpaced-close_symbol :
    (p : Process) (h : ℕ) (bp : BridgePipeline)
    → bp.id_base ≡ (p.symbols h).id_base
    → IsSpaced p
    → IsSpaced (close_symbol p h bp)
unfolding IsSpaced
IsSpaced-close_symbol p h bp same s i below = elim (Bool-cases (i == h)) [
  | inl here ↦ rw here (
      same
      ∙ subst (λ k. (p.symbols k).id_base ≡ i * order_id_space) ((==_iff i h).0 here) (s i below))
  | inr other ↦ rw other (s i below)
]

IsSpaced-append_symbol :
    (p : Process) (name : Symbol) → IsSpaced p → IsSpaced (append_symbol p name).0
unfolding IsSpaced append_symbol new_symbol
IsSpaced-append_symbol p name s i below = elim (Bool-cases (i == p.symbol_count)) [
  | inl here ↦ rw here (ap (λ k. k * order_id_space) (sym ((==_iff i p.symbol_count).0 here)))
  | inr other ↦ rw other (s i (ground (arith, other, below)))
]

IsSpaced-add_symbol :
    (p : Process) (name : Option Symbol) (memory : Bool)
    → IsSpaced p
    → IsSpaced (add_symbol p name memory).0
unfolding add_symbol
IsSpaced-add_symbol p none memory s = s
IsSpaced-add_symbol p (some name) memory s =
    elim (Bool-cases (length name == 0 || leb max_symbol_len (length name))) [
      | inl bad ↦ rw bad s
      | inr fine ↦ elim (Option-cases (find_symbol p.symbols p.symbol_count 0 name)) [
        | inr (i, known) ↦ rw (fine, known) s
        | inl new ↦ elim (Bool-cases (leb max_symbols p.symbol_count || not memory)) [
          | inl full ↦ rw (fine, new, full) s
          | inr room ↦ rw (fine, new, room) (IsSpaced-append_symbol p name s)
        ]
      ]
    ]

IsSpaced-Call : {p q : Process} → Call p q → IsSpaced p → IsSpaced q
unfolding Process.add_account Process.submit Process.cancel Process.poll_event Submit.add_account
    Submit.cancel
IsSpaced-Call (symbol p name memory) s = IsSpaced-add_symbol p name memory s
IsSpaced-Call (account p none _ _ _ _) s = s
IsSpaced-Call (account p (some h) _ _ _ _) s = IsSpaced-close_symbol p h _ refl s
IsSpaced-Call (order p (some h) (some m) t) s =
    IsSpaced-close_symbol p h _ (base-submit (open_symbol p h) m t) s
IsSpaced-Call (order p none none t) s = s
IsSpaced-Call (order p none (some m) t) s = s
IsSpaced-Call (order p (some h) none t) s = s
IsSpaced-Call (withdraw p none _ _ t) s = s
IsSpaced-Call (withdraw p (some h) _ _ t) s =
    IsSpaced-close_symbol p h _ (base-submit (open_symbol p h) _ t) s
IsSpaced-Call (poll p none) s = s
IsSpaced-Call (poll p (some h)) s =
    IsSpaced-close_symbol p h _ (base-poll_event (open_symbol p h)) s

IsSpaced-none : (p : Process) → p.symbol_count ≡ 0 → IsSpaced p
unfolding IsSpaced
IsSpaced-none p none_yet i below = absurd (omega (arith, none_yet, below))

Reached-IsSpaced : {p : Process} → Reached p → IsSpaced p
Reached-IsSpaced (start p none_yet) = IsSpaced-none p none_yet
Reached-IsSpaced (later r call) = IsSpaced-Call call (Reached-IsSpaced r)

base_of :
    {p : Process}
    → Reached p
    → (i : ℕ) → i < p.symbol_count
    → (p.symbols i).id_base ≡ i * order_id_space
unfolding IsSpaced
base_of r = Reached-IsSpaced r

-- The ids that a symbol knows lie within 65536 of its offset.
slot_for-range :
    (bp : BridgePipeline) (id a : ℕ)
    → slot_for bp id ≡ some a
    → (bp.id_base < id) × (id ≤ bp.id_base + order_registry_cap)
unfolding slot_for
slot_for-range bp id a found = (ground (arith, found), ground (arith, found))

same_symbol :
    (p : Process) (i j id a b : ℕ)
    → Reached p
    → i < p.symbol_count
    → j < p.symbol_count
    → slot_for (p.symbols i) id ≡ some a
    → slot_for (p.symbols j) id ≡ some b
    → i ≡ j
same_symbol p i j id a b r i_below j_below at_i at_j =
    let (above_i, within_i) = slot_for-range (p.symbols i) id a at_i in
    let (above_j, within_j) = slot_for-range (p.symbols j) id b at_j in
    let base_i = base_of r i i_below in
    let base_j = base_of r j j_below in
    omega (arith, above_i, within_i, above_j, within_j, base_i, base_j)

-- In every process that calls of the bridge reach from one without symbols, an order id that one
-- symbol knows is unknown to every other symbol.
pub one_symbol_per_id :
    (p : Process) (i j id a : ℕ)
    → Reached p
    → i < p.symbol_count
    → j < p.symbol_count
    → slot_for (p.symbols i) id ≡ some a
    → j ≢ i
    → slot_for (p.symbols j) id ≡ none
one_symbol_per_id p i j id a r i_below j_below at_i other =
    elim (Option-cases (slot_for (p.symbols j) id)) [
      | inl unknown ↦ unknown
      | inr (b, at_j) ↦ absurd (other (same_symbol p j i id b a r j_below i_below at_j at_i))
    ]

find-lookup_init : (id : ℕ) → lookup_find lookup_init id ≡ null_idx
unfolding lookup_find find_from
find-lookup_init id = refl

get_order-lookup_init : (s : Store) (id : ℕ) → s.lookup ≡ lookup_init → Query.get_order s id ≡ none
unfolding Query.get_order
get_order-lookup_init s id cleared = rw (cleared, find-lookup_init id) refl

cancel-unknown :
    (me : Engine) (id : ℕ) → Query.get_order me.store id ≡ none → (me_cancel_order me id).1 ≡ false
unfolding me_cancel_order
cancel-unknown me id unknown = rw (me_cancel_order, unknown) refl

cleared-append_symbol :
    (p : Process) (name : Symbol) → (append_symbol p name).0.shared.lookup ≡ lookup_init
unfolding append_symbol new_symbol pipeline_subscribe pipeline_init me_init init
cleared-append_symbol p name = refl

handle-append_symbol :
    (p : Process) (name : Symbol) → (append_symbol p name).1 ≡ some p.symbol_count
unfolding append_symbol
handle-append_symbol p name = refl

older-append_symbol :
    (p : Process) (name : Symbol) (i : ℕ)
    → i < p.symbol_count
    → (append_symbol p name).0.symbols i ≡ p.symbols i
unfolding append_symbol
older-append_symbol p name i below =
    update_ne p.symbols p.symbol_count _ i (λ same. absurd (omega (arith, same, below)))

append_symbol-new :
    (p : Process) (name : Symbol)
    → length name ≢ 0
    → length name < max_symbol_len
    → find_symbol p.symbols p.symbol_count 0 name ≡ none
    → p.symbol_count < max_symbols
    → add_symbol p (some name) true ≡ append_symbol p name
unfolding add_symbol
append_symbol-new p name some_name short new room =
    let fine : (length name == 0 || leb max_symbol_len (length name)) ≡ false =
      ground (arith, some_name, short) in
    let free : (leb max_symbols p.symbol_count || false) ≡ false = ground (arith, room) in
    rw (fine, new, free) refl

-- Adding a symbol with a new name of 1 to 15 characters, while fewer than 64 exist, gives it the
-- next handle and leaves the records of the older symbols as they are, but in the process right
-- after it the engine of an older symbol refuses to cancel every order id.
pub add_symbol-forgets :
    (p : Process) (name : Symbol)
    → length name ≢ 0
    → length name < max_symbol_len
    → find_symbol p.symbols p.symbol_count 0 name ≡ none
    → p.symbol_count < max_symbols
    → let (q, handle) = add_symbol p (some name) true in
      (handle ≡ some p.symbol_count)
      × ((i id : ℕ)
          → i < p.symbol_count
          → (q.symbols i ≡ p.symbols i)
            × ((me_cancel_order (open_symbol q i).pl.engine id).1 ≡ false))
add_symbol-forgets p name some_name short new room =
    rw (append_symbol-new p name some_name short new room) (
      handle-append_symbol p name,
      λ i id below. (
        older-append_symbol p name i below,
        cancel-unknown _ id (get_order-lookup_init _ id (cleared-append_symbol p name)),
      ),
    )
