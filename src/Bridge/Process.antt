-- ===== src/Bridge/Process.antt =====
-- bridge/bridge.c: the symbols of the process, `bridge_add_symbol`, and the calls by handle. A handle
-- is the number of a symbol, `none` where it is NULL. The table `g_lookup` of engine/orderbook.c and
-- the clock are the process's: a call on a symbol takes them from there and puts them back.
pub mod Symbols
use profit_playground.Common.{
  ℕ, zero, suc, ◌+◌, ◌*◌, Bool, true, false, ◌&&◌, ◌||◌, not, if◌then◌else◌, ◌==◌, leb, update,
  List, [], ◌∷◌, length, Option, none, some,
}
use profit_playground.Common.Int.{ℤ, pos}
use profit_playground.Book.State.{Store, Side, Table}
use profit_playground.Pipeline.State.{Pipeline, pipeline_init, pipeline_subscribe}
use profit_playground.Pipeline.Gateway.{GwClock}
use profit_playground.Bridge.State.{
  BridgePipeline, BridgeMsg, BridgeAck, BridgeEvent, BridgeTop, OrderView, Symbol, zero_slot,
  zero_bridge_event, max_symbols, order_id_space,
}
use profit_playground.Bridge.Registry
use profit_playground.Bridge.Submit
use profit_playground.Bridge.Submit.{bus_handler, refused}

-- OB_MAX_SYMBOL_LEN
abbrev pub max_symbol_len : ℕ
max_symbol_len = 16

-- `g_symbols` with `g_symbol_count`, and what the books of the process share; `book` is cleared
-- memory, in which a new book begins.
pub record Process : Type 0 where
  pub symbols : ℕ → BridgePipeline
  pub symbol_count : ℕ
  pub shared : Store

-- A store with the table and the clock of another.
abbrev with_shared : Store → Store → Store
with_shared s shared = record s {
  lookup = shared.lookup;
  clock = shared.clock;
  reads = shared.reads;
}

abbrev set_store : BridgePipeline → Store → BridgePipeline
set_store bp s = record bp { pl = record (bp.pl) { engine = record (bp.pl.engine) { store = s } } }

-- The symbol as a call finds it.
abbrev pub open_symbol : Process → ℕ → BridgePipeline
open_symbol p i = set_store (p.symbols i) (with_shared (p.symbols i).pl.engine.store p.shared)

-- The process after a call that left the symbol as `bp`.
abbrev pub close_symbol : Process → ℕ → BridgePipeline → Process
close_symbol p i bp = record p {
  symbols = update p.symbols i bp;
  shared = with_shared p.shared bp.pl.engine.store;
}

-- `strcmp(a, b) == 0`
unfoldable pub eqb_symbol : Symbol → Symbol → Bool
eqb_symbol [] [] = true
eqb_symbol (a ∷ s) (b ∷ t) = a == b && eqb_symbol s t
eqb_symbol _ _ = false

-- The loop over the symbols: `n` are left from `i` on.
unfoldable pub find_symbol : (ℕ → BridgePipeline) → ℕ → ℕ → Symbol → Option ℕ
find_symbol symbols zero i name = none
find_symbol symbols (suc n) i name =
    let rest = find_symbol symbols n (i + 1) name in
    if eqb_symbol (symbols i).symbol name then some i else rest

-- BUS_TOPIC_ORDER | BUS_TOPIC_TRADE
abbrev topic_mask : ℕ
topic_mask = 3

abbrev pub with_first_id : Pipeline → ℕ → Pipeline
with_first_id pl id = record pl { gateway = record (pl.gateway) { next_server_order_id = id } }

-- A new symbol with its offset, over the table and the clock of the process.
unfoldable pub new_symbol : Store → Symbol → ℕ → BridgePipeline
new_symbol shared name id_base = record {
  pl = (pipeline_subscribe (with_first_id (pipeline_init shared) id_base) topic_mask bus_handler).0;
  symbol = name;
  id_base = id_base;
  orders = λ i. zero_slot;
  me_to_gw = λ i. 0;
  staged = [];
  evq = λ i. zero_bridge_event;
  evq_head = 0;
  evq_tail = 0;
  evq_dropped = 0;
  next_seq = 0;
}

-- The last part of `bridge_add_symbol`.
unfoldable pub append_symbol : Process → Symbol → Process × Option ℕ
append_symbol p name =
    let bp = new_symbol p.shared name (p.symbol_count * order_id_space) in
    (
      close_symbol (record p { symbol_count = p.symbol_count + 1 }) p.symbol_count bp,
      some p.symbol_count,
    )

-- `bridge_add_symbol`; `name` is `none` for NULL, and `memory` tells whether `calloc` succeeds.
unfoldable pub add_symbol : Process → Option Symbol → Bool → Process × Option ℕ
add_symbol p none memory = (p, none)
add_symbol p (some name) memory =
    let fresh = append_symbol p name in
    let added : Process × Option ℕ = elim (find_symbol p.symbols p.symbol_count 0 name) [
      | some i ↦ (p, some i)
      | none ↦ if leb max_symbols p.symbol_count || not memory then (p, none) else fresh
    ] in
    if length name == 0 || leb max_symbol_len (length name) then (p, none) else added

unfoldable pub add_account : Process → Option ℕ → ℕ → ℤ → ℤ → ℤ → Process × Bool
add_account p none account_id cash max_position max_order_notional = (p, false)
add_account p (some h) account_id cash max_position max_order_notional = (
  close_symbol p h
      (Submit.add_account (open_symbol p h) account_id cash max_position max_order_notional),
  true,
)

unfoldable pub submit : Process → Option ℕ → Option BridgeMsg → GwClock → Process × BridgeAck
submit p (some h) (some m) t =
    let (bp, ack) = Submit.submit (open_symbol p h) m t in (close_symbol p h bp, ack)
submit p _ _ t = (p, refused "null handle or message")

unfoldable pub cancel : Process → Option ℕ → ℕ → ℕ → GwClock → Process × BridgeAck
cancel p none order_id account_id t = (p, refused "null handle or message")
cancel p (some h) order_id account_id t =
    let (bp, ack) = Submit.cancel (open_symbol p h) order_id account_id t in
    (close_symbol p h bp, ack)

unfoldable pub get_order : Process → Option ℕ → ℕ → Option OrderView
get_order p none order_id = none
get_order p (some h) order_id = Registry.get_order (p.symbols h) order_id

abbrev zero_top : BridgeTop
zero_top = record {
  bid_price = pos 0;
  bid_qty = pos 0;
  ask_price = pos 0;
  ask_qty = pos 0;
  spread = pos 0;
  mid = pos 0;
}

unfoldable pub top_of_book : Process → Option ℕ → BridgeTop
top_of_book p none = zero_top
top_of_book p (some h) = Submit.top (open_symbol p h)

-- The output arrays are not NULL.
unfoldable pub book_levels : Process → Option ℕ → Side → ℕ → List (ℤ × ℤ)
book_levels p none side depth = []
book_levels p (some h) side depth = Submit.book_levels (open_symbol p h) side depth

-- The buffer is not NULL.
unfoldable pub poll_event : Process → Option ℕ → Process × Option BridgeEvent
poll_event p none = (p, none)
poll_event p (some h) =
    let (bp, out) = Registry.poll_event (open_symbol p h) in (close_symbol p h bp, out)
