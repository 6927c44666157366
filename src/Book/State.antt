-- ===== src/Book/State.antt =====
-- engine/orderbook.h: the types of the book. An array of the source is a function of its index; a
-- `uint16_t` pool index is a number, with `null_idx` for "no node".
use profit_playground.Common.{ℕ, ◌+◌, ◌-◌, ◌^◌, Bool, true, false, update}
use profit_playground.Common.Int.{ℤ, pos}

abbrev pub max_levels : ℕ
max_levels = 256

abbrev pub max_orders : ℕ
max_orders = 4096

-- OB_MAX_LEVELS * OB_SIDE_COUNT, the number of slots of the level pool.
abbrev pub level_slots : ℕ
level_slots = 512

-- OB_NULL_IDX
abbrev pub null_idx : ℕ
null_idx = 2 ^ 16 - 1

-- OB_SIDE_COUNT is a value of the enumeration too: the validators test for it.
pub data Side : Type 0 where
  bid ask count : Side

-- The members of `ob_status_t` that some function returns.
pub data Status : Type 0 where
  ok rejected not_found filled partial : Status

abbrev pub is_bid : Side → Bool
is_bid Side.bid = true
is_bid _ = false

abbrev pub is_ask : Side → Bool
is_ask Side.ask = true
is_ask _ = false

-- `side >= OB_SIDE_COUNT`
abbrev pub is_invalid : Side → Bool
is_invalid Side.count = true
is_invalid _ = false

-- `(side == OB_SIDE_BID) ? OB_SIDE_ASK : OB_SIDE_BID`
abbrev pub opposite : Side → Side
opposite Side.bid = Side.ask
opposite _ = Side.bid

pub record Order : Type 0 where
  pub id : ℕ
  pub price : ℤ
  pub qty_remain : ℕ
  pub side : Side
  pub prev_idx : ℕ
  pub next_idx : ℕ
  pub qty : ℕ
  pub ts_submit : ℕ
  pub ts_update : ℕ
  pub expiry_ts : ℕ

pub record Level : Type 0 where
  pub price : ℤ
  pub total_qty : ℕ
  pub order_count : ℕ
  pub head_idx : ℕ
  pub tail_idx : ℕ
  pub left_idx : ℕ
  pub right_idx : ℕ
  pub height : ℕ

pub record SideState : Type 0 where
  pub root_idx : ℕ
  pub level_count : ℕ
  pub total_qty : ℕ

pub record Book : Type 0 where
  pub bids : SideState
  pub asks : SideState
  pub next_order_id : ℕ
  pub total_orders_added : ℕ
  pub total_orders_cancelled : ℕ
  pub order_pool : ℕ → Order
  pub order_free_stack : ℕ → ℕ
  pub order_free_top : ℕ
  pub level_pool : ℕ → Level
  pub level_free_stack : ℕ → ℕ
  pub level_free_top : ℕ

-- One fill, as `match_against_side` writes it into the scratch buffer.
pub record Match : Type 0 where
  pub resting_id : ℕ
  pub price : ℤ
  pub qty : ℕ
  pub ts : ℕ

-- A slot of the order-id table; key 0 is empty.
pub record Entry : Type 0 where
  pub key : ℕ
  pub pool_idx : ℕ

abbrev pub Table : Type 0
Table = ℕ → Entry

-- What a call on one book reads and writes: the book, the process-wide table `g_lookup`, and the
-- monotonic clock, whose `reads`-th reading is `clock reads`.
pub record Store : Type 0 where
  pub book : Book
  pub lookup : Table
  pub clock : ℕ → ℕ
  pub reads : ℕ

-- `now_ns()`: the reading, and the store with the clock one reading further.
abbrev pub now_ns : Store → ℕ
now_ns s = s.clock s.reads

abbrev pub after_now : Store → Store
after_now s = record s { reads = s.reads + 1 }

-- `book->sides[side]`
abbrev pub side_of : Book → Side → SideState
side_of b Side.ask = b.asks
side_of b _ = b.bids

abbrev pub set_side : Book → Side → SideState → Book
set_side b Side.ask v = record b { asks = v }
set_side b _ v = record b { bids = v }

abbrev pub level : Book → ℕ → Level
level b i = b.level_pool i

abbrev pub set_level : Book → ℕ → Level → Book
set_level b i v = record b { level_pool = update b.level_pool i v }

abbrev pub order : Book → ℕ → Order
order b i = b.order_pool i

abbrev pub set_order : Book → ℕ → Order → Book
set_order b i v = record b { order_pool = update b.order_pool i v }

-- The contents of memory that `memset` has cleared.
abbrev pub zero_order : Order
zero_order = record {
  id = 0;
  price = pos 0;
  qty_remain = 0;
  side = Side.bid;
  prev_idx = 0;
  next_idx = 0;
  qty = 0;
  ts_submit = 0;
  ts_update = 0;
  expiry_ts = 0;
}

abbrev pub zero_level : Level
zero_level = record {
  price = pos 0;
  total_qty = 0;
  order_count = 0;
  head_idx = 0;
  tail_idx = 0;
  left_idx = 0;
  right_idx = 0;
  height = 0;
}

abbrev pub zero_entry : Entry
zero_entry = record { key = 0; pool_idx = 0 }
