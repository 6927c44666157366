-- ===== src/Pipeline/State.antt =====
-- pipeline/pipeline.h: the pipeline. The log file is the list of the lines written to it, and
-- `calls` is what the bus has handed to handlers, oldest first. `gw_now_ns` reads the clock that the
-- engine's store holds.
pub mod Owners
use profit_playground.Common.{
  ℕ, zero, suc, ◌+◌, ◌-◌, Bool, ◌||◌, if◌then◌else◌, ◌==◌, ltb, leb, update, List, [], ◌++◌, map,
  Option, none, some,
}
use profit_playground.Common.Int.{ℤ, pos}
use profit_playground.Book.State.{Store, Side, now_ns, after_now}
use profit_playground.Orders.State.{OrderType}
use profit_playground.Engine.State.{Engine}
use profit_playground.Engine.Manage.{me_init}
use profit_playground.Pipeline.Portfolio
use profit_playground.Pipeline.Portfolio.{Portfolio, zero_portfolio}
use profit_playground.Pipeline.Risk
use profit_playground.Pipeline.Risk.{Risk}
use profit_playground.Pipeline.Bus
use profit_playground.Pipeline.Bus.{Bus, Msg}
use profit_playground.Pipeline.Gateway
use profit_playground.Pipeline.Gateway.{Gateway, GwClock}
use profit_playground.Pipeline.Message.{Action, RawMsg, Ack}

-- PIPELINE_MAX_ACCOUNTS, PIPELINE_MAX_ID_MAP
abbrev pub max_accounts : ℕ
max_accounts = 64

abbrev pub max_id_map : ℕ
max_id_map = 65536

pub record Owner : Type 0 where
  pub server_order_id : ℕ
  pub account_id : ℕ
  pub side : Side
  pub price : ℤ
  pub qty : ℕ

-- One line of the write-ahead log.
pub record WalLine : Type 0 where
  pub seq_no : ℕ
  pub server_order_id : ℕ
  pub account_id : ℕ
  pub action : Action
  pub type : OrderType
  pub price : ℤ
  pub trigger_price : ℤ
  pub qty : ℕ
  pub t_ingress_ns : ℕ

pub record Pipeline : Type 0 where
  pub gateway : Gateway
  pub risk : Risk
  pub engine : Engine
  pub bus : Bus
  pub accounts : ℕ → Portfolio
  pub next_seq_no : ℕ
  pub wal : Option (List WalLine)
  pub id_map : ℕ → Owner
  pub id_map_count : ℕ
  pub validated : ℕ
  pub risk_rejected : ℕ
  pub sequenced : ℕ
  pub matched : ℕ
  pub calls : List (ℕ × Msg)

abbrev pub pl_now : Pipeline → ℕ
pl_now pl = now_ns pl.engine.store

abbrev pub pl_tick : Pipeline → Pipeline
pl_tick pl = record pl { engine = record (pl.engine) { store = after_now pl.engine.store } }

-- `pipeline_init`, over the table and the clock of the process.
unfoldable pub pipeline_init : Store → Pipeline
pipeline_init s = record {
  gateway = Gateway.init;
  risk = Risk.init;
  engine = me_init s Bool.false;
  bus = Bus.init;
  accounts = λ i. zero_portfolio;
  next_seq_no = 0;
  wal = none;
  id_map =
      λ i. record { server_order_id = 0; account_id = 0; side = Side.bid; price = pos 0; qty = 0 };
  id_map_count = 0;
  validated = 0;
  risk_rejected = 0;
  sequenced = 0;
  matched = 0;
  calls = [];
}

-- `pipeline_set_wal`, where the file can be opened: a new log is empty.
unfoldable pub set_wal : Pipeline → Bool → Pipeline
set_wal pl path = record pl { wal = if path then some [] else none }

-- `account_id == 0 || account_id > PIPELINE_MAX_ACCOUNTS`
abbrev pub bad_account : ℕ → Bool
bad_account account_id = account_id == 0 || ltb max_accounts account_id

unfoldable pub add_account : Pipeline → ℕ → ℤ → ℤ → ℤ → Pipeline
add_account pl account_id cash max_position max_order_notional =
    if bad_account account_id then pl else record pl {
      accounts =
          update pl.accounts (account_id - 1)
            (Portfolio.init account_id cash max_position max_order_notional);
    }

-- `pipeline_account`
unfoldable pub account : Pipeline → ℕ → Option Portfolio
account pl account_id =
    if bad_account account_id
    then none
    else if (pl.accounts (account_id - 1)).account_id == 0
    then none
    else some (pl.accounts (account_id - 1))

abbrev pub set_account : Pipeline → ℕ → Portfolio → Pipeline
set_account pl account_id p = record pl { accounts = update pl.accounts (account_id - 1) p }

unfoldable pub pipeline_subscribe : Pipeline → ℕ → ℕ → Pipeline × Option ℕ
pipeline_subscribe pl topic_mask handler =
    let (b, slot) = Bus.subscribe pl.bus topic_mask handler in (record pl { bus = b }, slot)

-- `bus_publish` on the pipeline's bus.
unfoldable pub publish : Pipeline → Msg → Pipeline
publish pl msg =
    let (b, called) = Bus.publish pl.bus msg in
    record pl { bus = b; calls = pl.calls ++ map (λ h. (h, msg)) called }

-- `pipeline_submit`; `t` holds the readings of the clock that the gateway takes.
unfoldable pub pipeline_submit : Pipeline → RawMsg → GwClock → Pipeline × Ack
pipeline_submit pl m t =
    let (g, ack) = Gateway.submit pl.gateway m t in
    (
      publish (record pl { gateway = g })
          (record {
            topic = Bus.Topic.gateway;
            ts_ns = ack.ack_ts_ns;
            account_id = m.account_id;
            payload = Bus.Payload.ack ack;
          }),
      ack,
    )

unfoldable pub id_map_remember : Pipeline → ℕ → ℕ → Side → ℤ → ℕ → Pipeline
id_map_remember pl server_order_id account_id side price qty =
    if leb max_id_map pl.id_map_count then pl else record pl {
      id_map = update pl.id_map pl.id_map_count (record {
        server_order_id = server_order_id;
        account_id = account_id;
        side = side;
        price = price;
        qty = qty;
      });
      id_map_count = pl.id_map_count + 1;
    }

unfoldable pub owner_from : (ℕ → Owner) → ℕ → ℕ → ℕ → ℕ
owner_from id_map zero i id = 0
owner_from id_map (suc n) i id =
    let rest = owner_from id_map n (i + 1) id in
    if (id_map i).server_order_id == id then (id_map i).account_id else rest

-- `id_map_lookup_account`; 0 if nobody owns the id.
unfoldable pub lookup_account : Pipeline → ℕ → ℕ
lookup_account pl id = owner_from pl.id_map pl.id_map_count 0 id
