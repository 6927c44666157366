-- ===== src/Pipeline/Gateway.antt =====
-- pipeline/gateway.c: ingress, normalisation, admission, and the ring to the later stages. The clock
-- `gw_now_ns` is read through `GwClock`.
pub mod Policy
pub mod FullRing
pub mod Counters
pub mod Queueing
use profit_playground.Common.{
  ℕ, ◌-◌, ◌/◌, ◌%◌, ◌^◌, Bool, true, false, ◌&&◌, ◌||◌, if◌then◌else◌, ◌==◌, ltb, Option, none,
  some,
}
use profit_playground.Common.Int.{pos}
use profit_playground.Common.Words.{add64, sub64, mul64}
use profit_playground.Ring
use profit_playground.Ring.{Ring}
use profit_playground.Book.State.{is_invalid}
use profit_playground.Orders.State.{OrderType}
use profit_playground.Pipeline.Message.{
  Source, Action, AckStatus, RawMsg, Ack, OrderEvent, is_new, is_cancel, is_modify,
}
use profit_playground.Pipeline.Idem.{Cache, idem_find, idem_insert}
use Prim.Native.String.{String}

-- GW_RING_CAP
abbrev pub ring_cap : ℕ
ring_cap = 4096

pub record Gateway : Type 0 where
  pub next_server_order_id : ℕ
  pub out_ring : Ring OrderEvent
  pub idem : Cache
  pub kill_switch : Bool
  pub last_refill_ns : ℕ
  pub tokens : ℕ
  pub max_tokens : ℕ
  pub refill_per_sec : ℕ
  pub accepted : ℕ
  pub rejected : ℕ
  pub duplicates : ℕ
  pub throttled : ℕ

abbrev pub zero_order_event : OrderEvent
zero_order_event = record {
  server_order_id = 0;
  client_order_id = 0;
  account_id = 0;
  source = Source.unset;
  action = Action.unset;
  type = OrderType.limit;
  side = profit_playground.Book.State.Side.bid;
  price = pos 0;
  trigger_price = pos 0;
  qty = 0;
  ttl_ns = 0;
  target_order_id = 0;
  new_price = pos 0;
  new_qty = 0;
  t_ingress_ns = 0;
  t_normalized_ns = 0;
  t_admitted_ns = 0;
  t_validated_ns = 0;
  t_risk_ns = 0;
  t_sequenced_ns = 0;
  t_matched_ns = 0;
  seq_no = 0;
}

-- `gateway_init`
unfoldable pub init : Gateway
init = record {
  next_server_order_id = 0;
  out_ring = record { buf = λ i. zero_order_event; head = 0; tail = 0; dropped = 0 };
  idem = record {
    slots = λ i. record { account_id = 0; client_order_id = 0; server_order_id = 0 };
    count = 0;
  };
  kill_switch = false;
  last_refill_ns = 0;
  tokens = 2000;
  max_tokens = 2000;
  refill_per_sec = 10000;
  accepted = 0;
  rejected = 0;
  duplicates = 0;
  throttled = 0;
}

unfoldable pub set_kill_switch : Gateway → Bool → Gateway
set_kill_switch g on = record g { kill_switch = on }

unfoldable pub ring_push : Ring OrderEvent → OrderEvent → Ring OrderEvent × Bool
ring_push = Ring.push ring_cap (2 ^ 64)

unfoldable pub ring_pop : Ring OrderEvent → Ring OrderEvent × Option OrderEvent
ring_pop = Ring.pop ring_cap

-- The tokens that have come in since the last refill.
unfoldable pub refill_amount : Gateway → ℕ → ℕ
refill_amount g now = mul64 (sub64 now g.last_refill_ns) g.refill_per_sec / 1000000000

unfoldable pub rl_refill : Gateway → ℕ → Gateway
rl_refill g now =
    let add = refill_amount g now in
    let sum = add64 g.tokens add in
    if g.last_refill_ns == 0
    then record g { last_refill_ns = now }
    else if add == 0
    then g
    else record g {
      tokens = (if ltb g.max_tokens sum then g.max_tokens else sum) % 2 ^ 32;
      last_refill_ns = now;
    }

unfoldable pub rl_take : Gateway → Gateway × Bool
rl_take g = if g.tokens == 0 then (g, false) else (record g { tokens = g.tokens - 1 }, true)

abbrev is_unset_action : Action → Bool
is_unset_action Action.unset = true
is_unset_action _ = false

abbrev is_unset_source : Source → Bool
is_unset_source Source.unset = true
is_unset_source _ = false

abbrev is_unknown_type : OrderType → Bool
is_unknown_type OrderType.unknown = true
is_unknown_type _ = false

-- Stage A; the message is not NULL.
unfoldable pub stage_a_ingress : RawMsg → Option String
stage_a_ingress m =
    if is_unset_action m.action
    then some "missing action"
    else if is_unset_source m.source
    then some "missing source"
    else if m.account_id == 0
    then some "missing account_id"
    else if is_new m.action
    then (if m.qty == 0
        then some "qty must be > 0"
        else if is_invalid m.side
        then some "invalid side"
        else if is_unknown_type m.type
        then some "unknown order type"
        else none)
    else if is_cancel m.action || is_modify m.action
    then (if m.target_order_id == 0 then some "missing target_order_id" else none)
    else some "unknown action"

-- Stage B
unfoldable pub stage_b_normalize : RawMsg → OrderEvent
stage_b_normalize m = record zero_order_event {
  client_order_id = m.client_order_id;
  account_id = m.account_id;
  source = m.source;
  action = m.action;
  type = m.type;
  side = m.side;
  price = m.price;
  trigger_price = m.trigger_price;
  qty = m.qty;
  ttl_ns = m.ttl_ns;
  target_order_id = m.target_order_id;
  new_price = m.new_price;
  new_qty = m.new_qty;
}

-- What stage C gives through its result and its pointers.
pub record Admission : Type 0 where
  pub status : AckStatus
  pub event : OrderEvent
  pub reason : Option String
  pub server_id : ℕ

abbrev refuse : AckStatus → OrderEvent → String → ℕ → Admission
refuse st ev reason id = record { status = st; event = ev; reason = some reason; server_id = id }

-- Steps 4 and 5 of stage C: the id, the times, and the entry in the cache.
unfoldable pub assign : Gateway → OrderEvent → ℕ → ℕ → Gateway × Admission
assign g ev t_ingress now =
    let id = add64 g.next_server_order_id 1 in
    let ev' = record ev {
      server_order_id = id;
      t_ingress_ns = t_ingress;
      t_normalized_ns = now;
      t_admitted_ns = now;
    } in
    (
      record g {
        next_server_order_id = id;
        idem = idem_insert g.idem ev.account_id ev.client_order_id id;
      },
      record { status = AckStatus.accepted; event = ev'; reason = none; server_id = id },
    )

-- Step 3 of stage C: a known key gets the id of its first submission.
unfoldable pub deduplicate : Gateway → OrderEvent → ℕ → ℕ → Gateway × Admission
deduplicate g ev t_ingress now = elim (idem_find g.idem ev.account_id ev.client_order_id) [
  | some dup ↦ (g, refuse AckStatus.duplicate ev "duplicate client_order_id" dup.server_order_id)
  | none ↦ assign g ev t_ingress now
]

-- Stage C; `now` is the reading of the clock at the normalisation.
unfoldable pub stage_c_admit : Gateway → OrderEvent → ℕ → ℕ → Gateway × Admission
stage_c_admit g ev t_ingress now =
    let (g', taken) = rl_take (rl_refill g t_ingress) in
    if g.kill_switch && is_new ev.action
    then (g, refuse AckStatus.killed ev "kill-switch engaged" 0)
    else if taken
    then deduplicate g' ev t_ingress now
    else (g', refuse AckStatus.throttled ev "rate limit exceeded" 0)

-- The three readings of the clock that one submission takes.
pub record GwClock : Type 0 where
  pub ingress : ℕ
  pub normalized : ℕ
  pub acked : ℕ

abbrev make_ack : AckStatus → ℕ → Option String → GwClock → Ack
make_ack st id reason t = record {
  status = st;
  server_order_id = id;
  ingress_ts_ns = t.ingress;
  ack_ts_ns = t.acked;
  reject_reason = reason;
}

-- The counter of a submission that was not admitted.
unfoldable pub count_refused : Gateway → AckStatus → Gateway
count_refused g AckStatus.duplicate = record g { duplicates = add64 g.duplicates 1 }
count_refused g AckStatus.throttled = record g { throttled = add64 g.throttled 1 }
count_refused g _ = record g { rejected = add64 g.rejected 1 }

-- The push to the out ring; a full ring throttles.
unfoldable pub enqueue : Gateway → OrderEvent → ℕ → GwClock → Gateway × Ack
enqueue g ev server_id t =
    let (ring, pushed) = ring_push g.out_ring ev in
    if pushed
    then (
      record g { out_ring = ring; accepted = add64 g.accepted 1 },
      make_ack AckStatus.accepted server_id none t,
    )
    else (
      record g { out_ring = ring; throttled = add64 g.throttled 1 },
      make_ack AckStatus.throttled 0 (some "downstream ring full") t,
    )

-- What follows stage C.
unfoldable pub finish : Gateway → Admission → GwClock → Gateway × Ack
finish g a t = elim (a.status) [
  | AckStatus.accepted ↦ enqueue g a.event a.server_id t
  | other ↦ (count_refused g other, make_ack other a.server_id a.reason t)
]

-- `gateway_submit`
unfoldable pub submit : Gateway → RawMsg → GwClock → Gateway × Ack
submit g m t =
    let (g', a) = stage_c_admit g (stage_b_normalize m) t.ingress t.normalized in
    elim (stage_a_ingress m) [
      | some err ↦
          (record g { rejected = add64 g.rejected 1 }, make_ack AckStatus.rejected 0 (some err) t)
      | none ↦ finish g' a t
    ]
