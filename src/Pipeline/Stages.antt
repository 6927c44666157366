-- ===== src/Pipeline/Stages.antt =====
-- pipeline/pipeline.c: the stages behind the gateway, and `pipeline_step`, which walks each event
-- through them.
pub mod Step
use profit_playground.Common.{
  ℕ, zero, suc, Bool, true, false, ◌||◌, if◌then◌else◌, ◌==◌, List, [], ◌∷◌, ◌++◌, Option, none,
  some,
}
use profit_playground.Common.Int.{ℤ, pos, eqb_ℤ}
use profit_playground.Common.Words.{add64, add32}
use profit_playground.Book.State.{Side, opposite}
use profit_playground.Orders.State.{OrderType, is_stop, is_stop_limit}
use profit_playground.Engine.State.{Event, EventType, Trade, Result, event_queue_cap}
use profit_playground.Engine.Emit.{eq_pop}
use profit_playground.Engine.Submit.{submit_order}
use profit_playground.Engine.Stops.{submit_stop, cancel_stop}
use profit_playground.Engine.Manage.{me_cancel_order, me_modify_order}
use profit_playground.Pipeline.Portfolio
use profit_playground.Pipeline.Portfolio.{Portfolio}
use profit_playground.Pipeline.Risk
use profit_playground.Pipeline.Risk.{Risk}
use profit_playground.Pipeline.Bus.{Topic, Payload}
use profit_playground.Pipeline.Gateway
use profit_playground.Pipeline.Gateway.{ring_cap}
use profit_playground.Pipeline.Message.{OrderEvent, is_new, is_cancel, is_modify}
use profit_playground.Pipeline.State.{
  Pipeline, WalLine, pl_now, pl_tick, account, set_account, publish, id_map_remember,
  lookup_account,
}
use Prim.Native.String.{String}

-- The checks of one type: prices are compared with 0 only.
unfoldable pub price_error : OrderType → ℤ → ℤ → Option String
price_error OrderType.limit price trigger =
    if eqb_ℤ price (pos 0) then some "limit-style order requires price > 0" else none
price_error OrderType.ioc price trigger =
    if eqb_ℤ price (pos 0) then some "limit-style order requires price > 0" else none
price_error OrderType.fok price trigger =
    if eqb_ℤ price (pos 0) then some "limit-style order requires price > 0" else none
price_error OrderType.market price trigger =
    if eqb_ℤ price (pos 0) then none else some "market order must have price = 0"
price_error OrderType.stop price trigger =
    if eqb_ℤ trigger (pos 0)
    then some "stop requires trigger_price > 0"
    else if eqb_ℤ price (pos 0)
    then none
    else some "stop-market must have price = 0"
price_error OrderType.stop_limit price trigger =
    if eqb_ℤ trigger (pos 0)
    then some "stop-limit requires trigger_price > 0"
    else if eqb_ℤ price (pos 0)
    then some "stop-limit requires limit price > 0"
    else none
price_error OrderType.unknown price trigger = some "unknown order type"

unfoldable pub stage_validate : OrderEvent → Option String
stage_validate ev = if is_new ev.action then price_error ev.type ev.price ev.trigger_price else none

abbrev wal_line : OrderEvent → WalLine
wal_line ev = record {
  seq_no = ev.seq_no;
  server_order_id = ev.server_order_id;
  account_id = ev.account_id;
  action = ev.action;
  type = ev.type;
  price = ev.price;
  trigger_price = ev.trigger_price;
  qty = ev.qty;
  t_ingress_ns = ev.t_ingress_ns;
}

abbrev append_line : Option (List WalLine) → WalLine → Option (List WalLine)
append_line none line = none
append_line (some lines) line = some (lines ++ (line ∷ []))

unfoldable pub stage_sequence : Pipeline → OrderEvent → Pipeline × OrderEvent
stage_sequence pl ev =
    let seq = add64 pl.next_seq_no 1 in
    let ev' : OrderEvent = record ev { seq_no = seq; t_sequenced_ns = pl_now pl } in
    (
      record (pl_tick pl) {
        next_seq_no = seq;
        wal = append_line pl.wal (wal_line ev');
        sequenced = add64 pl.sequenced 1;
      },
      ev',
    )

unfoldable pub match_new : Pipeline → OrderEvent → Pipeline × Result
match_new pl ev =
    let (stopped, r1) =
      submit_stop pl.engine ev.type ev.side ev.trigger_price ev.price ev.qty ev.ttl_ns in
    let (me, r2) = submit_order pl.engine ev.type ev.side ev.price ev.qty in
    if is_stop ev.type || is_stop_limit ev.type
    then (record pl { engine = stopped }, r1)
    else (record pl { engine = me }, r2)

-- A resting order first, then a dormant stop.
unfoldable pub match_cancel : Pipeline → ℕ → Pipeline
match_cancel pl target_id =
    let (me, cancelled) = me_cancel_order pl.engine target_id in
    let me' = (cancel_stop me target_id).0 in
    if cancelled then record pl { engine = me } else record pl { engine = me' }

abbrev topic_of : EventType → Topic
topic_of EventType.trade = Topic.trade
topic_of EventType.book_updated = Topic.book
topic_of _ = Topic.order

unfoldable pub publish_me_event : Pipeline → Event → Pipeline
publish_me_event pl ev = publish pl (record {
  topic = topic_of ev.type;
  ts_ns = ev.ts;
  account_id = lookup_account pl ev.order_id;
  payload = Payload.event ev;
})

-- One leg of a trade: nothing happens where nobody is known to own the order.
unfoldable pub apply_leg : Pipeline → ℕ → Side → ℤ → ℕ → Pipeline
apply_leg pl order_id side price qty =
    let acct = lookup_account pl order_id in
    let filled : Pipeline = elim (account pl acct) [
      | none ↦ pl
      | some p ↦ set_account pl acct (Portfolio.on_fill p side price qty)
    ] in
    if acct == 0 then pl else filled

unfoldable pub apply_trade : Pipeline → Trade → Pipeline
apply_trade pl t =
    let pl1 = apply_leg pl t.aggressor_id t.aggressor_side t.price t.qty in
    let pl2 = apply_leg pl1 t.resting_id (opposite t.aggressor_side) t.price t.qty in
    record pl2 { risk = Risk.on_trade pl2.risk t.price }

abbrev is_trade : EventType → Bool
is_trade EventType.trade = true
is_trade _ = false

unfoldable pub route_event : Pipeline → Event → Pipeline
route_event pl ev = publish_me_event (if is_trade ev.type then apply_trade pl ev.trade else pl) ev

-- `drain_engine_events`; the queue holds fewer events than its capacity, which is the fuel.
unfoldable pub drain_from : ℕ → Pipeline → Pipeline
drain_from zero pl = pl
drain_from (suc f) pl =
    let (q, out) = eq_pop pl.engine.eq in
    elim out [
      | none ↦ pl
      | some ev ↦
          drain_from f (route_event (record pl { engine = record (pl.engine) { eq = q } }) ev)
    ]

unfoldable pub drain_engine_events : Pipeline → Pipeline
drain_engine_events = drain_from event_queue_cap

-- A refusal behind the gateway, on the bus.
unfoldable pub publish_refusal : Pipeline → OrderEvent → String → Pipeline
publish_refusal pl ev reason = publish (pl_tick pl) (record {
  topic = Topic.gateway;
  ts_ns = pl_now pl;
  account_id = ev.account_id;
  payload = Payload.reason reason;
})

-- The risk stage: `none` lets the event pass. An account that is not registered is not checked.
unfoldable pub stage_risk : Pipeline → OrderEvent → Pipeline × Option String
stage_risk pl ev = elim (account pl ev.account_id) [
  | none ↦ (pl, none)
  | some p ↦
      let ((r, p'), reason) = Risk.check pl.risk p ev in
      (record (set_account pl ev.account_id p') { risk = r }, reason)
]

-- Router and matching: the engine's id of a new order is remembered for the fills.
unfoldable pub stage_match : Pipeline → OrderEvent → Pipeline
stage_match pl ev =
    let (pl1, r) = match_new pl ev in
    let counted = record (pl_tick pl1) { matched = add64 pl1.matched 1 } in
    let modified = (me_modify_order pl.engine ev.target_order_id ev.new_price ev.new_qty).0 in
    if is_new ev.action
    then (if r.id == 0
        then counted
        else id_map_remember counted r.id ev.account_id ev.side ev.price ev.qty)
    else if is_cancel ev.action
    then match_cancel pl ev.target_order_id
    else if is_modify ev.action
    then record pl { engine = modified }
    else pl

-- What follows the risk stage.
unfoldable pub execute : Pipeline → OrderEvent → Pipeline
execute pl ev =
    let stamped : OrderEvent = record ev { t_risk_ns = pl_now pl } in
    let (pl', ev') = stage_sequence (pl_tick pl) stamped in
    drain_engine_events (stage_match pl' ev')

-- What follows the validation.
unfoldable pub risk_and_execute : Pipeline → OrderEvent → Pipeline
risk_and_execute pl ev =
    let stamped : OrderEvent = record ev { t_validated_ns = pl_now pl } in
    let validated : Pipeline = record (pl_tick pl) { validated = add64 pl.validated 1 } in
    let (pl', reason) = stage_risk validated stamped in
    elim reason [
      | none ↦ execute pl' stamped
      | some text ↦
          let refused = publish_refusal pl' stamped text in
          record refused { risk_rejected = add64 refused.risk_rejected 1 }
    ]

-- The body of the loop of `pipeline_step`.
unfoldable pub process : Pipeline → OrderEvent → Pipeline
process pl ev = elim (stage_validate ev) [
  | none ↦ risk_and_execute pl ev
  | some reason ↦ publish_refusal pl ev reason
]

-- `pipeline_step`: the ring holds fewer events than its capacity, which is the fuel, and no stage
-- puts one into it.
unfoldable pub step_from : ℕ → Pipeline → ℕ → Pipeline × ℕ
step_from zero pl processed = (pl, processed)
step_from (suc f) pl processed =
    let (ring, out) = Gateway.ring_pop pl.gateway.out_ring in
    elim out [
      | none ↦ (pl, processed)
      | some ev ↦
          step_from f (process (record pl { gateway = record (pl.gateway) { out_ring = ring } }) ev)
            (add32 processed 1)
    ]

unfoldable pub pipeline_step : Pipeline → Pipeline × ℕ
pipeline_step pl = step_from ring_cap pl 0
