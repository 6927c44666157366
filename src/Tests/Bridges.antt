-- ===== src/Tests/Bridges.antt =====
-- A process of two symbols, with the calls on the first one.
use profit_playground.Common.{
  ℕ, ◌-◌, ◌≡◌, ◌<◌, refl, true, false, none, some, subst, ap, ◌∙◌, [], ◌∷◌, arith,
}
use profit_playground.Common.Int.{pos}
use profit_playground.Book.State.{Store, Side, zero_entry}
use profit_playground.Book.Manage.{empty_book}
use profit_playground.Orders.State.{OrderType}
use profit_playground.Pipeline.Message.{Action}
use profit_playground.Pipeline.Gateway.{GwClock}
use profit_playground.Pipeline.Gateway
use profit_playground.Pipeline.Idem.{idem_find, find_from}
use profit_playground.Pipeline.State.{pipeline_submit, pipeline_init, pipeline_subscribe}
use profit_playground.Ring.{push}
use profit_playground.Engine.Manage.{me_cancel_order}
use profit_playground.Bridge.Registry.Queue
use profit_playground.Bridge.Registry.Queue.{
  backlog_refines, backlog, join, numbered, drop_first, IsEventQueue,
}
use profit_playground.Bridge.Process.Symbols.{
  Call, Reached, start, later, one_symbol_per_id, add_symbol-forgets,
}
use profit_playground.Bridge.State.{BridgePipeline, BridgeMsg, BridgeAck, zero_bridge_event}
use profit_playground.Bridge.Registry
use profit_playground.Bridge.Registry.{slot_for, push_event, poll_event}
use profit_playground.Bridge.Submit
use profit_playground.Bridge.Submit.Outcome.{Settles, submit-Settles}
use profit_playground.Bridge.Process
use profit_playground.Bridge.Process.{Process, open_symbol}

abbrev no_symbols : Process
no_symbols = record {
  symbols = λ i. Process.new_symbol store [] 0;
  symbol_count = 0;
  shared = store;
}
  where
    store : Store
    store = record { book = empty_book; lookup = λ i. zero_entry; clock = λ n. n; reads = 0 }

abbrev buy : BridgeMsg
buy = record {
  action = Action.new;
  client_order_id = 5;
  account_id = 7;
  type = OrderType.limit;
  side = Side.bid;
  price = pos 100;
  trigger_price = pos 0;
  qty = 10;
  ttl_ns = 0;
  target_order_id = 0;
  new_price = pos 0;
  new_qty = 0;
}

abbrev at_one : GwClock
at_one = record { ingress = 1; normalized = 2; acked = 3 }

abbrev one_symbol : Process
one_symbol = (Process.add_symbol no_symbols (some (65 ∷ [])) true).0

abbrev two_symbols : Process
two_symbols = (Process.add_symbol one_symbol (some (66 ∷ [])) true).0

abbrev first : BridgePipeline
first = open_symbol two_symbols 0

abbrev bought : Process × BridgeAck
bought = Process.submit two_symbols (some 0) (some buy) at_one

admitted : Submit.submit first buy at_one ≡ Submit.forward first buy 0 at_one
unfolding Submit.submit Submit.target_of
admitted = refl

first_ack :
    ((Submit.submit first buy at_one).1.server_order_id ≡ 1)
    × (Submit.is_accepted (Submit.submit first buy at_one).1.status ≡ true)
unfolding Submit.submit Submit.target_of Submit.forward pipeline_submit Gateway.submit
    Gateway.stage_a_ingress Submit.to_gateway Gateway.finish Gateway.stage_c_admit
    Process.add_symbol Process.find_symbol Process.append_symbol Process.new_symbol
    pipeline_subscribe pipeline_init Gateway.init Gateway.rl_take Gateway.rl_refill
    Gateway.deduplicate Gateway.assign Gateway.enqueue Gateway.ring_push Gateway.stage_b_normalize
    push idem_find find_from Process.eqb_symbol
first_ack = (refl, refl)

first_base : first.id_base ≡ 0
unfolding Process.add_symbol Process.find_symbol Process.append_symbol Process.new_symbol
    Process.eqb_symbol
first_base = refl

submit-Settles_example : Settles first buy (Submit.submit first buy at_one)
submit-Settles_example =
    submit-Settles first buy at_one refl first_ack.1 (omega (arith, first_ack.0, first_base))
      (omega (arith, first_ack.0, first_base))

new_queue : IsEventQueue first
unfolding Process.add_symbol Process.find_symbol Process.append_symbol Process.new_symbol
    Process.eqb_symbol
new_queue = record { head_in = omega arith; tail_in = omega arith }

backlog_refines_example :
    let (bp', out) = poll_event first in
    (backlog (push_event first zero_bridge_event)
      ≡ join (backlog first) (numbered first zero_bridge_event))
    × IsEventQueue (push_event first zero_bridge_event)
    × (backlog bp' ≡ record (backlog first) { waiting = drop_first (backlog first).waiting })
    × (out ≡ Queue.first (backlog first).waiting)
    × IsEventQueue bp'
backlog_refines_example = backlog_refines first zero_bridge_event new_queue

Reached-one : Reached one_symbol
Reached-one = later (start no_symbols refl) (Call.symbol no_symbols (some (65 ∷ [])) true)

Reached-two : Reached two_symbols
Reached-two = later Reached-one (Call.symbol one_symbol (some (66 ∷ [])) true)

one_count : one_symbol.symbol_count ≡ 1
unfolding Process.add_symbol Process.find_symbol Process.append_symbol Process.new_symbol
one_count = refl

-- The first symbol with an order in its first slot.
abbrev listed : Process
listed = bought.0

Reached-listed : Reached listed
Reached-listed = later Reached-two (Call.order two_symbols (some 0) (some buy) at_one)

listed_count : listed.symbol_count ≡ 2
unfolding Process.submit Process.add_symbol Process.find_symbol Process.append_symbol
    Process.new_symbol Process.eqb_symbol
listed_count = refl

listed_first : listed.symbols 0 ≡ (Submit.submit first buy at_one).0
unfolding Process.submit
listed_first = refl

in_slot_0 : slot_for (listed.symbols 0) 1 ≡ some 0
in_slot_0 =
    let found =
      (submit-Settles first buy at_one refl first_ack.1 (omega (arith, first_ack.0, first_base))
        (omega (arith, first_ack.0, first_base))).slot_found in
    rw listed_first (
      subst
        (λ id. slot_for (Submit.submit first buy at_one).0 id ≡ some (Registry.local_of first id))
        first_ack.0 found
      ∙ ap (λ base. some (1 - base - 1)) first_base)

one_symbol_per_id_example : slot_for (listed.symbols 1) 1 ≡ none
one_symbol_per_id_example =
    one_symbol_per_id listed 0 1 1 0 Reached-listed (omega (arith, listed_count))
      (omega (arith, listed_count)) in_slot_0 (omega arith)

unlisted : Process.find_symbol one_symbol.symbols one_symbol.symbol_count 0 (66 ∷ []) ≡ none
unfolding Process.find_symbol Process.eqb_symbol Process.add_symbol Process.append_symbol
    Process.new_symbol
unlisted = refl

add_symbol-forgets_example :
    let (q, handle) = Process.add_symbol one_symbol (some (66 ∷ [])) true in
    (handle ≡ some one_symbol.symbol_count)
    × ((i id : ℕ)
        → i < one_symbol.symbol_count
        → (q.symbols i ≡ one_symbol.symbols i)
          × ((me_cancel_order (open_symbol q i).pl.engine id).1 ≡ false))
add_symbol-forgets_example =
    add_symbol-forgets one_symbol (66 ∷ []) (omega arith) (omega arith) unlisted
      (omega (arith, one_count))
