-- ===== src/Lib.antt =====
-- ProfitPlayground: the C matching engine and the order pipeline around it.
--
-- The program is a limit order book, a matching engine on top of it, and a pipeline that takes client
-- messages to the engine and trades to accounts. A client message enters `gateway_submit`, which
-- validates, normalises and admits it, and pushes an event on a ring. `pipeline_step` pops the ring:
-- each event is validated, checked for risk against its account, sequenced, and given to the engine.
-- The engine preprocesses an order (engine/orders.c), matches it in the book (engine/orderbook.c),
-- and pushes events on a ring of its own, which the pipeline drains to the accounts and the bus. The
-- bridge keeps one pipeline per symbol, a registry of its orders, and a queue of events for a client.
--
-- Which file models which code:
--   Common         numbers, machine words, integers and list lemmas that the others share
--   Book           engine/orderbook.h and .c: State (the types), Pool (order_pool_*, level_pool_*),
--                  Lookup (lookup_*), Fifo (level_*), Avl (avl_*), Matching (match_against_side),
--                  Manage (ob_init, ob_add_order, ob_cancel_order, ob_modify_order), Query.
--                  Tree is the search tree that the level indices stand for, Avl.Shape that tree
--                  with its stored heights, which Avl.Insert and Avl.Erase keep balanced, Avl.Levels the
--                  finite map from prices to levels that these trees stand for, Manage.Opening
--                  the level that a resting order finds or opens, Matching.Empty the level that a
--                  match leaves empty, Fifo.Chain and
--                  Fifo.Queue the queue of a level, and Matching.Priority the plain queue that the
--                  fill loop is compared with
--   Ring           eq_push and eq_pop of engine/matching_engine.c, gw_ring_push and gw_ring_pop of
--                  pipeline/gateway.c; Ring.Queue is the queue that a ring stands for
--   Orders         engine/orders.h and .c: Validate, Liquidity (orders_fok_check), Preprocess
--   Engine         engine/matching_engine.h and .c: State, Emit (the events), Submit
--                  (me_submit_order, check_stops), Stops (me_submit_stop, me_cancel_stop,
--                  me_expire_orders), Manage; Reach has the engine's calls as steps and the states that
--                  they reach
--   Pipeline       pipeline/: Portfolio, Risk, Message and Gateway (gateway.h, gateway.c), Idem (the
--                  idempotency cache of gateway.c), Bus (event_bus.c), State and Stages (pipeline.c)
--   Bridge         bridge/bridge.h and .c: State (the types), Registry (slot_for, push_event,
--                  bridge_poll_event, bridge_get_order), Staging (on_bus_event,
--                  process_staged_events), Submit (bridge_submit, bridge_cancel and the market data of
--                  one symbol), Process (g_symbols, bridge_add_symbol and the calls by handle)
--   Tests          concrete inputs
--
-- A pointer to a shared structure is a record that a function takes and returns. The pools of the
-- book are functions of an index, linked by indices as in the code. `Store` holds the book, the
-- process-wide table `g_lookup` and the clock, which is a sequence of readings. Unsigned machine
-- integers wrap around where the code's do; `int64_t`, whose overflow C leaves undefined, is an exact
-- integer.
--
-- Loops run on fuel. The recursion over a tree has as much fuel as the level pool has slots, the
-- inner match loop one round more than the order pool has slots, and the outer loop one more than
-- the level pool. The scan of a table has its capacity.
--
-- Not modelled: printing, the read-write lock of the book, the choice of the clock, the
-- demonstration programs, the HTTP service and the web client.
pub mod Common
pub mod Book
pub mod Ring
pub mod Orders
pub mod Engine
pub mod Pipeline
pub mod Bridge
pub mod Tests
