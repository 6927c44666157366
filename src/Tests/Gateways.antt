-- ===== src/Tests/Gateways.antt =====
-- The gateway of pipeline/gateway.c with a bid of account 7.
use profit_playground.Common.{ℕ, ◌≡◌, ◌≢◌, ◌↔◌, refl, inl, arith, true, [], ◌∷◌, none}
use profit_playground.Common.Int.{pos}
use profit_playground.Ring.{push}
use profit_playground.Book.State.{Side}
use profit_playground.Orders.State.{OrderType}
use profit_playground.Pipeline.Message.{Source, Action, AckStatus, RawMsg, is_new}
use profit_playground.Pipeline.Idem.{idem_find, find_from}
use profit_playground.Pipeline.Idem.Recall.{HasRoom, HasRoomFor}
use profit_playground.Ring.Queue.{IsValid}
use profit_playground.Pipeline.Gateway.Queueing.{Queued, queue, submit-Queued}
use profit_playground.Pipeline.Gateway.{
  ring_cap, Gateway, GwClock, init, submit, stage_a_ingress, stage_b_normalize, stage_c_admit,
  finish, enqueue, deduplicate, assign, rl_refill, rl_take, ring_push,
}
use profit_playground.Pipeline.Gateway.Policy.{submit_all, submit_once}
use profit_playground.Pipeline.Gateway.FullRing.{full_ring_loses, one_dropped}
use profit_playground.Pipeline.Gateway.Counters.{killed_iff, counts, count_answer, counts-submit}

abbrev bid : ℕ → RawMsg
bid key = record {
  source = Source.api;
  action = Action.new;
  client_order_id = key;
  account_id = 7;
  type = OrderType.limit;
  side = Side.bid;
  price = pos 100;
  trigger_price = pos 0;
  qty = 5;
  ttl_ns = 0;
  target_order_id = 0;
  new_price = pos 0;
  new_qty = 0;
}

abbrev at : ℕ → GwClock
at n = record { ingress = n; normalized = n; acked = n }

room : HasRoomFor init.idem 7 42
unfolding HasRoom init
room = inl refl

submit_once_example :
    ((submit
        (submit_all (submit init (bid 42) (at 1)).0 ((bid 43, at 2) ∷ []))
        (bid 42)
        (at 3)).1.status
      ≢ AckStatus.accepted)
    × ((submit
            (submit_all (submit init (bid 42) (at 1)).0 ((bid 43, at 2) ∷ []))
            (bid 42)
            (at 3)).1.status
          ≡ AckStatus.duplicate
        → (submit
            (submit_all (submit init (bid 42) (at 1)).0 ((bid 43, at 2) ∷ []))
            (bid 42)
            (at 3)).1.server_order_id
          ≡ (submit init (bid 42) (at 1)).1.server_order_id)
unfolding submit init stage_a_ingress stage_b_normalize stage_c_admit finish enqueue deduplicate
    assign rl_refill rl_take ring_push push idem_find find_from
submit_once_example =
    submit_once init (bid 42) (at 1) ((bid 43, at 2) ∷ []) (bid 42) (at 3) (omega arith) room refl
      refl refl

-- 4095 orders wait in the ring.
abbrev full : Gateway
full = record init { out_ring = record (init.out_ring) { head = 4095 } }

room_full : HasRoomFor full.idem 7 42
unfolding HasRoom init
room_full = inl refl

full_ring_loses_example :
    ((submit full (bid 42) (at 1)).1.status ≡ AckStatus.throttled)
    × ((submit full (bid 42) (at 1)).0.out_ring ≡ one_dropped full.out_ring)
    × ((submit (submit_all (submit full (bid 42) (at 1)).0 []) (bid 42) (at 2)).1.status
        ≢ AckStatus.accepted)
unfolding init stage_a_ingress stage_b_normalize stage_c_admit deduplicate assign rl_refill rl_take
    idem_find find_from
full_ring_loses_example =
    full_ring_loses full (bid 42) (at 1) [] (bid 42) (at 2) (omega arith) room_full refl refl refl
      refl refl

abbrev halted : Gateway
halted = record init { kill_switch = true }

killed_iff_example : ((submit halted (bid 42) (at 1)).1.status ≡ AckStatus.killed) ↔ (
    (halted.kill_switch ≡ true)
    × (is_new (bid 42).action ≡ true)
    × (stage_a_ingress (bid 42) ≡ none))
killed_iff_example = killed_iff halted (bid 42) (at 1)

counts-submit_example :
    counts (submit full (bid 42) (at 1)).0
    ≡ count_answer (submit full (bid 42) (at 1)).1.status (counts full)
counts-submit_example = counts-submit full (bid 42) (at 1)

init-IsValid : IsValid ring_cap init.out_ring
unfolding init
init-IsValid = record { head_in = omega arith; tail_in = omega arith }

submit-Queued_example : Queued (bid 42) (queue init) (submit init (bid 42) (at 1))
submit-Queued_example = submit-Queued init (bid 42) (at 1) init-IsValid
