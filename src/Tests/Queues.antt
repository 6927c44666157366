-- ===== src/Tests/Queues.antt =====
-- A level at 100 where three orders wait: 5, 3 and 4, with ids 11, 12 and 13.
use profit_playground.Common.{ℕ, refl, arith, true, [], ◌∷◌, if◌then◌else◌, ◌==◌}
use profit_playground.Common.Int.{pos}
use profit_playground.Book.State.{Book, Order, Side, zero_level, zero_order, zero_entry, null_idx}
use profit_playground.Book.Fifo.{level_enqueue, level_dequeue}
use profit_playground.Book.Fifo.Chain.{In, Distinct, Chain}
use profit_playground.Book.Fifo.Queue.{IsQueue, resting, level_enqueue-IsQueue}
use profit_playground.Book.Fifo.Leave.{level_dequeue-IsQueue}
use profit_playground.Book.Matching.{Run, fill_level}
use profit_playground.Book.Matching.Heads.{Live}
use profit_playground.Book.Matching.Priority.{Served, fill_level-Served}

abbrev orders : ℕ → Order
orders i =
    if i == 0
    then record zero_order { id = 11; qty_remain = 5; prev_idx = null_idx; next_idx = 1 }
    else if i == 1
    then record zero_order { id = 12; qty_remain = 3; prev_idx = 0; next_idx = 2 }
    else if i == 2
    then record zero_order { id = 13; qty_remain = 4; prev_idx = 1; next_idx = null_idx }
    else record zero_order { id = 14; qty_remain = 6 }

abbrev waiting_three : Book
waiting_three = record {
  bids = record { root_idx = null_idx; level_count = 0; total_qty = 0 };
  asks = record { root_idx = 0; level_count = 1; total_qty = 12 };
  next_order_id = 15;
  total_orders_added = 4;
  total_orders_cancelled = 0;
  order_pool = orders;
  order_free_stack = λ i. i;
  order_free_top = 4092;
  level_pool = λ i. record zero_level {
    price = pos 100;
    total_qty = 12;
    order_count = 3;
    head_idx = 0;
    tail_idx = 2;
    left_idx = null_idx;
    right_idx = null_idx;
  };
  level_free_stack = λ i. i;
  level_free_top = 511;
}

three-IsQueue : IsQueue waiting_three 0 (0 ∷ 1 ∷ 2 ∷ [])
unfolding Chain Distinct In resting
three-IsQueue = record {
  chain =
      (refl, omega arith, refl, (refl, omega arith, refl, (refl, omega arith, refl, (refl, refl))));
  distinct = (λ h. ground (arith, h), (λ h. ground (arith, h), (λ h. h, tt)));
  count = refl;
  total = refl;
}

not_waiting : In 3 (0 ∷ 1 ∷ 2 ∷ []) → ⊥
unfolding In
not_waiting h = ground (arith, h)

level_enqueue-IsQueue_example : IsQueue (level_enqueue waiting_three 0 3) 0 (0 ∷ 1 ∷ 2 ∷ 3 ∷ [])
level_enqueue-IsQueue_example =
    level_enqueue-IsQueue waiting_three 0 3 (0 ∷ 1 ∷ 2 ∷ []) three-IsQueue not_waiting (omega arith)

-- The order in the middle leaves.
level_dequeue-IsQueue_example : IsQueue (level_dequeue waiting_three 0 1) 0 (0 ∷ 2 ∷ [])
level_dequeue-IsQueue_example =
    level_dequeue-IsQueue waiting_three 0 1 (0 ∷ []) (2 ∷ []) three-IsQueue (omega arith)

three-Live : Live waiting_three (0 ∷ 1 ∷ 2 ∷ [])
unfolding Live
three-Live = (omega arith, omega arith, (omega arith, omega arith, (omega arith, omega arith, tt)))

-- An aggressor that needs 6.
abbrev needs_six : Run
needs_six = record {
  store = record { book = waiting_three; lookup = λ i. zero_entry; clock = λ n. n; reads = 0 };
  qty_remain = 6;
  fills = [];
  mc = 0;
}

fill_level-Served_example :
    Served 0 (0 ∷ 1 ∷ 2 ∷ []) needs_six (fill_level 4 true Side.ask 0 needs_six)
fill_level-Served_example =
    fill_level-Served 4 Side.ask 0 (0 ∷ 1 ∷ 2 ∷ []) needs_six three-IsQueue three-Live (omega arith)
      (omega arith) (omega arith)
