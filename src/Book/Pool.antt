-- ===== src/Book/Pool.antt =====
-- engine/orderbook.c, the pool allocators: free slots on a stack of indices.
use profit_playground.Common.{ℕ, ◌-◌, if◌then◌else◌, ◌==◌, update}
use profit_playground.Common.Words.{add16}
use profit_playground.Book.State.{Book, null_idx, order}

-- `null_idx` if no slot is free. `--top` runs only where `top` is not 0.
unfoldable pub order_pool_alloc : Book → Book × ℕ
order_pool_alloc b = if b.order_free_top == 0 then (b, null_idx) else (
  record b { order_free_top = b.order_free_top - 1 },
  b.order_free_stack (b.order_free_top - 1),
)

-- The slot's `id` and `expiry_ts` are cleared, so that a sweep of the pool skips it.
unfoldable pub order_pool_free : Book → ℕ → Book
order_pool_free b idx = record b {
  order_pool = update b.order_pool idx (record (order b idx) { id = 0; expiry_ts = 0 });
  order_free_stack = update b.order_free_stack b.order_free_top idx;
  order_free_top = add16 b.order_free_top 1;
}

unfoldable pub level_pool_alloc : Book → Book × ℕ
level_pool_alloc b = if b.level_free_top == 0 then (b, null_idx) else (
  record b { level_free_top = b.level_free_top - 1 },
  b.level_free_stack (b.level_free_top - 1),
)

unfoldable pub level_pool_free : Book → ℕ → Book
level_pool_free b idx = record b {
  level_free_stack = update b.level_free_stack b.level_free_top idx;
  level_free_top = add16 b.level_free_top 1;
}
