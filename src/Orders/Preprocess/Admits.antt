-- ===== src/Orders/Preprocess/Admits.antt =====
-- Which orders `orders_preprocess` lets through.
use profit_playground.Common.{ℕ, ◌^◌, ◌≡◌, ◌≢◌, ◌↔◌, ◌≤◌, ◌<◌, ◌-◌, arith, leb}
use profit_playground.Common.Int.{ℤ, pos, ◌<ℤ◌}
use profit_playground.Book.State.{Book, Side, side_of, opposite}
use profit_playground.Book.Tree.{Tree, IsTree}
use profit_playground.Book.Tree.Sums.{total}
use profit_playground.Orders.State.{OrderType, Flow}
use profit_playground.Orders.Validate.{
  validate_structural, validate_limit, validate_market, validate_stop, validate_stop_limit,
  market_sentinel,
}
use profit_playground.Orders.Liquidity.{fok_check}
use profit_playground.Orders.Liquidity.Sum.{crossing, fok_check_lem}
use profit_playground.Orders.Preprocess.{validate_fok, by_type, preprocess}

-- What each type asks of the price and the book; no stop order passes, since its trigger price is
-- read from the request that has just been cleared.
abbrev pub Priced : Book → Tree → OrderType → Side → ℤ → ℕ → Type 0
Priced b t OrderType.limit side price qty = pos 0 <ℤ price
Priced b t OrderType.market side price qty = price ≡ pos 0
Priced b t OrderType.ioc side price qty = pos 0 <ℤ price
Priced b t OrderType.fok side price qty = (pos 0 <ℤ price) × (qty ≤ total (crossing side price) b t)
Priced b t _ side price qty = ⊥

-- The price that the book is given.
abbrev pub given_price : OrderType → Side → ℤ → ℤ
given_price OrderType.market Side.bid price = pos (2 ^ 63 - 1)
given_price OrderType.market _ price = pos 1
given_price _ side price = price

abbrev pub Admissible : Book → Tree → OrderType → Side → ℤ → ℕ → Type 0
Admissible b t type side price qty =
    (0 < qty) × (side ≢ Side.count) × Priced b t type side price qty

-- What `preprocess` decides once the liquidity is known.
only-Admissible :
    (b : Book) (type : OrderType) (side : Side) (price : ℤ) (qty : ℕ) (t : Tree)
    → fok_check b side price qty ≡ leb qty (total (crossing side price) b t)
    → (preprocess b type side price qty).flow ≢ Flow.reject
    → Admissible b t type side price qty
      × ((preprocess b type side price qty).eff_price ≡ given_price type side price)
unfolding preprocess validate_structural by_type validate_limit validate_market validate_stop
    validate_stop_limit validate_fok market_sentinel
only-Admissible b OrderType.limit side price qty t fok h = ground (arith, fok, h)
only-Admissible b OrderType.market Side.bid price qty t fok h = ground (arith, fok, h)
only-Admissible b OrderType.market Side.ask price qty t fok h = ground (arith, fok, h)
only-Admissible b OrderType.market Side.count price qty t fok h = ground (arith, fok, h)
only-Admissible b OrderType.ioc side price qty t fok h = ground (arith, fok, h)
only-Admissible b OrderType.fok side price qty t fok h = ground (arith, fok, h)
only-Admissible b OrderType.stop side price qty t fok h = ground (arith, fok, h)
only-Admissible b OrderType.stop_limit side price qty t fok h = ground (arith, fok, h)
only-Admissible b OrderType.unknown side price qty t fok h = ground (arith, fok, h)

all-Admissible :
    (b : Book) (type : OrderType) (side : Side) (price : ℤ) (qty : ℕ) (t : Tree)
    → fok_check b side price qty ≡ leb qty (total (crossing side price) b t)
    → Admissible b t type side price qty
    → (preprocess b type side price qty).flow ≢ Flow.reject
unfolding preprocess validate_structural by_type validate_limit validate_market validate_stop
    validate_stop_limit validate_fok market_sentinel
all-Admissible b OrderType.limit side price qty t fok a h = ground (arith, fok, a, h)
all-Admissible b OrderType.market Side.bid price qty t fok a h = ground (arith, fok, a, h)
all-Admissible b OrderType.market Side.ask price qty t fok a h = ground (arith, fok, a, h)
all-Admissible b OrderType.market Side.count price qty t fok a h = ground (arith, fok, a, h)
all-Admissible b OrderType.ioc side price qty t fok a h = ground (arith, fok, a, h)
all-Admissible b OrderType.fok side price qty t fok a h = ground (arith, fok, a, h)
all-Admissible b OrderType.stop side price qty t fok a h = ground (arith, fok, a, h)
all-Admissible b OrderType.stop_limit side price qty t fok a h = ground (arith, fok, a, h)
all-Admissible b OrderType.unknown side price qty t fok a h = ground (arith, fok, a, h)

-- With the other side of the book a search tree that fits the level pool, of less than 2^64
-- crossing liquidity, an order is let through exactly when its quantity is positive, its side is
-- real, and its price suits its type: positive for LIMIT and IOC, 0 for MARKET, positive for FOK
-- with at least its quantity of crossing liquidity in the book, and never for STOP and STOP_LIMIT;
-- what is let through goes to the book at its own price, and a MARKET order at the sentinel of its
-- side.
pub preprocess_lem :
    (b : Book) (type : OrderType) (side : Side) (price : ℤ) (qty : ℕ) (t : Tree)
    → IsTree b (side_of b (opposite side)).root_idx t
    → total (crossing side price) b t < 2 ^ 64
    → let req = preprocess b type side price qty in
      ((req.flow ≢ Flow.reject) ↔ Admissible b t type side price qty)
      × (req.flow ≢ Flow.reject → req.eff_price ≡ given_price type side price)
preprocess_lem b type side price qty t tree small =
    let fok = fok_check_lem b side price qty t tree small in
    (
      (
        λ h. (only-Admissible b type side price qty t fok h).0,
        all-Admissible b type side price qty t fok,
      ),
      λ h. (only-Admissible b type side price qty t fok h).1,
    )
