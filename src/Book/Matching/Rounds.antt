-- ===== src/Book/Matching/Rounds.antt =====
-- One round of the fill loop on the queue of its level.
use profit_playground.Common.{
  ℕ, ◌%◌, ◌^◌, ◌<◌, ◌≤◌, ◌≡◌, ◌≢◌, inl, inr, refl, sym, ap, ◌∙◌, subst, arith, List, [], ◌∷◌,
}
use profit_playground.Common.Words.{sub64}
use profit_playground.Book.State.{Book, Side, level, order, null_idx}
use profit_playground.Book.Pool.{order_pool_free}
use profit_playground.Book.Fifo.{level_dequeue}
use profit_playground.Book.Fifo.Chain.{In, Distinct, Chain, Chain-same}
use profit_playground.Book.Fifo.Queue.{IsQueue, prev_of, next_of, resting, resting-cons}
use profit_playground.Book.Matching.{take_fill}

-- An operation that touches no link and keeps the ends and the count keeps the queue.
IsQueue-relink :
    (b b' : Book) (li : ℕ) (q : List ℕ)
    → IsQueue b li q
    → ((k : ℕ) → prev_of b' k ≡ prev_of b k)
    → ((k : ℕ) → next_of b' k ≡ next_of b k)
    → (level b' li).head_idx ≡ (level b li).head_idx
    → (level b' li).tail_idx ≡ (level b li).tail_idx
    → (level b' li).order_count ≡ (level b li).order_count
    → (level b' li).total_qty ≡ resting b' q % 2 ^ 64
    → IsQueue b' li q
IsQueue-relink b b' li q v hp hn head tail count total = record {
  chain =
      subst (λ h. Chain (prev_of b') (next_of b') null_idx h q (level b' li).tail_idx null_idx)
        (sym head)
        (subst (λ t. Chain (prev_of b') (next_of b') null_idx (level b li).head_idx q t null_idx)
          (sym tail)
          (Chain-same (prev_of b) (next_of b) (prev_of b') (next_of b') null_idx _ q _ null_idx hp
            hn v.chain));
  distinct = v.distinct;
  count = count ∙ v.count;
  total = total;
}

pub resting-In :
    (b b' : Book) (q : List ℕ)
    → ((k : ℕ) → In k q → (order b' k).qty_remain ≡ (order b k).qty_remain)
    → resting b' q ≡ resting b q
unfolding resting In
resting-In b b' [] h = refl
resting-In b b' (x ∷ xs) h = omega (arith, h x (inl refl), resting-In b b' xs (λ k m. h k (inr m)))

module _ (b : Book) (li oi qty : ℕ) where
  prev-take_fill : (opp : Side) (k : ℕ) → prev_of (take_fill b opp li oi qty) k ≡ prev_of b k
  unfolding take_fill
  prev-take_fill Side.bid k = ground arith
  prev-take_fill Side.ask k = ground arith
  prev-take_fill Side.count k = ground arith

  next-take_fill : (opp : Side) (k : ℕ) → next_of (take_fill b opp li oi qty) k ≡ next_of b k
  unfolding take_fill
  next-take_fill Side.bid k = ground arith
  next-take_fill Side.ask k = ground arith
  next-take_fill Side.count k = ground arith

  pub id-take_fill :
      (opp : Side) (k : ℕ) → (order (take_fill b opp li oi qty) k).id ≡ (order b k).id
  unfolding take_fill
  id-take_fill Side.bid k = ground arith
  id-take_fill Side.ask k = ground arith
  id-take_fill Side.count k = ground arith

  pub qty-take_fill :
      (opp : Side) (k : ℕ)
      → k ≢ oi
      → (order (take_fill b opp li oi qty) k).qty_remain ≡ (order b k).qty_remain
  unfolding take_fill
  qty-take_fill Side.bid k ne = ground (arith, ne)
  qty-take_fill Side.ask k ne = ground (arith, ne)
  qty-take_fill Side.count k ne = ground (arith, ne)

  pub qty-take_fill_self :
      (opp : Side)
      → (order (take_fill b opp li oi qty) oi).qty_remain ≡ sub64 (order b oi).qty_remain qty
  unfolding take_fill
  qty-take_fill_self Side.bid = ground arith
  qty-take_fill_self Side.ask = ground arith
  qty-take_fill_self Side.count = ground arith

  level-take_fill :
      (opp : Side)
      → let lv = level (take_fill b opp li oi qty) li in
        (lv.head_idx ≡ (level b li).head_idx)
        × (lv.tail_idx ≡ (level b li).tail_idx)
        × (lv.order_count ≡ (level b li).order_count)
        × (lv.total_qty ≡ sub64 (level b li).total_qty qty)
  unfolding take_fill
  level-take_fill Side.bid = ground arith
  level-take_fill Side.ask = ground arith
  level-take_fill Side.count = ground arith

-- A fill of the head, of at most what it has, keeps the queue.
pub take_fill-IsQueue :
    (b : Book) (opp : Side) (li oi qty : ℕ) (q : List ℕ)
    → IsQueue b li (oi ∷ q)
    → qty ≤ (order b oi).qty_remain
    → (order b oi).qty_remain < 2 ^ 64
    → IsQueue (take_fill b opp li oi qty) li (oi ∷ q)
unfolding Distinct
take_fill-IsQueue b opp li oi qty q v enough word =
    let b' = take_fill b opp li oi qty in
    let lv = level-take_fill b li oi qty opp in
    let rest : resting b' q ≡ resting b q =
      resting-In b b' q
        (λ k h. qty-take_fill b li oi qty opp k (λ e. v.distinct.0 (subst (λ j. In j q) e h))) in
    IsQueue-relink b b' li (oi ∷ q) v (prev-take_fill b li oi qty opp)
      (next-take_fill b li oi qty opp) lv.0 lv.1 lv.2
      (omega (
        arith,
        lv.3,
        v.total,
        rest,
        resting-cons b oi q,
        resting-cons b' oi q,
        qty-take_fill_self b li oi qty opp,
        enough,
        word,
      ))

module _ (b : Book) (oi : ℕ) where
  prev-free : (k : ℕ) → prev_of (order_pool_free b oi) k ≡ prev_of b k
  unfolding order_pool_free
  prev-free k = ground arith

  next-free : (k : ℕ) → next_of (order_pool_free b oi) k ≡ next_of b k
  unfolding order_pool_free
  next-free k = ground arith

  pub qty-free : (k : ℕ) → (order (order_pool_free b oi) k).qty_remain ≡ (order b k).qty_remain
  unfolding order_pool_free
  qty-free k = ground arith

  pub id-free : (k : ℕ) → k ≢ oi → (order (order_pool_free b oi) k).id ≡ (order b k).id
  unfolding order_pool_free
  id-free k ne = ground (arith, ne)

pub order_pool_free-IsQueue :
    (b : Book) (li oi : ℕ) (q : List ℕ) → IsQueue b li q → IsQueue (order_pool_free b oi) li q
unfolding order_pool_free
order_pool_free-IsQueue b li oi q v =
    IsQueue-relink b (order_pool_free b oi) li q v (prev-free b oi) (next-free b oi) refl refl refl
      (v.total
        ∙ ap (λ n. n % 2 ^ 64)
            (sym (resting-In b (order_pool_free b oi) q (λ k h. qty-free b oi k))))

module _ (b : Book) (li oi : ℕ) where
  pub qty-level_dequeue :
      (k : ℕ) → (order (level_dequeue b li oi) k).qty_remain ≡ (order b k).qty_remain
  unfolding level_dequeue
  qty-level_dequeue k = ground arith

  pub id-level_dequeue : (k : ℕ) → (order (level_dequeue b li oi) k).id ≡ (order b k).id
  unfolding level_dequeue
  id-level_dequeue k = ground arith
