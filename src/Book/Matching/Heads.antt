-- ===== src/Book/Matching/Heads.antt =====
-- One round of the fill loop, told by the orders that wait.
use profit_playground.Common.{
  ℕ, suc, ◌-◌, ◌^◌, ◌<◌, ◌≤◌, ◌≡◌, ◌≢◌, inl, inr, refl, sym, ap, ap₂, ◌∙◌, subst, arith, true, List,
  [], ◌∷◌, ◌++◌, map,
}
use profit_playground.Common.Words.{sub64, add32}
use profit_playground.Book.State.{Book, Side, Match, level, order, max_orders}
use profit_playground.Book.Pool.{order_pool_free}
use profit_playground.Book.Fifo.{level_dequeue}
use profit_playground.Book.Fifo.Chain.{In, Distinct, Chain}
use profit_playground.Book.Fifo.Queue.{IsQueue}
use profit_playground.Book.Fifo.Leave.{level_dequeue-IsQueue}
use profit_playground.Book.Matching.{Run, fill_qty, record_fill, take_fill, drop_filled, fill_head}
use profit_playground.Book.Matching.Rounds.{
  take_fill-IsQueue, order_pool_free-IsQueue, qty-take_fill, qty-take_fill_self, id-take_fill,
  qty-free, id-free, qty-level_dequeue, id-level_dequeue,
}

-- An order of the queue as its id and what it has left.
abbrev pub Waiting : Type 0
Waiting = ℕ × ℕ

abbrev pub waiting : Book → ℕ → Waiting
waiting b k = ((order b k).id, (order b k).qty_remain)

-- Every order of the queue has something left.
unfoldable pub Live : Book → List ℕ → Type 0
Live b [] = Unit
Live b (k ∷ ks) = (0 < (order b k).qty_remain) × ((order b k).qty_remain < 2 ^ 64) × Live b ks

abbrev pub fill_of : Match → Waiting
fill_of m = (m.resting_id, m.qty)

-- The rest of a book that a round at `k` leaves alone.
record Others (b b' : Book) (k : ℕ) : Type 0 where
  id : (j : ℕ) → j ≢ k → (order b' j).id ≡ (order b j).id
  qty : (j : ℕ) → j ≢ k → (order b' j).qty_remain ≡ (order b j).qty_remain

waiting-Others :
    (b b' : Book) (k : ℕ) (q : List ℕ)
    → Others b b' k
    → (In k q → ⊥)
    → map (waiting b') q ≡ map (waiting b) q
unfolding In
waiting-Others b b' k [] o new = refl
waiting-Others b b' k (x ∷ xs) o new =
    let ne : x ≢ k = λ e. new (inl (sym e)) in
    ap₂ ◌∷◌ (ap₂ (λ i n. (i, n)) (o.id x ne) (o.qty x ne))
      (waiting-Others b b' k xs o (λ h. new (inr h)))

Live-Others :
    (b b' : Book) (k : ℕ) (q : List ℕ) → Others b b' k → (In k q → ⊥) → Live b q → Live b' q
unfolding In Live
Live-Others b b' k [] o new live = tt
Live-Others b b' k (x ∷ xs) o new (some, word, live) =
    let same = o.qty x (λ e. new (inl (sym e))) in
    (rw same some, rw same word, Live-Others b b' k xs o (λ h. new (inr h)) live)

-- The book after the head took a fill.
abbrev taken : Run → Side → ℕ → ℕ → Book
taken r opp li k =
    take_fill r.store.book opp li k (fill_qty r.qty_remain (order r.store.book k).qty_remain)

module _ (r : Run) (opp : Side) (li k : ℕ) (at : (level r.store.book li).head_idx ≡ k)
    (room : r.mc < max_orders) where
  -- What the round writes down.
  noted :
      let b = r.store.book in
      let r' = fill_head true opp li r in
      (r'.mc ≡ add32 r.mc 1)
      × (map fill_of r'.fills
          ≡ map fill_of (
              r.fills
              ++ (record {
                resting_id = (order b k).id;
                price = (level b li).price;
                qty = fill_qty r.qty_remain (order b k).qty_remain;
                ts = r.store.clock r.store.reads;
              }
                  ∷ [])))
      × (r'.qty_remain ≡ sub64 r.qty_remain (fill_qty r.qty_remain (order b k).qty_remain))
  unfolding fill_head record_fill
  noted = rw at (ground (arith, room))

  -- The head keeps something.
  head_stays :
      (order (taken r opp li k) k).qty_remain ≢ 0
      → (fill_head true opp li r).store.book ≡ taken r opp li k
  unfolding fill_head record_fill drop_filled
  head_stays some_left = rw at (ground (arith, room, some_left))

  head_leaves :
      (order (taken r opp li k) k).qty_remain ≡ 0
      → (fill_head true opp li r).store.book
        ≡ order_pool_free (level_dequeue (taken r opp li k) li k) k
  unfolding fill_head record_fill drop_filled
  head_leaves none_left = rw at (ground (arith, room, none_left))

map-snoc :
    (ms : List Match) (m : Match)
    → map fill_of (ms ++ (m ∷ [])) ≡ map fill_of ms ++ (fill_of m ∷ [])
map-snoc [] m = refl
map-snoc (x ∷ xs) m = ap (λ t. fill_of x ∷ t) (map-snoc xs m)

Others-taken : (r : Run) (opp : Side) (li k : ℕ) → Others r.store.book (taken r opp li k) k
Others-taken r opp li k = record {
  id = λ j ne. id-take_fill r.store.book li k _ opp j;
  qty = λ j ne. qty-take_fill r.store.book li k _ opp j ne;
}

module _ (opp : Side) (li k : ℕ) (ks : List ℕ) (r : Run) (v : IsQueue r.store.book li (k ∷ ks))
    (live : Live r.store.book (k ∷ ks)) (word : r.qty_remain < 2 ^ 64)
    (some_need : r.qty_remain ≢ 0) (room : r.mc < max_orders) where
  abbrev pub b : Book
  b = r.store.book

  abbrev pub have : ℕ
  have = (order b k).qty_remain

  at_head : (level b li).head_idx ≡ k
  unfolding Chain
  at_head = v.chain.0

  alone : In k ks → ⊥
  unfolding Distinct
  alone = v.distinct.0

  small : have < 2 ^ 64
  unfolding Live
  small = live.1

  abbrev pub Kept : Book → Type 0
  Kept c =
      IsQueue c li (k ∷ ks)
      × Live c (k ∷ ks)
      × (map (waiting c) (k ∷ ks) ≡ ((order b k).id, have - r.qty_remain) ∷ map (waiting b) ks)

  -- The aggressor is done at the head.
  pub round_partial :
      r.qty_remain < have
      → let r' = fill_head true opp li r in
        Kept r'.store.book
        × (r'.qty_remain ≡ 0)
        × (map fill_of r'.fills ≡ map fill_of r.fills ++ (((order b k).id, r.qty_remain) ∷ []))
  unfolding Live
  round_partial less =
      let t = taken r opp li k in
      let qty : fill_qty r.qty_remain have ≡ r.qty_remain = ground (arith, less) in
      let left : (order t k).qty_remain ≡ have - r.qty_remain =
        omega
          (arith, qty-take_fill_self b li k (fill_qty r.qty_remain have) opp, qty, less, small) in
      let note = noted r opp li k at_head room in
      let others = Others-taken r opp li k in
      let same : (fill_head true opp li r).store.book ≡ t =
        head_stays r opp li k at_head room (λ h. omega (arith, h, left, less)) in
      (
        subst Kept (sym same) (
          take_fill-IsQueue b opp li k (fill_qty r.qty_remain have) ks v (omega (arith, qty, less))
              small,
          (
            omega (arith, left, less),
            omega (arith, left, small),
            Live-Others b t k ks others alone live.2,
          ),
          ap₂ ◌∷◌
              (ap₂ (λ i n. (i, n)) (id-take_fill b li k (fill_qty r.qty_remain have) opp k) left)
              (waiting-Others b t k ks others alone),
        ),
        omega (arith, note.2, qty, word),
        note.1
            ∙ map-snoc r.fills _
            ∙ ap (λ n. map fill_of r.fills ++ (((order b k).id, n) ∷ [])) qty,
      )

  -- The head is done.
  pub round_full :
      have ≤ r.qty_remain
      → let r' = fill_head true opp li r in
        IsQueue r'.store.book li ks
        × Live r'.store.book ks
        × (r'.qty_remain ≡ r.qty_remain - have)
        × (map (waiting r'.store.book) ks ≡ map (waiting b) ks)
        × (map fill_of r'.fills ≡ map fill_of r.fills ++ (((order b k).id, have) ∷ []))
        × (r'.mc ≡ suc r.mc)
  unfolding Live
  round_full enough =
      let t = taken r opp li k in
      let d = level_dequeue t li k in
      let qty : fill_qty r.qty_remain have ≡ have = ground (arith, enough) in
      let left : (order t k).qty_remain ≡ 0 =
        omega (arith, qty-take_fill_self b li k (fill_qty r.qty_remain have) opp, qty, small) in
      let note = noted r opp li k at_head room in
      let others : Others b (order_pool_free d k) k = record {
        id = λ j ne. id-free d k j ne ∙ id-level_dequeue t li k j ∙ id-take_fill b li k _ opp j;
        qty = λ j ne. qty-free d k j ∙ qty-level_dequeue t li k j ∙ qty-take_fill b li k _ opp j ne;
      } in
      let queue : IsQueue t li (k ∷ ks) =
        take_fill-IsQueue b opp li k (fill_qty r.qty_remain have) ks v (omega (arith, qty)) small in
      rw (head_leaves r opp li k at_head room left) (
        order_pool_free-IsQueue d li k ks
            (level_dequeue-IsQueue t li k [] ks queue (omega (arith, left))),
        Live-Others b (order_pool_free d k) k ks others alone live.2,
        omega (arith, note.2, qty, word, enough),
        waiting-Others b (order_pool_free d k) k ks others alone,
        note.1
            ∙ map-snoc r.fills _
            ∙ ap (λ n. map fill_of r.fills ++ (((order b k).id, n) ∷ [])) qty,
        omega (arith, note.0, room),
      )
