-- ===== src/Book/Fifo/Leave.antt =====
-- An order that leaves the queue of its level, from the head, the middle or the tail.
use profit_playground.Common.{
  ℕ, ◌^◌, ◌<◌, ◌≡◌, ◌≢◌, inl, inr, refl, sym, ap, ◌∙◌, subst, arith, List, [], ◌∷◌, ◌++◌,
  length-append, if◌then◌else◌, ◌==◌,
}
use profit_playground.Common.Words.{sub32, sub64}
use profit_playground.Book.State.{Book, level, order, null_idx}
use profit_playground.Book.Fifo.{level_dequeue}
use profit_playground.Book.Fifo.Chain.{
  In, Distinct, Chain, Chain-rewire, Chain-append, Chain-split, Chain-last, Chain-real, Chain-end,
  Distinct-Around, Around,
}
use profit_playground.Book.Fifo.Queue.{
  IsQueue, prev_of, next_of, resting-append, resting-same, resting-cons,
}

-- What the operation does to the links.
module _ (b : Book) (li oi : ℕ) (prev_apart : prev_of b oi ≢ oi)
    (next_apart : next_of b oi ≢ oi) where
  prev-dequeue :
      (k : ℕ) → k ≢ oi → k ≢ next_of b oi → prev_of (level_dequeue b li oi) k ≡ prev_of b k
  unfolding level_dequeue
  prev-dequeue k ne inner = ground (arith, ne, inner, prev_apart, next_apart)

  prev-dequeue_next :
      next_of b oi ≢ null_idx → prev_of (level_dequeue b li oi) (next_of b oi) ≡ prev_of b oi
  unfolding level_dequeue
  prev-dequeue_next real = ground (arith, real, prev_apart, next_apart)

  next-dequeue :
      (k : ℕ) → k ≢ oi → k ≢ prev_of b oi → next_of (level_dequeue b li oi) k ≡ next_of b k
  unfolding level_dequeue
  next-dequeue k ne inner = ground (arith, ne, inner, prev_apart, next_apart)

  next-dequeue_prev :
      prev_of b oi ≢ null_idx → next_of (level_dequeue b li oi) (prev_of b oi) ≡ next_of b oi
  unfolding level_dequeue
  next-dequeue_prev real = ground (arith, real, prev_apart, next_apart)

  qty-dequeue : (k : ℕ) → (order (level_dequeue b li oi) k).qty_remain ≡ (order b k).qty_remain
  unfolding level_dequeue
  qty-dequeue k = ground arith

  ends-dequeue :
      let lv = level (level_dequeue b li oi) li in
      (lv.head_idx ≡ (if prev_of b oi == null_idx then next_of b oi else (level b li).head_idx))
      × (lv.tail_idx ≡ (if next_of b oi == null_idx then prev_of b oi else (level b li).tail_idx))
      × (lv.order_count ≡ sub32 (level b li).order_count 1)
      × (lv.total_qty ≡ sub64 (level b li).total_qty (order b oi).qty_remain)
  unfolding level_dequeue
  ends-dequeue = ground (arith, prev_apart, next_apart)

-- The two halves of the queue around the order that leaves.
module _ (b : Book) (li oi : ℕ) (real : oi ≢ null_idx) (prev_apart : prev_of b oi ≢ oi)
    (next_apart : next_of b oi ≢ oi) where
  abbrev after : Book
  after = level_dequeue b li oi

  front :
      (xs : List ℕ)
      → Chain (prev_of b) (next_of b) null_idx (level b li).head_idx xs (prev_of b oi) oi
      → Distinct xs
      → (In oi xs → ⊥)
      → ((k : ℕ) → In k xs → k ≢ next_of b oi)
      → Chain
          (prev_of after)
          (next_of after)
          null_idx
          (level after li).head_idx
          xs
          (prev_of b oi)
          (next_of b oi)
  unfolding Chain In
  front [] (at, end) d new clear =
      (ground (arith, (ends-dequeue b li oi prev_apart next_apart).0, end), end)
  front (x ∷ xs) chain d new clear =
      let m = prev_of b oi in
      let has : In m (x ∷ xs) =
        Chain-last (prev_of b) (next_of b) null_idx (level b li).head_idx x xs m oi chain in
      let m_real : m ≢ null_idx =
        Chain-real (prev_of b) (next_of b) null_idx (level b li).head_idx (x ∷ xs) m oi m chain
          has in
      let other : (k : ℕ) → In k (x ∷ xs) → k ≢ oi =
        λ k h e. new (subst (λ j. In j (x ∷ xs)) e h) in
      let head : (level after li).head_idx ≡ (level b li).head_idx =
        ground (arith, (ends-dequeue b li oi prev_apart next_apart).0, m_real) in
      subst (λ h. Chain (prev_of after) (next_of after) null_idx h (x ∷ xs) m (next_of b oi))
        (sym head)
        (Chain-rewire (prev_of b) (next_of b) (prev_of after) (next_of after) null_idx
          (level b li).head_idx x xs m oi null_idx (next_of b oi) chain d
          (prev-dequeue b li oi prev_apart next_apart x (other x (inl refl)) (clear x (inl refl))
            ∙ chain.2)
          (λ k h. prev-dequeue b li oi prev_apart next_apart k (other k (inr h)) (clear k (inr h)))
          (next-dequeue_prev b li oi prev_apart next_apart m_real)
          (λ k h inner. next-dequeue b li oi prev_apart next_apart k (other k h) inner))

  back :
      (ys : List ℕ)
      → Chain (prev_of b) (next_of b) oi (next_of b oi) ys (level b li).tail_idx null_idx
      → Distinct ys
      → (In oi ys → ⊥)
      → ((k : ℕ) → In k ys → k ≢ prev_of b oi)
      → Chain
          (prev_of after)
          (next_of after)
          (prev_of b oi)
          (next_of b oi)
          ys
          (level after li).tail_idx
          null_idx
  unfolding Chain In Distinct
  back [] (end, at) d new clear =
      (end, ground (arith, (ends-dequeue b li oi prev_apart next_apart).1, end))
  back (y ∷ ys) chain d new clear =
      let l = (level b li).tail_idx in
      let has : In l (y ∷ ys) =
        Chain-last (prev_of b) (next_of b) oi (next_of b oi) y ys l null_idx chain in
      let n_real : next_of b oi ≢ null_idx = λ h. chain.1 (sym chain.0 ∙ h) in
      let other : (k : ℕ) → In k (y ∷ ys) → k ≢ oi =
        λ k h e. new (subst (λ j. In j (y ∷ ys)) e h) in
      let tail : (level after li).tail_idx ≡ l =
        ground (arith, (ends-dequeue b li oi prev_apart next_apart).1, n_real) in
      subst
        (λ h.
          Chain (prev_of after) (next_of after) (prev_of b oi) (next_of b oi) (y ∷ ys) h null_idx)
        (sym tail)
        (Chain-rewire (prev_of b) (next_of b) (prev_of after) (next_of after) oi (next_of b oi) y ys
          l null_idx (prev_of b oi) null_idx chain d
          (ap (prev_of after) (sym chain.0)
            ∙ prev-dequeue_next b li oi prev_apart next_apart n_real)
          (λ k h.
            prev-dequeue b li oi prev_apart next_apart k (other k (inr h))
              (λ e. d.0 (subst (λ j. In j ys) (e ∙ chain.0) h)))
          (next-dequeue b li oi prev_apart next_apart l (other l has) (clear l has)
            ∙ Chain-end (prev_of b) (next_of b) oi (next_of b oi) y ys l null_idx chain)
          (λ k h inner. next-dequeue b li oi prev_apart next_apart k (other k h) (clear k h)))

last_out :
    (pv nx : ℕ → ℕ) (i : ℕ) (xs : List ℕ) (m e k : ℕ)
    → Chain pv nx null_idx i xs m e
    → k ≢ null_idx
    → (In k xs → ⊥)
    → m ≢ k
unfolding Chain
last_out pv nx i [] m e k (at, end) real new h = real (sym h ∙ sym end)
last_out pv nx i (x ∷ xs) m e k chain real new h =
    new (subst (λ j. In j (x ∷ xs)) h (Chain-last pv nx null_idx i x xs m e chain))

first_out :
    (pv nx : ℕ → ℕ) (p n : ℕ) (ys : List ℕ) (l k : ℕ)
    → Chain pv nx p n ys l null_idx
    → k ≢ null_idx
    → (In k ys → ⊥)
    → n ≢ k
unfolding Chain In
first_out pv nx p n [] l k (end, at) real new h = real (sym h ∙ end)
first_out pv nx p n (y ∷ ys) l k chain real new h = new (inl (sym h ∙ chain.0))

-- On a level linked as a queue, dequeuing an order that waits anywhere in it with a 64-bit
-- remainder gives the level linked as the queue without it, with its count and total quantity.
pub level_dequeue-IsQueue :
    (b : Book) (li oi : ℕ) (xs ys : List ℕ)
    → IsQueue b li (xs ++ (oi ∷ ys))
    → (order b oi).qty_remain < 2 ^ 64
    → IsQueue (level_dequeue b li oi) li (xs ++ ys)
level_dequeue-IsQueue b li oi xs ys v word = record {
  chain =
      Chain-append (prev_of b') (next_of b') null_idx (level b' li).head_idx xs ys (prev_of b oi)
        (next_of b oi) (level b' li).tail_idx null_idx
        (front b li oi real prev_apart next_apart xs halves.0 around.before around.not_before
          (λ k h e.
            first_out (prev_of b) (next_of b) oi (next_of b oi) ys tail k halves.2
              (Chain-real (prev_of b) (next_of b) null_idx (level b li).head_idx xs (prev_of b oi)
                oi k halves.0 h)
              (around.apart k h) (sym e)))
        (back b li oi real prev_apart next_apart ys halves.2 around.after around.not_after (λ k h e.
          last_out (prev_of b) (next_of b) (level b li).head_idx xs (prev_of b oi) oi k halves.0
            (Chain-real (prev_of b) (next_of b) oi (next_of b oi) ys tail null_idx k halves.2 h)
            (λ g. around.apart k g h) (sym e)));
  distinct = around.rest;
  count = omega (arith, ends.2, v.count, length-append xs (oi ∷ ys), length-append xs ys);
  total = omega (
    arith,
    word,
    ends.3,
    v.total,
    resting-append b xs (oi ∷ ys),
    resting-append b xs ys,
    resting-cons b oi ys,
    resting-same b b' (xs ++ ys) (qty-dequeue b li oi prev_apart next_apart),
  );
}
  where
    b' : Book
    b' = level_dequeue b li oi

    tail : ℕ
    tail = (level b li).tail_idx

    halves :
        Chain (prev_of b) (next_of b) null_idx (level b li).head_idx xs (prev_of b oi) oi
        × (oi ≢ null_idx)
        × Chain (prev_of b) (next_of b) oi (next_of b oi) ys tail null_idx
    halves =
        Chain-split (prev_of b) (next_of b) null_idx (level b li).head_idx xs oi ys tail null_idx
          v.chain

    real : oi ≢ null_idx
    real = halves.1

    around : Around xs oi ys
    around = Distinct-Around xs oi ys v.distinct

    prev_apart : prev_of b oi ≢ oi
    prev_apart =
        last_out (prev_of b) (next_of b) (level b li).head_idx xs (prev_of b oi) oi oi halves.0 real
          around.not_before

    next_apart : next_of b oi ≢ oi
    next_apart =
        first_out (prev_of b) (next_of b) oi (next_of b oi) ys tail oi halves.2 real
          around.not_after

    ends :
        (let lv = level b' li in
          (lv.head_idx ≡ (if prev_of b oi == null_idx then next_of b oi else (level b li).head_idx))
          × (lv.tail_idx
              ≡ (if next_of b oi == null_idx then prev_of b oi else (level b li).tail_idx))
          × (lv.order_count ≡ sub32 (level b li).order_count 1)
          × (lv.total_qty ≡ sub64 (level b li).total_qty (order b oi).qty_remain))
    ends = ends-dequeue b li oi prev_apart next_apart
