-- ===== src/Book/Fifo/Queue.antt =====
-- The queue of a price level: an order joins at the tail, and leaves from wherever it stands.
use profit_playground.Common.{
  ℕ, ◌+◌, ◌%◌, ◌^◌, ◌≡◌, ◌≢◌, inl, inr, refl, sym, ◌∙◌, subst, arith, List, [], ◌∷◌, ◌++◌, length,
  length-append, if◌then◌else◌, ◌==◌,
}
use profit_playground.Book.State.{Book, level, order, null_idx}
use profit_playground.Book.Fifo.{level_enqueue}
use profit_playground.Book.Fifo.Chain.{
  In, Distinct, Chain, Chain-rewire, Chain-append, Chain-last, Chain-real, Distinct-snoc,
}

abbrev pub prev_of : Book → ℕ → ℕ
prev_of b k = (order b k).prev_idx

abbrev pub next_of : Book → ℕ → ℕ
next_of b k = (order b k).next_idx

-- The resting quantity of a list of slots.
unfoldable pub resting : Book → List ℕ → ℕ
resting b [] = 0
resting b (k ∷ ks) = (order b k).qty_remain + resting b ks

-- The slots of a level, the oldest first; its two totals are machine words.
pub record IsQueue (b : Book) (li : ℕ) (q : List ℕ) : Type 0 where
  pub chain :
      Chain (prev_of b) (next_of b) null_idx (level b li).head_idx q (level b li).tail_idx null_idx
  pub distinct : Distinct q
  pub count : (level b li).order_count ≡ length q % 2 ^ 32
  pub total : (level b li).total_qty ≡ resting b q % 2 ^ 64

-- What the two operations do to the links.
module _ (b : Book) (li oi : ℕ) where
  prev-enqueue : (k : ℕ) → k ≢ oi → prev_of (level_enqueue b li oi) k ≡ prev_of b k
  unfolding level_enqueue
  prev-enqueue k ne = ground (arith, ne)

  prev-enqueue_self : prev_of (level_enqueue b li oi) oi ≡ (level b li).tail_idx
  unfolding level_enqueue
  prev-enqueue_self = ground arith

  next-enqueue :
      (k : ℕ) → k ≢ oi → k ≢ (level b li).tail_idx → next_of (level_enqueue b li oi) k ≡ next_of b k
  unfolding level_enqueue
  next-enqueue k ne inner = ground (arith, ne, inner)

  next-enqueue_tail :
      (level b li).tail_idx ≢ null_idx
      → (level b li).tail_idx ≢ oi
      → next_of (level_enqueue b li oi) (level b li).tail_idx ≡ oi
  unfolding level_enqueue
  next-enqueue_tail real ne = ground (arith, real, ne)

  next-enqueue_self : (level b li).tail_idx ≢ oi → next_of (level_enqueue b li oi) oi ≡ null_idx
  unfolding level_enqueue
  next-enqueue_self ne = ground (arith, ne)

  qty-enqueue : (k : ℕ) → (order (level_enqueue b li oi) k).qty_remain ≡ (order b k).qty_remain
  unfolding level_enqueue
  qty-enqueue k = ground arith

  ends-enqueue :
      let lv = level (level_enqueue b li oi) li in
      (lv.head_idx ≡ (if (level b li).tail_idx == null_idx then oi else (level b li).head_idx))
      × (lv.tail_idx ≡ oi)
      × (lv.order_count ≡ ((level b li).order_count + 1) % 2 ^ 32)
      × (lv.total_qty ≡ ((level b li).total_qty + (order b oi).qty_remain) % 2 ^ 64)
  unfolding level_enqueue
  ends-enqueue = ground arith

pub resting-append :
    (b : Book) (xs ys : List ℕ) → resting b (xs ++ ys) ≡ resting b xs + resting b ys
unfolding resting
resting-append b [] ys = omega arith
resting-append b (x ∷ xs) ys = omega (arith, resting-append b xs ys)

pub resting-same :
    (b b' : Book) (q : List ℕ)
    → ((k : ℕ) → (order b' k).qty_remain ≡ (order b k).qty_remain)
    → resting b' q ≡ resting b q
unfolding resting
resting-same b b' [] h = refl
resting-same b b' (x ∷ xs) h = omega (arith, h x, resting-same b b' xs h)

pub resting-cons :
    (b : Book) (k : ℕ) (ks : List ℕ) → resting b (k ∷ ks) ≡ (order b k).qty_remain + resting b ks
unfolding resting
resting-cons b k ks = refl

resting-one : (b : Book) (oi : ℕ) → resting b (oi ∷ []) ≡ (order b oi).qty_remain
unfolding resting
resting-one b oi = omega arith

linked-enqueue :
    (b : Book) (li oi : ℕ) (q : List ℕ)
    → Chain (prev_of b) (next_of b) null_idx (level b li).head_idx q (level b li).tail_idx null_idx
    → Distinct q
    → (In oi q → ⊥)
    → oi ≢ null_idx
    → let b' = level_enqueue b li oi in
      Chain
        (prev_of b')
        (next_of b')
        null_idx
        (level b' li).head_idx
        (q ++ (oi ∷ []))
        (level b' li).tail_idx
        null_idx
unfolding Chain In
linked-enqueue b li oi [] (no_head, no_tail) d new real =
    let ends = ends-enqueue b li oi in
    let tail : (level b li).tail_idx ≡ null_idx = sym no_tail in
    let apart : (level b li).tail_idx ≢ oi = λ h. real (sym h ∙ tail) in
    (
      ground (arith, ends, tail),
      real,
      prev-enqueue_self b li oi ∙ tail,
      (next-enqueue_self b li oi apart, sym ends.1),
    )
linked-enqueue b li oi (x ∷ xs) chain d new real =
    let b' = level_enqueue b li oi in
    let ends = ends-enqueue b li oi in
    let tail = (level b li).tail_idx in
    let has : In tail (x ∷ xs) =
      Chain-last (prev_of b) (next_of b) null_idx (level b li).head_idx x xs tail null_idx chain in
    let tail_real : tail ≢ null_idx =
      Chain-real (prev_of b) (next_of b) null_idx (level b li).head_idx (x ∷ xs) tail null_idx tail
        chain has in
    let apart : tail ≢ oi = λ h. new (subst (λ k. In k (x ∷ xs)) h has) in
    let other : (k : ℕ) → In k (x ∷ xs) → k ≢ oi = λ k h e. new (subst (λ j. In j (x ∷ xs)) e h) in
    let head : (level b' li).head_idx ≡ (level b li).head_idx = ground (arith, ends.0, tail_real) in
    let old : Chain (prev_of b') (next_of b') null_idx (level b li).head_idx (x ∷ xs) tail oi =
      Chain-rewire (prev_of b) (next_of b) (prev_of b') (next_of b') null_idx (level b li).head_idx
        x xs tail null_idx null_idx oi chain d
        (prev-enqueue b li oi x (other x (inl refl)) ∙ chain.2)
        (λ k h. prev-enqueue b li oi k (other k (inr h)))
        (next-enqueue_tail b li oi tail_real apart)
        (λ k h inner. next-enqueue b li oi k (other k h) inner) in
    let last : Chain (prev_of b') (next_of b') tail oi (oi ∷ []) (level b' li).tail_idx null_idx =
      (refl, real, prev-enqueue_self b li oi, (next-enqueue_self b li oi apart, sym ends.1)) in
    subst
      (λ h.
        Chain (prev_of b') (next_of b') null_idx h (x ∷ (xs ++ (oi ∷ []))) (level b' li).tail_idx
          null_idx)
      (sym head)
      (Chain-append (prev_of b') (next_of b') null_idx (level b li).head_idx (x ∷ xs) (oi ∷ []) tail
        oi (level b' li).tail_idx null_idx old last)

-- On a level linked as a queue, enqueuing an order that does not wait there, in a slot other than
-- the null index, gives the level linked as that queue with the order at its end, with its count
-- and total quantity.
pub level_enqueue-IsQueue :
    (b : Book) (li oi : ℕ) (q : List ℕ)
    → IsQueue b li q
    → (In oi q → ⊥)
    → oi ≢ null_idx
    → IsQueue (level_enqueue b li oi) li (q ++ (oi ∷ []))
level_enqueue-IsQueue b li oi q v new real = record {
  chain = linked-enqueue b li oi q v.chain v.distinct new real;
  distinct = Distinct-snoc q oi v.distinct new;
  count = omega (arith, ends.2, v.count, length-append q (oi ∷ []));
  total = omega (
    arith,
    ends.3,
    v.total,
    resting-same b b' (q ++ (oi ∷ [])) (qty-enqueue b li oi),
    resting-append b q (oi ∷ []),
    one,
  );
}
  where
    b' : Book
    b' = level_enqueue b li oi

    ends :
        (let lv = level b' li in
          (lv.head_idx ≡ (if (level b li).tail_idx == null_idx then oi else (level b li).head_idx))
          × (lv.tail_idx ≡ oi)
          × (lv.order_count ≡ ((level b li).order_count + 1) % 2 ^ 32)
          × (lv.total_qty ≡ ((level b li).total_qty + (order b oi).qty_remain) % 2 ^ 64))
    ends = ends-enqueue b li oi

    one : resting b (oi ∷ []) ≡ (order b oi).qty_remain
    one = resting-one b oi
