-- ===== src/Ring/Queue.antt =====
-- The ring as the bounded first-in first-out queue of its contents: at most `cap - 1` elements, since
-- a full ring keeps one slot free to differ from an empty one.
use native.Mathlib.Nat.{mod-eq_of_lt, mod_self}
use native.Mathlib.Decide.{dec_lt}
use profit_playground.Common.{
  ℕ, zero, suc, ◌+◌, ◌-◌, ◌^◌, ◌≤◌, ◌<◌, ◌≡◌, refl, ap, ◌∙◌, ap₂, ◌≢◌, Bool, true, false, Option,
  none, some, List, [], ◌∷◌, ◌++◌, arith, if◌then◌else◌, ◌==◌, ltb, update, update_self, update_ne,
  length,
}
use profit_playground.Common.Words.{add32}
use profit_playground.Ring.{Ring, next, push, pop}

-- The queue that a ring of capacity `cap` stands for.
unfoldable pub enqueue {ℓ} : {A : Type ℓ} → ℕ → List A → A → List A × Bool
enqueue cap q x = if ltb (suc (length q)) cap then (q ++ (x ∷ []), true) else (q, false)

unfoldable pub dequeue {ℓ} : {A : Type ℓ} → List A → List A × Option A
dequeue [] = ([], none)
dequeue (x ∷ q) = (q, some x)

-- Both indices lie inside the buffer.
pub record IsValid {ℓ} {A : Type ℓ} (cap : ℕ) (r : Ring A) : Type 0 where
  pub head_in : r.head < cap
  pub tail_in : r.tail < cap

-- The number of steps from `t` forward to `h`.
abbrev pub distance : ℕ → ℕ → ℕ → ℕ
distance cap t h = if ltb h t then h + cap - t else h - t

module _ {ℓ} {A : Type ℓ} (cap : ℕ) where
  abbrev pub window : (ℕ → A) → ℕ → ℕ → List A
  window buf t zero = []
  window buf t (suc n) = buf t ∷ window buf (next cap t) n

  -- The elements from `tail` to `head`, the oldest first.
  unfoldable pub contents : Ring A → List A
  contents r = window r.buf r.tail (distance cap r.tail r.head)

module _ (cap : ℕ) (small : cap ≤ 2 ^ 31) where
  add32-one : (i : ℕ) → i < cap → add32 i 1 ≡ suc i
  add32-one i h = omega arith

  -- Inside the buffer the next index is the successor, or 0 at the end.
  pub next_lem : (i : ℕ) → i < cap → next cap i ≡ (if suc i == cap then 0 else suc i)
  next_lem i h = rw (add32-one i h) (elim (dec_lt (suc i) cap) [
    | yes p ↦ ground (arith, mod-eq_of_lt p)
    | no p ↦ ground (arith, mod_self (suc i))
  ])

  next-lt : (i : ℕ) → i < cap → next cap i < cap
  next-lt i h = ground (arith, next_lem i h)

  distance-next :
      (t h : ℕ) → t < cap → h < cap → t ≢ h → suc (distance cap (next cap t) h) ≡ distance cap t h
  distance-next t h ht hh ne = ground (arith, next_lem t ht)

  distance-next_head :
      (t h : ℕ)
      → t < cap
      → h < cap
      → next cap h ≢ t
      → distance cap t (next cap h) ≡ suc (distance cap t h)
  distance-next_head t h ht hh ne = ground (arith, next_lem h hh)

module _ {A : Type 0} (cap : ℕ) (small : cap ≤ 2 ^ 31) where
  pub length-window : (buf : ℕ → A) (t n : ℕ) → length (window cap buf t n) ≡ n
  length-window buf t zero = refl
  length-window buf t (suc n) = ap suc (length-window buf (next cap t) n)

  -- Writing the slot that is `n` steps ahead puts the element at the end of the window.
  window-update :
      (buf : ℕ → A) (x : A) (n t h : ℕ)
      → t < cap
      → h < cap
      → n ≡ distance cap t h
      → window cap (update buf h x) t (suc n) ≡ window cap buf t n ++ (x ∷ [])
  window-update buf x zero t h ht hh e =
      let same : t ≡ h = ground arith in ap (λ y. y ∷ []) (rw same (update_self buf h x))
  window-update buf x (suc n) t h ht hh e =
      let ne : t ≢ h = λ p. ground arith in
      let rest : n ≡ distance cap (next cap t) h =
        omega (arith, distance-next cap small t h ht hh ne) in
      ap₂ ◌∷◌ (update_ne buf h x t ne)
        (window-update buf x n (next cap t) h (next-lt cap small t ht) hh rest)

  -- In a ring of capacity at most 2^31 whose indices lie inside its buffer, a push answers as the
  -- bounded queue of its contents does and leaves the ring holding that queue, with its indices
  -- inside the buffer.
  pub push_refines :
      (width : ℕ) (r : Ring A) (x : A)
      → IsValid cap r
      → let (r', pushed) = push cap width r x in
        ((contents cap r', pushed) ≡ enqueue cap (contents cap r) x) × IsValid cap r'
  unfolding push contents enqueue
  push_refines width r x v = ground (
    arith,
    next_lem cap small r.head v.head_in,
    length-window r.buf r.tail (distance cap r.tail r.head),
    window-update r.buf x (distance cap r.tail r.head) r.tail r.head v.tail_in v.head_in,
    distance-next_head cap small r.tail r.head v.tail_in v.head_in,
  )

  window_of_ne_zero :
      (buf : ℕ → A) (t n : ℕ)
      → n ≢ 0
      → window cap buf t n ≡ buf t ∷ window cap buf (next cap t) (n - 1)
  window_of_ne_zero buf t zero h = absurd (h refl)
  window_of_ne_zero buf t (suc n) h = ap (λ k. window cap buf t (suc k)) (omega arith)

  -- In a ring of capacity at most 2^31 whose indices lie inside its buffer, a pop answers as the
  -- queue of its contents does and leaves the ring holding that queue, with its indices inside the
  -- buffer.
  pub pop_refines :
      (r : Ring A)
      → IsValid cap r
      → let (r', out) = pop cap r in
        ((contents cap r', out) ≡ dequeue (contents cap r)) × IsValid cap r'
  unfolding pop contents dequeue
  pop_refines r v = ground (
    arith,
    next-lt cap small r.tail v.tail_in,
    window_of_ne_zero r.buf r.tail (distance cap r.tail r.head),
    distance-next cap small r.tail r.head v.tail_in v.head_in,
  )

  -- Both answers of a push.
  pub contents-push :
      (width : ℕ) (r : Ring A) (x : A)
      → IsValid cap r
      → let (r', pushed) = push cap width r x in
        (pushed ≡ true → contents cap r' ≡ contents cap r ++ (x ∷ []))
        × (pushed ≡ false → contents cap r' ≡ contents cap r)
        × IsValid cap r'
  unfolding enqueue
  contents-push width r x v =
      let (same, valid) = push_refines width r x v in
      let answers = ap (λ p. p.1) same in
      let queues = ap (λ p. p.0) same in
      elim (dec_lt (suc (length (contents cap r))) cap) [
        | yes room ↦ (
          λ h. queues ∙ ground (arith, room),
          λ h. absurd (ground (arith, room, answers, h)),
          valid,
        )
        | no full ↦ (
          λ h. absurd (ground (arith, full, answers, h)),
          λ h. queues ∙ ground (arith, full),
          valid,
        )
      ]
