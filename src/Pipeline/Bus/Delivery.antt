-- ===== src/Pipeline/Bus/Delivery.antt =====
-- Whom `bus_publish` calls.
use profit_playground.Common.{
  ◌*◌, ◌/◌, true, false, ℕ, zero, suc, ◌+◌, ◌%◌, ◌^◌, ◌<◌, ◌≡◌, refl, sym, ◌∙◌, arith, Bool-cases,
  inl, inr, if◌then◌else◌, List, [], ◌∷◌, ◌++◌, length, append_assoc, append-nil,
}
use profit_playground.Common.Words.{add64}
use profit_playground.Pipeline.Bus.{Bus, Sub, Topic, Msg, listens, publish_from, publish}

-- The handlers of the `n` subscribers from `i` on that listen to the topic.
unfoldable listeners : ℕ → ℕ → Topic → (ℕ → Sub) → List ℕ
listeners zero i t subs = []
listeners (suc n) i t subs =
    let rest = listeners n (i + 1) t subs in
    if listens (subs i) t then (subs i).handler ∷ rest else rest

-- What a publication gives.
pub record Delivered (b : Bus) (heard : List ℕ) (before : List ℕ) (r : Bus × List ℕ) : Type 0 where
  pub called : r.1 ≡ before ++ heard
  pub counted : r.0.delivered ≡ (b.delivered + length heard) % 2 ^ 64
  pub subs : r.0.subs ≡ b.subs
  pub subscribed : r.0.sub_count ≡ b.sub_count
  pub published : r.0.published ≡ b.published

publish_from-Delivered :
    (n i : ℕ) (t : Topic) (b : Bus) (called : List ℕ)
    → b.delivered < 2 ^ 64
    → Delivered b (listeners n i t b.subs) called (publish_from n i t b called)
unfolding publish_from listeners
publish_from-Delivered zero i t b called word = record {
  called = sym (append-nil called);
  counted = omega (arith, word);
  subs = refl;
  subscribed = refl;
  published = refl;
}
publish_from-Delivered (suc n) i t b called word = elim (Bool-cases (listens (b.subs i) t)) [
  | inl hears ↦
      let d =
        publish_from-Delivered n (i + 1) t (record b { delivered = add64 b.delivered 1 })
          (called ++ ((b.subs i).handler ∷ [])) (omega arith) in
      rw hears (record {
        called = d.called ∙ append_assoc called ((b.subs i).handler ∷ []) _;
        counted = omega (arith, d.counted);
        subs = d.subs;
        subscribed = d.subscribed;
        published = d.published;
      })
  | inr deaf ↦
      let d = publish_from-Delivered n (i + 1) t b called word in
      rw deaf (record {
        called = d.called;
        counted = d.counted;
        subs = d.subs;
        subscribed = d.subscribed;
        published = d.published;
      })
]

-- What each topic is worth in a mask.
abbrev pub worth : Topic → ℕ
worth Topic.order = 1
worth Topic.trade = 2
worth Topic.book = 4
worth Topic.portfolio = 8
worth Topic.gateway = 16

-- A mask has a topic, or lacks it: above what the topic is worth stands an odd number, or an even one.
abbrev pub Has : ℕ → Topic → Type 0
Has mask t = (q r : ℕ) × (r < worth t) × (mask ≡ (q + q + 1) * worth t + r)

abbrev pub Lacks : ℕ → Topic → Type 0
Lacks mask t = (q r : ℕ) × (r < worth t) × (mask ≡ (q + q) * worth t + r)

-- The handlers to call for a topic, of the `n` subscriptions from `i` on.
pub data Heard (subs : ℕ → Sub) (t : Topic) : ℕ → ℕ → List ℕ → Type 0 where
  over : (i : ℕ) → Heard subs t 0 i []
  hears :
      {n i : ℕ} {hs : List ℕ}
      → Has (subs i).topic_mask t
      → Heard subs t n (i + 1) hs
      → Heard subs t (suc n) i ((subs i).handler ∷ hs)
  passes :
      {n i : ℕ} {hs : List ℕ}
      → Lacks (subs i).topic_mask t
      → Heard subs t n (i + 1) hs
      → Heard subs t (suc n) i hs

Has-listens : (s : Sub) (t : Topic) → listens s t ≡ true → Has s.topic_mask t
Has-listens s Topic.order h =
    (s.topic_mask / 2, s.topic_mask % 1, ground (arith, h), ground (arith, h))
Has-listens s Topic.trade h =
    (s.topic_mask / 4, s.topic_mask % 2, ground (arith, h), ground (arith, h))
Has-listens s Topic.book h =
    (s.topic_mask / 8, s.topic_mask % 4, ground (arith, h), ground (arith, h))
Has-listens s Topic.portfolio h =
    (s.topic_mask / 16, s.topic_mask % 8, ground (arith, h), ground (arith, h))
Has-listens s Topic.gateway h =
    (s.topic_mask / 32, s.topic_mask % 16, ground (arith, h), ground (arith, h))

Lacks-listens : (s : Sub) (t : Topic) → listens s t ≡ false → Lacks s.topic_mask t
Lacks-listens s Topic.order h =
    (s.topic_mask / 2, s.topic_mask % 1, ground (arith, h), ground (arith, h))
Lacks-listens s Topic.trade h =
    (s.topic_mask / 4, s.topic_mask % 2, ground (arith, h), ground (arith, h))
Lacks-listens s Topic.book h =
    (s.topic_mask / 8, s.topic_mask % 4, ground (arith, h), ground (arith, h))
Lacks-listens s Topic.portfolio h =
    (s.topic_mask / 16, s.topic_mask % 8, ground (arith, h), ground (arith, h))
Lacks-listens s Topic.gateway h =
    (s.topic_mask / 32, s.topic_mask % 16, ground (arith, h), ground (arith, h))

Heard-listeners : (n i : ℕ) (t : Topic) (subs : ℕ → Sub) → Heard subs t n i (listeners n i t subs)
unfolding listeners
Heard-listeners zero i t subs = over i
Heard-listeners (suc n) i t subs = elim (Bool-cases (listens (subs i) t)) [
  | inl yes_it ↦
      rw yes_it (hears (Has-listens (subs i) t yes_it) (Heard-listeners n (i + 1) t subs))
  | inr not_it ↦
      rw not_it (passes (Lacks-listens (subs i) t not_it) (Heard-listeners n (i + 1) t subs))
]

-- With a delivery counter that is a 64-bit word, a publication calls the handlers of the
-- subscriptions whose mask has the bit of its topic, each once and in the order of subscription,
-- and of no other; it adds their number to the counter modulo 2^64, counts one publication more
-- and keeps the subscriptions.
pub publish-Delivered :
    (b : Bus) (msg : Msg)
    → b.delivered < 2 ^ 64
    → (heard : List ℕ) × Heard b.subs msg.topic b.sub_count 0 heard
      × Delivered (record b { published = add64 b.published 1 }) heard [] (publish b msg)
unfolding publish
publish-Delivered b msg word = (
  listeners b.sub_count 0 msg.topic b.subs,
  Heard-listeners b.sub_count 0 msg.topic b.subs,
  publish_from-Delivered b.sub_count 0 msg.topic (record b { published = add64 b.published 1 }) []
      word,
)
