-- ===== src/Book/Matching/Priority.antt =====
-- The fill loop of one level against the queue that it serves.
use profit_playground.Common.{
  ℕ, zero, suc, ◌+◌, ◌-◌, ◌^◌, ◌<◌, ◌≤◌, ◌≡◌, ◌≢◌, inl, inr, refl, sym, ap, ap₂, ◌∙◌, arith, true,
  false, Bool-cases, List, [], ◌∷◌, ◌++◌, length, if◌then◌else◌, ◌==◌, ◌||◌, ltb, map, append_assoc,
  append-nil,
}
use profit_playground.Book.State.{Side, level, order, null_idx, max_orders}
use profit_playground.Book.Fifo.Chain.{Chain}
use profit_playground.Book.Fifo.Queue.{IsQueue}
use profit_playground.Book.Matching.{Run, fill_head, fill_level}
use profit_playground.Book.Matching.Heads.{
  Waiting, waiting, Live, fill_of, round_partial, round_full,
}

-- What matching comes to on a plain queue: the fills, what is still needed, and who still waits.
unfoldable pub serve_queue : ℕ → List Waiting → List Waiting × ℕ × List Waiting
serve_queue need [] = ([], need, [])
serve_queue need ((id, have) ∷ q) =
    let (fills, left, rest) = serve_queue (need - have) q in
    if need == 0
    then ([], 0, (id, have) ∷ q)
    else if ltb need have
    then ((id, need) ∷ [], 0, (id, have - need) ∷ q)
    else ((id, have) ∷ fills, left, rest)

-- The outcome on the queue `q`, against `serve_queue`.
pub record Served (li : ℕ) (q : List ℕ) (r r' : Run) : Type 0 where
  pub left : List ℕ
  pub queue : IsQueue r'.store.book li left
  pub live : Live r'.store.book left
  pub waits :
      map (waiting r'.store.book) left ≡ (serve_queue r.qty_remain (map (waiting r.store.book) q)).2
  pub fills :
      map fill_of r'.fills
      ≡ map fill_of r.fills ++ (serve_queue r.qty_remain (map (waiting r.store.book) q)).0
  pub need : r'.qty_remain ≡ (serve_queue r.qty_remain (map (waiting r.store.book) q)).1

fill_level-stop :
    (f : ℕ) (opp : Side) (li : ℕ) (r : Run)
    → (r.qty_remain == 0 || (level r.store.book li).head_idx == null_idx) ≡ true
    → fill_level f true opp li r ≡ r
unfolding fill_level
fill_level-stop zero opp li r h = refl
fill_level-stop (suc f) opp li r h = rw h refl

fill_level-go :
    (f : ℕ) (opp : Side) (li : ℕ) (r : Run)
    → (r.qty_remain == 0 || (level r.store.book li).head_idx == null_idx) ≡ false
    → fill_level (suc f) true opp li r ≡ fill_level f true opp li (fill_head true opp li r)
unfolding fill_level
fill_level-go f opp li r h = rw h refl

-- Nothing is needed, or nobody waits.
Served-at_once :
    (opp : Side) (li : ℕ) (q : List ℕ) (r : Run)
    → IsQueue r.store.book li q
    → Live r.store.book q
    → serve_queue r.qty_remain (map (waiting r.store.book) q)
      ≡ ([], r.qty_remain, map (waiting r.store.book) q)
    → Served li q r r
Served-at_once opp li q r v live e = record {
  left = q;
  queue = v;
  live = live;
  waits = sym (ap (λ o. o.2) e);
  fills = sym (append-nil (map fill_of r.fills)) ∙ ap (λ o. map fill_of r.fills ++ o.0) (sym e);
  need = sym (ap (λ o. o.1) e);
}

serve_queue-done : (need : ℕ) (q : List Waiting) → need ≡ 0 → serve_queue need q ≡ ([], need, q)
unfolding serve_queue
serve_queue-done need [] h = refl
serve_queue-done need ((id, have) ∷ q) h = ground (arith, h)

serve_queue-partial :
    (need id have : ℕ) (q : List Waiting)
    → need ≢ 0
    → need < have
    → serve_queue need ((id, have) ∷ q) ≡ ((id, need) ∷ [], 0, (id, have - need) ∷ q)
unfolding serve_queue
serve_queue-partial need id have q some less = ground (arith, some, less)

serve_queue-full :
    (need id have : ℕ) (q : List Waiting)
    → need ≢ 0
    → have ≤ need
    → let rest = serve_queue (need - have) q in
      serve_queue need ((id, have) ∷ q) ≡ ((id, have) ∷ rest.0, rest.1, rest.2)
unfolding serve_queue
serve_queue-full need id have q some enough = ground (arith, some, enough)

-- A round that ends the loop.
Served-partial :
    (opp : Side) (li k : ℕ) (ks : List ℕ) (r : Run)
    → IsQueue r.store.book li (k ∷ ks)
    → Live r.store.book (k ∷ ks)
    → r.qty_remain < 2 ^ 64
    → r.qty_remain ≢ 0
    → r.mc < max_orders
    → r.qty_remain < (order r.store.book k).qty_remain
    → Served li (k ∷ ks) r (fill_head true opp li r)
Served-partial opp li k ks r v live word some room less =
    let (kept, none, noted) = round_partial opp li k ks r v live word some room less in
    let spec =
      serve_queue-partial r.qty_remain (order r.store.book k).id (order r.store.book k).qty_remain
        (map (waiting r.store.book) ks) some less in
    record {
      left = k ∷ ks;
      queue = kept.0;
      live = kept.1;
      waits = kept.2 ∙ sym (ap (λ o. o.2) spec);
      fills = noted ∙ ap (λ o. map fill_of r.fills ++ o.0) (sym spec);
      need = none ∙ sym (ap (λ o. o.1) spec);
    }

-- A round that empties the head, and the rounds behind it.
Served-full :
    (opp : Side) (li k : ℕ) (ks : List ℕ) (r r' : Run)
    → IsQueue r.store.book li (k ∷ ks)
    → Live r.store.book (k ∷ ks)
    → r.qty_remain < 2 ^ 64
    → r.qty_remain ≢ 0
    → r.mc < max_orders
    → (order r.store.book k).qty_remain ≤ r.qty_remain
    → Served li ks (fill_head true opp li r) r'
    → Served li (k ∷ ks) r r'
Served-full opp li k ks r r' v live word some room enough s =
    let (queue, alive, less, same, noted, count) =
      round_full opp li k ks r v live word some room enough in
    let spec =
      serve_queue-full r.qty_remain (order r.store.book k).id (order r.store.book k).qty_remain
        (map (waiting r.store.book) ks) some enough in
    let inner = ap₂ serve_queue less same in
    record {
      left = s.left;
      queue = s.queue;
      live = s.live;
      waits = s.waits ∙ ap (λ o. o.2) inner ∙ sym (ap (λ o. o.2) spec);
      fills =
          s.fills
          ∙ ap₂ (λ a o. a ++ o.0) noted inner
          ∙ append_assoc (map fill_of r.fills)
              (((order r.store.book k).id, (order r.store.book k).qty_remain) ∷ []) _
          ∙ ap (λ o. map fill_of r.fills ++ o.0) (sym spec);
      need = s.need ∙ ap (λ o. o.1) inner ∙ sym (ap (λ o. o.1) spec);
    }

-- The fill loop of a level comes to serving its queue in order: with the level linked as a queue
-- of distinct orders that each have something left, a 64-bit need, one unit of fuel more than
-- orders, and room in the buffer for a fill of each, the loop ends with the fills, the need and
-- the waiting orders that serving the plain list of ids and quantities from its head gives, and
-- the level is linked as the queue of those that still wait.
pub fill_level-Served :
    (f : ℕ) (opp : Side) (li : ℕ) (q : List ℕ) (r : Run)
    → IsQueue r.store.book li q
    → Live r.store.book q
    → r.qty_remain < 2 ^ 64
    → length q < f
    → r.mc + length q ≤ max_orders
    → Served li q r (fill_level f true opp li r)
unfolding Chain serve_queue
fill_level-Served f opp li [] r v live word fuel room =
    let stop : (r.qty_remain == 0 || (level r.store.book li).head_idx == null_idx) ≡ true =
      ground (arith, v.chain.0) in
    rw (fill_level-stop f opp li r stop) (Served-at_once opp li [] r v live refl)
fill_level-Served zero opp li (k ∷ ks) r v live word fuel room = absurd (omega (arith, fuel))
fill_level-Served (suc f) opp li (k ∷ ks) r v live word fuel room =
    elim (Bool-cases (r.qty_remain == 0)) [
      | inl done ↦
          let stop : (r.qty_remain == 0 || (level r.store.book li).head_idx == null_idx) ≡ true =
            ground (arith, done) in
          rw (fill_level-stop (suc f) opp li r stop) (
            Served-at_once opp li (k ∷ ks) r v live (
              serve_queue-done r.qty_remain (map (waiting r.store.book) (k ∷ ks))
                (ground (arith, done))))
      | inr more ↦
          let some : r.qty_remain ≢ 0 = ground (arith, more) in
          let go : (r.qty_remain == 0 || (level r.store.book li).head_idx == null_idx) ≡ false =
            ground (arith, more, v.chain.0, v.chain.1) in
          let space : r.mc < max_orders = omega (arith, room) in
          rw (fill_level-go f opp li r go)
            (elim (Bool-cases (ltb r.qty_remain (order r.store.book k).qty_remain)) [
              | inl less ↦
                  let (kept, none, noted) =
                    round_partial opp li k ks r v live word some space (ground (arith, less)) in
                  let stop : ((fill_head true opp li r).qty_remain == 0
                        || (level (fill_head true opp li r).store.book li).head_idx == null_idx)
                      ≡ true =
                    ground (arith, none) in
                  rw (fill_level-stop f opp li (fill_head true opp li r) stop)
                    (Served-partial opp li k ks r v live word some space (ground (arith, less)))
              | inr enough ↦
                  let have_le : (order r.store.book k).qty_remain ≤ r.qty_remain =
                    ground (arith, enough) in
                  let (queue, alive, less, same, noted, count) =
                    round_full opp li k ks r v live word some space have_le in
                  Served-full opp li k ks r _ v live word some space have_le (
                    fill_level-Served f opp li ks (fill_head true opp li r) queue alive
                      (omega (arith, less, word)) (omega (arith, fuel))
                      (omega (arith, count, room)))
            ])
    ]
