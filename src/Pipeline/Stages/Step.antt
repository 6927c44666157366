-- ===== src/Pipeline/Stages/Step.antt =====
-- The events that `pipeline_step` takes from the gateway's ring.
use profit_playground.Common.{
  ℕ, zero, suc, ◌+◌, ◌^◌, ◌<◌, ◌≡◌, refl, ap, ◌∙◌, inl, inr, Option-cases, arith, List, [], ◌∷◌,
  length, none, some,
}
use profit_playground.Common.Words.{add32}
use profit_playground.Ring.Queue.{IsValid, contents, dequeue, pop_refines, distance, length-window}
use profit_playground.Engine.State.{Event}
use profit_playground.Engine.Emit.{eq_pop}
use profit_playground.Pipeline.Message.{OrderEvent}
use profit_playground.Pipeline.Bus.{Msg}
use profit_playground.Pipeline.Gateway.{ring_cap, ring_pop}
use profit_playground.Pipeline.State.{Pipeline, publish, id_map_remember}
use profit_playground.Pipeline.Stages.{
  stage_sequence, match_new, match_cancel, publish_me_event, apply_leg, apply_trade, route_event,
  drain_from, drain_engine_events, publish_refusal, stage_risk, stage_match, execute,
  risk_and_execute, process, step_from, pipeline_step, stage_validate,
}
use Prim.Native.String.{String}
use profit_playground.Common.Int.{ℤ}
use profit_playground.Book.State.{Side}

-- No stage behind the gateway touches it.
gateway-publish : (pl : Pipeline) (msg : Msg) → (publish pl msg).gateway ≡ pl.gateway
unfolding publish
gateway-publish pl msg = ground arith

gateway-apply_leg :
    (pl : Pipeline) (id : ℕ) (side : Side) (price : ℤ) (qty : ℕ)
    → (apply_leg pl id side price qty).gateway ≡ pl.gateway
unfolding apply_leg
gateway-apply_leg pl id side price qty = ground arith

gateway-route_event : (pl : Pipeline) (ev : Event) → (route_event pl ev).gateway ≡ pl.gateway
unfolding route_event publish_me_event apply_trade
gateway-route_event pl ev = grind (arith, gateway-publish, gateway-apply_leg)

gateway-drain_from : (f : ℕ) (pl : Pipeline) → (drain_from f pl).gateway ≡ pl.gateway
unfolding drain_from
gateway-drain_from zero pl = refl
gateway-drain_from (suc f) pl = elim (Option-cases (eq_pop pl.engine.eq).1) [
  | inl empty ↦ rw (drain_from, empty) refl
  | inr (ev, found) ↦ rw (drain_from, found) (gateway-drain_from f _ ∙ gateway-route_event _ ev)
]

gateway-stage_match : (pl : Pipeline) (ev : OrderEvent) → (stage_match pl ev).gateway ≡ pl.gateway
unfolding stage_match match_new match_cancel id_map_remember
gateway-stage_match pl ev = ground arith

gateway-execute : (pl : Pipeline) (ev : OrderEvent) → (execute pl ev).gateway ≡ pl.gateway
unfolding execute drain_engine_events stage_sequence
gateway-execute pl ev = gateway-drain_from _ _ ∙ gateway-stage_match _ _

gateway-stage_risk : (pl : Pipeline) (ev : OrderEvent) → (stage_risk pl ev).0.gateway ≡ pl.gateway
unfolding stage_risk
gateway-stage_risk pl ev = ground arith

gateway-refusal :
    (pl : Pipeline) (ev : OrderEvent) (reason : String)
    → (publish_refusal pl ev reason).gateway ≡ pl.gateway
unfolding publish_refusal
gateway-refusal pl ev reason = gateway-publish _ _

gateway-risk : (pl : Pipeline) (ev : OrderEvent) → (risk_and_execute pl ev).gateway ≡ pl.gateway
unfolding risk_and_execute
gateway-risk pl ev = grind (arith, gateway-stage_risk, gateway-execute, gateway-refusal)

pub gateway-process : (pl : Pipeline) (ev : OrderEvent) → (process pl ev).gateway ≡ pl.gateway
unfolding process
gateway-process pl ev = elim (Option-cases (stage_validate ev)) [
  | inl fine ↦ rw (process, fine) (gateway-risk pl ev)
  | inr (reason, bad) ↦ rw (process, bad) (gateway-refusal pl ev reason)
]

-- The pipeline with the oldest event taken out of the ring.
abbrev pub pop_one : Pipeline → Pipeline
pop_one pl = record pl {
  gateway = record (pl.gateway) { out_ring = (ring_pop pl.gateway.out_ring).0 };
}

-- The events are popped and processed one after the other.
unfoldable pub serve : List OrderEvent → Pipeline → Pipeline
serve [] pl = pl
serve (ev ∷ evs) pl = serve evs (process (pop_one pl) ev)

abbrev pub queued : Pipeline → List OrderEvent
queued pl = contents ring_cap pl.gateway.out_ring

popped :
    (pl : Pipeline)
    → IsValid ring_cap pl.gateway.out_ring
    → (((queued (pop_one pl), (ring_pop pl.gateway.out_ring).1) ≡ dequeue (queued pl))
        × IsValid ring_cap (pop_one pl).gateway.out_ring)
unfolding ring_pop
popped pl v = pop_refines ring_cap (omega arith) pl.gateway.out_ring v

-- What `step_from` does with fuel for one event more than the queue has.
step_from_lem :
    (f : ℕ) (evs : List OrderEvent) (pl : Pipeline) (n : ℕ)
    → IsValid ring_cap pl.gateway.out_ring
    → queued pl ≡ evs
    → length evs < f
    → n + length evs < 2 ^ 32
    → (step_from f pl n ≡ (serve evs pl, n + length evs)) × (queued (serve evs pl) ≡ [])
unfolding step_from serve dequeue
step_from_lem zero evs pl n v e h k = absurd (omega (arith, h))
step_from_lem (suc f) [] pl n v e h k =
    let none_left : (ring_pop pl.gateway.out_ring).1 ≡ none =
      ap (λ p. p.1) ((popped pl v).0 ∙ ap dequeue e) in
    (rw (step_from, none_left) (ap (λ m. (pl, m)) (omega arith)), e)
step_from_lem (suc f) (ev ∷ evs) pl n v e h k =
    let oldest : (ring_pop pl.gateway.out_ring).1 ≡ some ev =
      ap (λ p. p.1) ((popped pl v).0 ∙ ap dequeue e) in
    let rest : queued (pop_one pl) ≡ evs = ap (λ p. p.0) ((popped pl v).0 ∙ ap dequeue e) in
    let same = gateway-process (pop_one pl) ev in
    let (steps, empty) =
      step_from_lem f evs (process (pop_one pl) ev) (add32 n 1) (rw same (popped pl v).1)
        (rw same rest) (omega (arith, h)) (omega (arith, k)) in
    (
      rw (step_from, oldest)
          (steps ∙ ap (λ m. (serve evs (process (pop_one pl) ev), m)) (omega (arith, k))),
      empty,
    )

length-queued :
    (pl : Pipeline) → IsValid ring_cap pl.gateway.out_ring → length (queued pl) < ring_cap
unfolding contents
length-queued pl v = ground (
  arith,
  v.head_in,
  v.tail_in,
  length-window ring_cap (omega arith) pl.gateway.out_ring.buf pl.gateway.out_ring.tail
      (distance ring_cap pl.gateway.out_ring.tail pl.gateway.out_ring.head),
)

-- From a gateway ring whose indices lie inside its buffer, a step processes every queued event
-- once, oldest first, reports their number, and leaves the ring empty.
pub pipeline_step_lem :
    (pl : Pipeline)
    → IsValid ring_cap pl.gateway.out_ring
    → (pipeline_step pl ≡ (serve (queued pl) pl, length (queued pl)))
      × (queued (pipeline_step pl).0 ≡ [])
unfolding pipeline_step
pipeline_step_lem pl v =
    let (served, empty) =
      step_from_lem ring_cap (queued pl) pl 0 v refl (length-queued pl v)
        (omega (arith, length-queued pl v)) in
    (
      served ∙ ap (λ m. (serve (queued pl) pl, m)) (omega arith),
      ap (λ r. queued r.0) served ∙ empty,
    )
