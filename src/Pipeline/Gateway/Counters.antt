-- ===== src/Pipeline/Gateway/Counters.antt =====
-- The kill switch, the token bucket and the counters of the gateway.
use profit_playground.Common.{ℕ, ◌^◌, ◌≤◌, ◌<◌, ◌≡◌, ◌↔◌, true, arith, none}
use profit_playground.Common.Words.{add64}
use profit_playground.Pipeline.Message.{AckStatus, RawMsg, OrderEvent, is_new}
use profit_playground.Pipeline.Gateway.{
  Gateway, GwClock, Admission, submit, stage_a_ingress, stage_b_normalize, stage_c_admit, finish,
  enqueue, deduplicate, assign, count_refused, rl_refill, rl_take,
}

-- With the kill switch on, a well-formed NEW message is answered as killed and changes nothing but
-- the counter of rejections.
pub killed :
    (g : Gateway) (m : RawMsg) (t : GwClock)
    → g.kill_switch ≡ true
    → is_new m.action ≡ true
    → stage_a_ingress m ≡ none
    → ((submit g m t).1.status ≡ AckStatus.killed)
      × ((submit g m t).0 ≡ record g { rejected = add64 g.rejected 1 })
unfolding submit stage_b_normalize stage_c_admit finish count_refused
killed g m t on new passed = (ground (arith, on, new, passed), ground (arith, on, new, passed))

-- No other message is answered as killed.
not_killed :
    (g : Gateway) (ev : OrderEvent) (t now : ℕ)
    → (stage_c_admit g ev t now).1.status ≡ AckStatus.killed
    → (g.kill_switch ≡ true) × (is_new ev.action ≡ true)
unfolding stage_c_admit deduplicate assign
not_killed g ev t now h = ground (arith, h)

-- A message is answered as killed exactly when it is well-formed, NEW, and the kill switch is on.
pub killed_iff :
    (g : Gateway) (m : RawMsg) (t : GwClock)
    → ((submit g m t).1.status ≡ AckStatus.killed)
      ↔ ((g.kill_switch ≡ true) × (is_new m.action ≡ true) × (stage_a_ingress m ≡ none))
unfolding submit stage_b_normalize finish enqueue
killed_iff g m t = (
  λ h. ground (arith, h, not_killed g (stage_b_normalize m) t.ingress t.normalized),
  λ h. (killed g m t h.0 h.1 h.2).0,
)

-- The bucket never holds more than its maximum.
tokens-rl_refill :
    (g : Gateway) (now : ℕ)
    → g.max_tokens < 2 ^ 32
    → g.tokens ≤ g.max_tokens
    → (rl_refill g now).tokens ≤ g.max_tokens
unfolding rl_refill
tokens-rl_refill g now small h = ground arith

tokens-rl_take : (g : Gateway) → (rl_take g).0.tokens ≤ g.tokens
unfolding rl_take
tokens-rl_take g = ground arith

-- The four counters.
abbrev pub Counts : Type 0
Counts = ℕ × ℕ × ℕ × ℕ

abbrev pub counts : Gateway → Counts
counts g = (g.accepted, g.rejected, g.duplicates, g.throttled)

-- The counters after one more answer of a status; a killed message counts as rejected.
unfoldable pub count_answer : AckStatus → Counts → Counts
count_answer AckStatus.accepted (a, r, d, t) = (add64 a 1, r, d, t)
count_answer AckStatus.rejected (a, r, d, t) = (a, add64 r 1, d, t)
count_answer AckStatus.duplicate (a, r, d, t) = (a, r, add64 d 1, t)
count_answer AckStatus.throttled (a, r, d, t) = (a, r, d, add64 t 1)
count_answer AckStatus.killed (a, r, d, t) = (a, add64 r 1, d, t)

counts-rl_refill : (g : Gateway) (now : ℕ) → counts (rl_refill g now) ≡ counts g
unfolding rl_refill
counts-rl_refill g now = ground arith

counts-rl_take : (g : Gateway) → counts (rl_take g).0 ≡ counts g
unfolding rl_take
counts-rl_take g = ground arith

counts-stage_c :
    (g : Gateway) (ev : OrderEvent) (t now : ℕ) → counts (stage_c_admit g ev t now).0 ≡ counts g
unfolding stage_c_admit deduplicate assign
counts-stage_c g ev t now = ground (arith, counts-rl_refill g t, counts-rl_take (rl_refill g t))

counts-enqueue :
    (g : Gateway) (ev : OrderEvent) (id : ℕ) (t : GwClock)
    → counts (enqueue g ev id t).0 ≡ count_answer (enqueue g ev id t).1.status (counts g)
unfolding enqueue count_answer
counts-enqueue g ev id t = ground arith

counts-finish :
    (g : Gateway) (a : Admission) (t : GwClock)
    → counts (finish g a t).0 ≡ count_answer (finish g a t).1.status (counts g)
unfolding finish count_refused count_answer
counts-finish g a t = ground (arith, counts-enqueue g a.event a.server_id t)

-- Every submission is counted once, under the status that it is answered with.
pub counts-submit :
    (g : Gateway) (m : RawMsg) (t : GwClock)
    → counts (submit g m t).0 ≡ count_answer (submit g m t).1.status (counts g)
unfolding submit count_answer
counts-submit g m t =
    let c = stage_c_admit g (stage_b_normalize m) t.ingress t.normalized in
    ground (
      arith,
      counts-stage_c g (stage_b_normalize m) t.ingress t.normalized,
      counts-finish c.0 c.1 t,
    )
