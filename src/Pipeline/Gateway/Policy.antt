-- ===== src/Pipeline/Gateway/Policy.antt =====
-- What the gateway answers: idempotent submission, the kill switch, the rate limit and the ids.
use profit_playground.Common.{
  ℕ, ◌≡◌, ◌≢◌, ◌⊎◌, inl, inr, Option-cases, arith, none, some, List, [], ◌∷◌,
}
use profit_playground.Common.Words.{add64}
use profit_playground.Pipeline.Idem.{idem_find, idem_insert}
use profit_playground.Pipeline.Idem.Recall.{
  HasRoomFor, idem_find-idem_insert, idem_find-idem_insert_other,
}
use profit_playground.Pipeline.Message.{AckStatus, RawMsg, OrderEvent}
use profit_playground.Pipeline.Gateway.{
  Gateway, GwClock, Admission, submit, stage_b_normalize, stage_c_admit, finish, enqueue,
  deduplicate, assign, count_refused, rl_refill, rl_take,
}

idem-rl_refill : (g : Gateway) (now : ℕ) → (rl_refill g now).idem ≡ g.idem
unfolding rl_refill
idem-rl_refill g now = ground arith

idem-rl_take : (g : Gateway) → (rl_take g).0.idem ≡ g.idem
unfolding rl_take
idem-rl_take g = ground arith

idem-enqueue :
    (g : Gateway) (ev : OrderEvent) (id : ℕ) (t : GwClock) → (enqueue g ev id t).0.idem ≡ g.idem
unfolding enqueue
idem-enqueue g ev id t = ground arith

pub idem-finish : (g : Gateway) (a : Admission) (t : GwClock) → (finish g a t).0.idem ≡ g.idem
unfolding finish count_refused
idem-finish g a t = ground (arith, idem-enqueue g a.event a.server_id t)

-- The server id that the cache holds for a key.
abbrev pub Recalls : Gateway → ℕ → ℕ → ℕ → Type 0
Recalls g account_id client_order_id server_id =
    idem_find g.idem account_id client_order_id
    ≡ some (record {
      account_id = account_id;
      client_order_id = client_order_id;
      server_order_id = server_id;
    })

idem-deduplicate :
    (g : Gateway) (ev : OrderEvent) (t now : ℕ)
    → ((deduplicate g ev t now).0.idem ≡ g.idem)
      ⊎ ((id : ℕ) × ((deduplicate g ev t now).0.idem
            ≡ idem_insert g.idem ev.account_id ev.client_order_id id))
unfolding deduplicate assign
idem-deduplicate g ev t now =
    elim (Option-cases (idem_find g.idem ev.account_id ev.client_order_id)) [
      | inl fresh ↦ inr (add64 g.next_server_order_id 1, rw (fresh, deduplicate))
      | inr (dup, known) ↦ inl (rw (known, deduplicate))
    ]

idem-stage_c :
    (g : Gateway) (ev : OrderEvent) (t now : ℕ)
    → ((stage_c_admit g ev t now).0.idem ≡ g.idem)
      ⊎ ((id : ℕ) × ((stage_c_admit g ev t now).0.idem
            ≡ idem_insert g.idem ev.account_id ev.client_order_id id))
unfolding stage_c_admit
idem-stage_c g ev t now = ground (
  arith,
  idem-rl_refill g t,
  idem-rl_take (rl_refill g t),
  idem-deduplicate (rl_take (rl_refill g t)).0 ev t now,
)

-- A submission leaves the cache alone, or adds the key of its message.
idem-submit :
    (g : Gateway) (m : RawMsg) (t : GwClock)
    → ((submit g m t).0.idem ≡ g.idem)
      ⊎ ((id : ℕ) × ((submit g m t).0.idem ≡ idem_insert g.idem m.account_id m.client_order_id id))
unfolding submit stage_b_normalize
idem-submit g m t = ground (
  arith,
  idem-stage_c g (stage_b_normalize m) t.ingress t.normalized,
  idem-finish (stage_c_admit g (stage_b_normalize m) t.ingress t.normalized).0
      (stage_c_admit g (stage_b_normalize m) t.ingress t.normalized).1 t,
)

-- What the cache recalls it recalls after every submission.
pub Recalls-submit :
    (g : Gateway) (m : RawMsg) (t : GwClock) (a k id : ℕ)
    → Recalls g a k id
    → Recalls (submit g m t).0 a k id
Recalls-submit g m t a k id known = elim (idem-submit g m t) [
  | inl same ↦ rw same known
  | inr (new, added) ↦
      rw added (idem_find-idem_insert_other g.idem a k m.account_id m.client_order_id new _ known)
]

-- An admission by stage C is of an unknown key, which it adds under the id that it gives.
pub admitted :
    (g : Gateway) (ev : OrderEvent) (t now : ℕ)
    → (stage_c_admit g ev t now).1.status ≡ AckStatus.accepted
    → (idem_find g.idem ev.account_id ev.client_order_id ≡ none)
      × ((stage_c_admit g ev t now).0.idem
          ≡ idem_insert g.idem ev.account_id ev.client_order_id
              (stage_c_admit g ev t now).1.server_id)
unfolding stage_c_admit deduplicate assign
admitted g ev t now h = ground (arith, h, idem-rl_refill g t, idem-rl_take (rl_refill g t))

-- An acknowledgement of acceptance is stage C's, and carries its id.
accepted :
    (g : Gateway) (m : RawMsg) (t : GwClock)
    → (submit g m t).1.status ≡ AckStatus.accepted
    → let c = stage_c_admit g (stage_b_normalize m) t.ingress t.normalized in
      (c.1.status ≡ AckStatus.accepted)
      × ((submit g m t).1.server_order_id ≡ c.1.server_id)
      × ((submit g m t).0.idem ≡ c.0.idem)
unfolding submit finish enqueue
accepted g m t h = ground (arith, h)

-- The key of an accepted submission is recalled under the id of its acknowledgement.
pub Recalls-accepted :
    (g : Gateway) (m : RawMsg) (t : GwClock)
    → m.client_order_id ≢ 0
    → HasRoomFor g.idem m.account_id m.client_order_id
    → (submit g m t).1.status ≡ AckStatus.accepted
    → Recalls (submit g m t).0 m.account_id m.client_order_id (submit g m t).1.server_order_id
unfolding stage_b_normalize
Recalls-accepted g m t key room h =
    let (passed, id, kept) = accepted g m t h in
    let (fresh, added) = admitted g (stage_b_normalize m) t.ingress t.normalized passed in
    rw (kept, added, id)
      (idem_find-idem_insert g.idem m.account_id m.client_order_id _ key room fresh)

-- Stage C of a key that the cache recalls: never accepted, and a duplicate carries the id recalled.
known_key :
    (g : Gateway) (ev : OrderEvent) (t now id : ℕ)
    → Recalls g ev.account_id ev.client_order_id id
    → ((stage_c_admit g ev t now).1.status ≢ AckStatus.accepted)
      × ((stage_c_admit g ev t now).1.status ≡ AckStatus.duplicate
          → (stage_c_admit g ev t now).1.server_id ≡ id)
unfolding stage_c_admit deduplicate
known_key g ev t now id known = (
  λ h. ground (arith, h, known, idem-rl_refill g t, idem-rl_take (rl_refill g t)),
  λ h. ground (arith, h, known, idem-rl_refill g t, idem-rl_take (rl_refill g t)),
)

pub duplicates :
    (g : Gateway) (m : RawMsg) (t : GwClock) (id : ℕ)
    → Recalls g m.account_id m.client_order_id id
    → ((submit g m t).1.status ≢ AckStatus.accepted)
      × ((submit g m t).1.status ≡ AckStatus.duplicate → (submit g m t).1.server_order_id ≡ id)
unfolding submit finish enqueue stage_b_normalize
duplicates g m t id known = (
  λ h. ground (arith, h, known_key g (stage_b_normalize m) t.ingress t.normalized id known),
  λ h. ground (arith, h, known_key g (stage_b_normalize m) t.ingress t.normalized id known),
)

-- The state after a list of submissions, oldest first.
unfoldable pub submit_all : Gateway → List (RawMsg × GwClock) → Gateway
submit_all g [] = g
submit_all g ((m, t) ∷ rest) = submit_all (submit g m t).0 rest

pub Recalls-submit_all :
    (g : Gateway) (ms : List (RawMsg × GwClock)) (a k id : ℕ)
    → Recalls g a k id
    → Recalls (submit_all g ms) a k id
unfolding submit_all
Recalls-submit_all g [] a k id known = known
Recalls-submit_all g ((m, t) ∷ rest) a k id known =
    Recalls-submit_all (submit g m t).0 rest a k id (Recalls-submit g m t a k id known)

-- A client order id other than 0 that was accepted while the cache had room for it is accepted
-- once: after any later submissions a message of the same account and client order id is not
-- accepted, and if it is answered as a duplicate, the answer has the first server id.
pub submit_once :
    (g : Gateway) (m : RawMsg) (t : GwClock) (later : List (RawMsg × GwClock)) (again : RawMsg)
    (t' : GwClock)
    → m.client_order_id ≢ 0
    → HasRoomFor g.idem m.account_id m.client_order_id
    → (submit g m t).1.status ≡ AckStatus.accepted
    → again.account_id ≡ m.account_id
    → again.client_order_id ≡ m.client_order_id
    → let answer = (submit (submit_all (submit g m t).0 later) again t').1 in
      (answer.status ≢ AckStatus.accepted)
      × (answer.status ≡ AckStatus.duplicate
          → answer.server_order_id ≡ (submit g m t).1.server_order_id)
submit_once g m t later again t' key room ok same_account same_key = duplicates _ again t' _ (
    rw (same_account, same_key)
      (Recalls-submit_all (submit g m t).0 later _ _ _ (Recalls-accepted g m t key room ok)))
