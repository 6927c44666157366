-- ===== src/Bridge/Submit/Kept.antt =====
-- bridge/bridge.c, `bridge_submit`: that every step of a submission keeps the orders of the registry.
use profit_playground.Common.{
  ℕ, ◌≡◌, refl, ◌∙◌, true, ◌&&◌, Option, none, some, List, [], ◌∷◌, ◌==◌, ltb, leb,
}
use profit_playground.Pipeline.Bus.{Msg}
use profit_playground.Pipeline.Message.{Ack}
use profit_playground.Pipeline.Stages.{pipeline_step}
use profit_playground.Bridge.State.{
  BridgePipeline, BridgeMsg, OrderSlot, OrderStatus, order_registry_cap,
}
use profit_playground.Bridge.Staging.{process_staged_events}
use profit_playground.Bridge.Staging.Kept.{
  SameOrder, SameOrder-update, Kept, Kept-refl, Kept-trans, Kept-set_slot, Kept-push_event, Kept-if,
  Kept-process_staged_events, Kept-on_bus_event,
}
use profit_playground.Bridge.Submit.{
  bus_handler, last_me_id, link, new_slot, pre_register, deliver_all, deliver, capture_me_id,
  is_untouched, reject_untouched, run_accepted,
}

Kept-deliver_all : (calls : List (ℕ × Msg)) (bp : BridgePipeline) → Kept bp (deliver_all calls bp)
unfolding deliver_all
Kept-deliver_all [] bp = Kept-refl bp
Kept-deliver_all ((h, msg) ∷ calls) bp =
    Kept-trans bp _ _ (Kept-if (h == bus_handler) bp _ bp (Kept-on_bus_event bp msg) (Kept-refl bp))
      (Kept-deliver_all calls _)

Kept-deliver : (bp : BridgePipeline) → Kept bp (deliver bp)
unfolding deliver
Kept-deliver bp =
    let k = Kept-deliver_all bp.pl.calls bp in
    record { base_kept = k.base_kept; slots_kept = k.slots_kept }

with_me_id : (s : OrderSlot) (me_id : ℕ) → SameOrder s (record s { me_id = me_id })
with_me_id s me_id = record {
  order_id_kept = refl;
  client_kept = refl;
  account_kept = refl;
  type_kept = refl;
  side_kept = refl;
  trigger_kept = refl;
  original_kept = refl;
  created_kept = refl;
  touched_kept = λ h. h;
}

Kept-link : (bp : BridgePipeline) (i me_id id : ℕ) → Kept bp (link bp i me_id id)
unfolding link
Kept-link bp i me_id id = record {
  base_kept = refl;
  slots_kept = SameOrder-update bp.orders i _ (with_me_id (bp.orders i) me_id);
}

Kept-capture_me_id :
    (bp : BridgePipeline) (slot : Option ℕ) (prev_idmap id : ℕ)
    → Kept bp (capture_me_id bp slot prev_idmap id)
unfolding capture_me_id
Kept-capture_me_id bp none prev_idmap id = Kept-refl bp
Kept-capture_me_id bp (some i) prev_idmap id =
    Kept-if (ltb prev_idmap bp.pl.id_map_count) bp _ bp
      (Kept-if (leb 1 (last_me_id bp) && leb (last_me_id bp) order_registry_cap) bp _ bp
        (Kept-link bp i (last_me_id bp) id) (Kept-refl bp))
      (Kept-refl bp)

rejected :
    (s : OrderSlot) → SameOrder s (record s { status = OrderStatus.rejected; touched = true })
rejected s = record {
  order_id_kept = refl;
  client_kept = refl;
  account_kept = refl;
  type_kept = refl;
  side_kept = refl;
  trigger_kept = refl;
  original_kept = refl;
  created_kept = refl;
  touched_kept = λ h. refl;
}

Kept-reject_untouched :
    (bp : BridgePipeline) (slot : Option ℕ) (ack : Ack) → Kept bp (reject_untouched bp slot ack)
unfolding reject_untouched
Kept-reject_untouched bp none ack = Kept-refl bp
Kept-reject_untouched bp (some i) ack =
    Kept-if (is_untouched (bp.orders i) ack.server_order_id) bp _ bp
      (Kept-trans bp _ _ (Kept-set_slot bp i _ (rejected (bp.orders i))) (Kept-push_event _ _))
      (Kept-refl bp)

module _ (bp : BridgePipeline) (slot : Option ℕ) (m : BridgeMsg) (ack : Ack) where
  abbrev pub registered : BridgePipeline
  registered = pre_register bp slot m ack

  abbrev pub stepped : BridgePipeline
  stepped = deliver (record registered { pl = (pipeline_step registered.pl).0 })

  abbrev pub processed : BridgePipeline
  processed =
      process_staged_events
        (capture_me_id stepped slot registered.pl.id_map_count ack.server_order_id)

  -- Everything between the entry into the registry and the synthetic rejection.
  pub Kept-processed : Kept registered processed
  Kept-processed =
      Kept-trans registered stepped processed
        (let k = Kept-deliver (record registered { pl = (pipeline_step registered.pl).0 }) in
          record { base_kept = k.base_kept; slots_kept = k.slots_kept })
        (Kept-trans stepped _ processed (Kept-capture_me_id stepped slot _ _)
          (Kept-process_staged_events _))

  pub Kept-finished : Kept registered (reject_untouched processed slot ack)
  Kept-finished =
      Kept-trans registered processed _ Kept-processed (Kept-reject_untouched _ slot ack)

base-pre_register :
    (bp : BridgePipeline) (slot : Option ℕ) (m : BridgeMsg) (ack : Ack)
    → (pre_register bp slot m ack).id_base ≡ bp.id_base
unfolding pre_register
base-pre_register bp none m ack = refl
base-pre_register bp (some i) m ack = refl

-- No submission moves the offset.
pub base-run_accepted :
    (bp : BridgePipeline) (m : BridgeMsg) (ack : Ack) → (run_accepted bp m ack).id_base ≡ bp.id_base
unfolding run_accepted
base-run_accepted bp m ack =
    let slot = new_slot bp m.action ack.server_order_id in
    (Kept-finished bp slot m ack).base_kept ∙ base-pre_register bp slot m ack
