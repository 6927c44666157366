-- ===== src/Tests/Pipelines.antt =====
-- A pipeline with two events in the gateway's ring.
use profit_playground.Common.Words.{add64}
use profit_playground.Pipeline.Bus
use profit_playground.Pipeline.Bus.{Bus, Topic, Payload}
use profit_playground.Pipeline.Bus.Delivery.{Heard, Delivered, publish-Delivered}
use profit_playground.Common.{List, ℕ, ◌≡◌, arith, length, []}
use profit_playground.Ring.{Ring}
use profit_playground.Ring.Queue.{IsValid}
use profit_playground.Book.State.{Store, zero_entry}
use profit_playground.Book.Manage.{empty_book}
use profit_playground.Pipeline.Message.{OrderEvent}
use profit_playground.Pipeline.Gateway
use profit_playground.Pipeline.Gateway.{Gateway, ring_cap, zero_order_event}
use profit_playground.Pipeline.State.{Pipeline, pipeline_init}
use profit_playground.Pipeline.Stages.{pipeline_step}
use profit_playground.Pipeline.Stages.Step.{serve, queued, pipeline_step_lem}

abbrev process : Store
process = record { book = empty_book; lookup = λ i. zero_entry; clock = λ n. n; reads = 0 }

abbrev two_events : Ring OrderEvent
two_events = record {
  buf = λ i. record zero_order_event { client_order_id = i };
  head = 1;
  tail = 4095;
  dropped = 0;
}

abbrev loaded : Pipeline
loaded = record (pipeline_init process) { gateway = record Gateway.init { out_ring = two_events } }

two_events-IsValid : IsValid ring_cap two_events
two_events-IsValid = record { head_in = omega arith; tail_in = omega arith }

pipeline_step_lem_example :
    (pipeline_step loaded ≡ (serve (queued loaded) loaded, length (queued loaded)))
    × (queued (pipeline_step loaded).0 ≡ [])
pipeline_step_lem_example = pipeline_step_lem loaded two_events-IsValid

abbrev two_subscribers : Bus
two_subscribers = (Bus.subscribe (Bus.subscribe Bus.init 2 40).0 3 41).0

publish-Delivered_example :
    (heard : List ℕ) × Heard two_subscribers.subs Topic.trade two_subscribers.sub_count 0 heard
    × Delivered
        (record two_subscribers { published = add64 two_subscribers.published 1 })
        heard
        []
        (Bus.publish two_subscribers (record {
          topic = Topic.trade;
          ts_ns = 5;
          account_id = 7;
          payload = Payload.reason "filled";
        }))
unfolding Bus.init Bus.subscribe
publish-Delivered_example =
    publish-Delivered two_subscribers
      (record { topic = Topic.trade; ts_ns = 5; account_id = 7; payload = Payload.reason "filled" })
      (omega arith)
