-- ===== src/Pipeline/Bus.antt =====
-- pipeline/event_bus.h and pipeline/event_bus.c. A handler is code of the subscriber: it stands as a
-- number, and `publish` gives the handlers that it calls, in order.
pub mod Delivery
use profit_playground.Common.{
  ℕ, zero, suc, ◌+◌, ◌/◌, ◌%◌, ◌^◌, Bool, if◌then◌else◌, ◌==◌, leb, update, List, [], ◌∷◌, ◌++◌,
  Option, none, some,
}
use profit_playground.Common.Words.{add64}
use profit_playground.Engine.State.{Event}
use profit_playground.Pipeline.Message.{Ack}
use Prim.Native.String.{String}

-- BUS_MAX_SUBS
abbrev pub max_subs : ℕ
max_subs = 16

pub data Topic : Type 0 where
  order trade book portfolio gateway : Topic

-- The topic is the bit of this number.
abbrev pub topic_bit : Topic → ℕ
topic_bit Topic.order = 0
topic_bit Topic.trade = 1
topic_bit Topic.book = 2
topic_bit Topic.portfolio = 3
topic_bit Topic.gateway = 4

-- What `payload` points to.
pub data Payload : Type 0 where
  event : Event → Payload
  ack : Ack → Payload
  reason : String → Payload

pub record Msg : Type 0 where
  pub topic : Topic
  pub ts_ns : ℕ
  pub account_id : ℕ
  pub payload : Payload

pub record Sub : Type 0 where
  pub handler : ℕ
  pub topic_mask : ℕ

pub record Bus : Type 0 where
  pub subs : ℕ → Sub
  pub sub_count : ℕ
  pub published : ℕ
  pub delivered : ℕ

unfoldable pub init : Bus
init = record {
  subs = λ i. record { handler = 0; topic_mask = 0 };
  sub_count = 0;
  published = 0;
  delivered = 0;
}

-- `none` is the -1 of a full bus.
unfoldable pub subscribe : Bus → ℕ → ℕ → Bus × Option ℕ
subscribe b topic_mask handler = if leb max_subs b.sub_count then (b, none) else (
  record b {
    subs = update b.subs b.sub_count (record { handler = handler; topic_mask = topic_mask });
    sub_count = b.sub_count + 1;
  },
  some b.sub_count,
)

-- `s->topic_mask & topic` is not 0.
abbrev pub listens : Sub → Topic → Bool
listens s t = s.topic_mask / 2 ^ topic_bit t % 2 == 1

-- The loop over the subscribers: `n` are left from `i` on.
unfoldable pub publish_from : ℕ → ℕ → Topic → Bus → List ℕ → Bus × List ℕ
publish_from zero i t b called = (b, called)
publish_from (suc n) i t b called =
    publish_from n (i + 1) t
      (if listens (b.subs i) t then record b { delivered = add64 b.delivered 1 } else b)
      (if listens (b.subs i) t then called ++ ((b.subs i).handler ∷ []) else called)

unfoldable pub publish : Bus → Msg → Bus × List ℕ
publish b msg =
    publish_from b.sub_count 0 msg.topic (record b { published = add64 b.published 1 }) []
