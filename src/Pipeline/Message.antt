-- ===== src/Pipeline/Message.antt =====
-- pipeline/gateway.h: the messages. `unset` and `unknown` stand for 0 and for the other numbers that
-- a caller can cast to an enumeration.
use profit_playground.Common.{ℕ, Bool, true, false, Option}
use profit_playground.Common.Int.{ℤ}
use profit_playground.Book.State.{Side}
use profit_playground.Orders.State.{OrderType}
use Prim.Native.String.{String}

pub data Source : Type 0 where
  unset api ws fix bot admin : Source

pub data Action : Type 0 where
  unset new cancel modify unknown : Action

pub data AckStatus : Type 0 where
  accepted rejected duplicate throttled killed : AckStatus

pub record RawMsg : Type 0 where
  pub source : Source
  pub action : Action
  pub client_order_id : ℕ
  pub account_id : ℕ
  pub type : OrderType
  pub side : Side
  pub price : ℤ
  pub trigger_price : ℤ
  pub qty : ℕ
  pub ttl_ns : ℕ
  pub target_order_id : ℕ
  pub new_price : ℤ
  pub new_qty : ℕ

pub record Ack : Type 0 where
  pub status : AckStatus
  pub server_order_id : ℕ
  pub ingress_ts_ns : ℕ
  pub ack_ts_ns : ℕ
  pub reject_reason : Option String

pub record OrderEvent : Type 0 where
  pub server_order_id : ℕ
  pub client_order_id : ℕ
  pub account_id : ℕ
  pub source : Source
  pub action : Action
  pub type : OrderType
  pub side : Side
  pub price : ℤ
  pub trigger_price : ℤ
  pub qty : ℕ
  pub ttl_ns : ℕ
  pub target_order_id : ℕ
  pub new_price : ℤ
  pub new_qty : ℕ
  pub t_ingress_ns : ℕ
  pub t_normalized_ns : ℕ
  pub t_admitted_ns : ℕ
  pub t_validated_ns : ℕ
  pub t_risk_ns : ℕ
  pub t_sequenced_ns : ℕ
  pub t_matched_ns : ℕ
  pub seq_no : ℕ

abbrev pub is_new : Action → Bool
is_new Action.new = true
is_new _ = false

abbrev pub is_cancel : Action → Bool
is_cancel Action.cancel = true
is_cancel _ = false

abbrev pub is_modify : Action → Bool
is_modify Action.modify = true
is_modify _ = false
