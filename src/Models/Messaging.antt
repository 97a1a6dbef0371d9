-- ===== src/Models/Messaging.antt =====
-- Messages, conversations, outbox events and idempotency records: models/message.py,
-- conversation.py, outbox_event.py and idempotency_record.py.
use watesly.Base.{ℕ, String, Bool, true, false, Option, List}

pub data MessageDirection : Type 0 where
  inbound outbound : MessageDirection

pub data MessageStatus : Type 0 where
  received queued sent delivered read failed : MessageStatus

pub record Message : Type 0 where
  pub id : ℕ
  pub account_id : ℕ
  pub organization_id : ℕ
  pub channel_id : ℕ
  pub contact_id : Option ℕ
  pub conversation_id : Option ℕ
  pub external_message_id : Option String
  pub direction : MessageDirection
  pub to_address : List ℕ
  pub status : MessageStatus

pub data ConversationStatus : Type 0 where
  open_status pending closed spam : ConversationStatus

pub record Conversation : Type 0 where
  pub id : ℕ
  pub account_id : ℕ
  pub organization_id : ℕ
  pub channel_id : ℕ
  pub contact_id : ℕ
  pub assigned_membership_id : Option ℕ
  pub status : ConversationStatus
  pub last_message_at : Option ℕ
  pub deleted_at : Option ℕ

-- `Conversation.status.in_([ConversationStatus.OPEN, ConversationStatus.PENDING])`
abbrev pub is_live : ConversationStatus → Bool
is_live open_status = true
is_live pending = true
is_live _ = false

pub data OutboxStatus : Type 0 where
  pending processing published failed dead : OutboxStatus

-- A value in an event's payload: the text of an identifier, or a text.
pub data Value : Type 0 where
  ident : ℕ → Value
  text : String → Value

pub record OutboxEvent : Type 0 where
  pub id : ℕ
  pub account_id : ℕ
  pub event_type : String
  pub aggregate_type : String
  pub aggregate_id : ℕ
  pub payload : List (String × Value)
  pub status : OutboxStatus
  pub attempts : ℕ
  pub available_at : ℕ
  pub created_at : ℕ
  pub locked_at : Option ℕ
  pub lock_owner : Option String
  pub max_attempts : ℕ
  pub processed_at : Option ℕ
  pub last_error : Option String

abbrev pub is_outbound : MessageDirection → Bool
is_outbound outbound = true
is_outbound inbound = false
