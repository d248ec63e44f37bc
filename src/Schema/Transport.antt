-- ===== src/Schema/Transport.antt =====
-- packages/database/migrations/002_create_message_transport_schema.sql
use guff_suff.Prelude.{ℕ, String, Option, List}

pub record DirectConversation : Type 0 where
  pub id : ℕ
  pub participant1_user_id : ℕ
  pub participant2_user_id : ℕ
  pub created_at : ℕ
  pub updated_at : ℕ

pub record ConversationMember : Type 0 where
  pub id : ℕ
  pub conversation_id : ℕ
  pub user_id : ℕ
  pub joined_at : ℕ

pub record MessageEnvelope : Type 0 where
  pub id : ℕ
  pub client_idempotency_key : String
  pub conversation_id : ℕ
  pub sender_user_id : ℕ
  pub sender_device_id : ℕ
  pub recipient_user_id : ℕ
  pub protocol_version : ℕ
  pub payload_byte_length : ℕ
  pub opaque_payload : List ℕ
  pub client_created_at : ℕ
  pub server_accepted_at : ℕ
  pub expires_at : ℕ

pub data DeliveryStatus : Type 0 where
  accepted queued routed delivered read expired revoked_recipient permanently_failed :
      DeliveryStatus

pub record RecipientDevice : Type 0 where
  pub id : ℕ
  pub envelope_id : ℕ
  pub recipient_device_id : ℕ
  pub delivery_status : DeliveryStatus
  pub delivery_attempts_count : ℕ
  pub last_attempted_at : Option ℕ
  pub delivered_at : Option ℕ
  pub read_at : Option ℕ
  pub created_at : ℕ
  pub updated_at : ℕ

pub data AckType : Type 0 where
  delivery read : AckType

pub record MessageAcknowledgement : Type 0 where
  pub id : ℕ
  pub envelope_id : ℕ
  pub recipient_device_id : ℕ
  pub ack_type : AckType
  pub acknowledged_at : ℕ

pub record MessageReadState : Type 0 where
  pub id : ℕ
  pub conversation_id : ℕ
  pub user_id : ℕ
  pub last_read_envelope_id : Option ℕ
  pub last_read_at : ℕ

pub record MessageIdempotencyKey : Type 0 where
  pub id : ℕ
  pub sender_device_id : ℕ
  pub idempotency_key : String
  pub envelope_id : ℕ
  pub payload_digest_sha256 : ℕ
  pub created_at : ℕ

pub record TransportDb : Type 0 where
  pub direct_conversations : List DirectConversation
  pub conversation_members : List ConversationMember
  pub message_envelopes : List MessageEnvelope
  pub message_recipient_devices : List RecipientDevice
  pub message_acknowledgements : List MessageAcknowledgement
  pub message_read_states : List MessageReadState
  pub message_idempotency_keys : List MessageIdempotencyKey
