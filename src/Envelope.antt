-- ===== src/Envelope.antt =====
-- services/api/src/transport/message-envelope.service.ts
pub mod Queries
pub mod Submit
pub mod Delivery
pub mod Idempotency
use text.Mathlib.Text.{◌==◌ as str_eq}
use guff_suff.Prelude.{
  ℕ, suc, ◌+◌, String, Bool, true, false, Option, none, some, List, [], ◌∷◌, not, ◌&&◌, leb, ltb,
  ◌==◌, if◌then◌else◌, length, any, select, update, join,
}
use guff_suff.Errors.{
  constraint_violation, sender_device_invalid, conversation_denied, payload_too_large,
  idempotency_conflict, ack_unauthorized,
}
use guff_suff.Action.{Action, ◌>>=◌, ◌>>◌, pure, throw, gets, modify, atomically}
use guff_suff.Environment.{Environment}
use guff_suff.Schema.{Db}
use guff_suff.Schema.Identity.{Device}
use guff_suff.Schema.Constraints.{dangling}
use guff_suff.Schema.Transport.{
  MessageEnvelope, RecipientDevice, MessageAcknowledgement, MessageReadState, MessageIdempotencyKey,
  accepted, delivered, AckType, TransportDb,
}
use guff_suff.Schema.TransportConstraints.{
  envelope_exists, insert_envelope, insert_idempotency_key, insert_recipient,
  insert_acknowledgement, read_state_violates,
}

-- SubmitMessageEnvelope of packages/contracts
pub record SubmitMessageEnvelope : Type 0 where
  pub idempotency_key : String
  pub conversation_id : ℕ
  pub recipient_user_id : ℕ
  pub protocol_version : ℕ
  pub opaque_payload_base64 : String
  pub client_created_at : ℕ
  pub expires_at : ℕ

pub record SubmitDraws : Type 0 where
  pub envelope_id : ℕ
  pub idempotency_record_id : ℕ
  -- the identifier drawn in each round of the loop over the recipient devices
  pub recipient_record_id : ℕ → ℕ
  pub db_now : ℕ

-- The columns of an envelope that a sender gets back.
pub record EnvelopeView : Type 0 where
  pub id : ℕ
  pub conversation_id : ℕ
  pub sender_user_id : ℕ
  pub sender_device_id : ℕ
  pub recipient_user_id : ℕ
  pub protocol_version : ℕ
  pub payload_byte_length : ℕ
  pub server_accepted_at : ℕ
  pub expires_at : ℕ

abbrev pub envelope_view : MessageEnvelope → EnvelopeView
envelope_view e = record {
  id = e.id;
  conversation_id = e.conversation_id;
  sender_user_id = e.sender_user_id;
  sender_device_id = e.sender_device_id;
  recipient_user_id = e.recipient_user_id;
  protocol_version = e.protocol_version;
  payload_byte_length = e.payload_byte_length;
  server_accepted_at = e.server_accepted_at;
  expires_at = e.expires_at;
}

-- `envelope` is missing where `rows[0]` is undefined.
pub record SubmitResponse : Type 0 where
  pub envelope : Option EnvelopeView
  pub recipient_device_count : Option ℕ
  pub idempotent_retry : Bool

abbrev pub sender_devices : ℕ → ℕ → Db → List Device
sender_devices user_id device_id db =
    select (λ d. (d.id == device_id) && (d.user_id == user_id)) db.identity.devices

abbrev pub is_member : ℕ → ℕ → Db → Bool
is_member conversation_id user_id db =
    any (λ m. (m.conversation_id == conversation_id) && (m.user_id == user_id))
      db.transport.conversation_members

abbrev pub key_rows : ℕ → String → Db → List MessageIdempotencyKey
key_rows device_id key db =
    select (λ k. (k.sender_device_id == device_id) && str_eq k.idempotency_key key)
      db.transport.message_idempotency_keys

abbrev pub active_devices : ℕ → Db → List Device
active_devices user_id db =
    select (λ d. (d.user_id == user_id) && not d.is_revoked) db.identity.devices

abbrev first_view : List MessageEnvelope → Option EnvelopeView
first_view [] = none
first_view (e ∷ rest) = some (envelope_view e)

unfoldable pub check_device : List Device → Action Db (Unit {0})
check_device [] db = throw sender_device_invalid db
check_device (d ∷ rest) db = if d.is_revoked then throw sender_device_invalid db else pure tt db

abbrev pub new_recipient : ℕ → ℕ → ℕ → ℕ → RecipientDevice
new_recipient id envelope_id device_id now = record {
  id = id;
  envelope_id = envelope_id;
  recipient_device_id = device_id;
  delivery_status = accepted;
  delivery_attempts_count = 0;
  last_attempted_at = none;
  delivered_at = none;
  read_at = none;
  created_at = now;
  updated_at = now;
}

module _ (env : Environment) where
  abbrev pub payload : SubmitMessageEnvelope → List ℕ
  payload dto = env.base64_bytes dto.opaque_payload_base64

  abbrev pub payload_digest : SubmitMessageEnvelope → ℕ
  payload_digest dto = env.sha256_bytes (payload dto)

  abbrev pub new_envelope : ℕ → ℕ → SubmitMessageEnvelope → SubmitDraws → MessageEnvelope
  new_envelope user_id device_id dto d = record {
    id = d.envelope_id;
    client_idempotency_key = dto.idempotency_key;
    conversation_id = dto.conversation_id;
    sender_user_id = user_id;
    sender_device_id = device_id;
    recipient_user_id = dto.recipient_user_id;
    protocol_version = dto.protocol_version;
    payload_byte_length = length (payload dto);
    opaque_payload = payload dto;
    client_created_at = dto.client_created_at;
    server_accepted_at = d.db_now;
    expires_at = dto.expires_at;
  }

  abbrev pub new_key : ℕ → SubmitMessageEnvelope → SubmitDraws → MessageIdempotencyKey
  new_key device_id dto d = record {
    id = d.idempotency_record_id;
    sender_device_id = device_id;
    idempotency_key = dto.idempotency_key;
    envelope_id = d.envelope_id;
    payload_digest_sha256 = payload_digest dto;
    created_at = d.db_now;
  }

  -- The loop over the recipient devices, from round `k` on.
  unfoldable pub insert_recipients : SubmitDraws → ℕ → List Device → Action Db (Unit {0})
  insert_recipients d k [] = pure tt
  insert_recipients d k (dev ∷ devices) = do
    insert_recipient env (new_recipient (d.recipient_record_id k) d.envelope_id dev.id d.db_now)
    insert_recipients d (suc k) devices

  unfoldable pub insert_rows :
      ℕ → ℕ → SubmitMessageEnvelope → SubmitDraws → List Device → Action Db (Unit {0})
  insert_rows user_id device_id dto d devices = do
    insert_envelope env (new_envelope user_id device_id dto d)
    insert_idempotency_key env (new_key device_id dto d)
    insert_recipients d 0 devices

  accept_new : ℕ → ℕ → SubmitMessageEnvelope → SubmitDraws → List Device → Action Db SubmitResponse
  accept_new user_id device_id dto d devices = do
    atomically (insert_rows user_id device_id dto d devices)
    pure (record {
      envelope = some (envelope_view (new_envelope user_id device_id dto d));
      recipient_device_count = some (length devices);
      idempotent_retry = false;
    })

  -- The key was used before.
  unfoldable pub known_key :
      SubmitMessageEnvelope → MessageIdempotencyKey → Action Db SubmitResponse
  known_key dto k db =
      if not (k.payload_digest_sha256 == payload_digest dto)
      then throw idempotency_conflict db
      else pure
          (record {
            envelope =
                first_view (select (λ e. e.id == k.envelope_id) db.transport.message_envelopes);
            recipient_device_count = none;
            idempotent_retry = true;
          })
          db

  check_key :
      ℕ
      → ℕ
      → SubmitMessageEnvelope
      → SubmitDraws
      → List MessageIdempotencyKey
      → Action Db SubmitResponse
  unfolding known_key
  check_key user_id device_id dto d [] db =
      accept_new user_id device_id dto d (active_devices dto.recipient_user_id db) db
  check_key user_id device_id dto d (k ∷ rest) db = known_key dto k db

  unfoldable pub check_payload :
      ℕ → ℕ → SubmitMessageEnvelope → SubmitDraws → Action Db SubmitResponse
  unfolding check_key accept_new
  check_payload user_id device_id dto d db =
      if not (is_member dto.conversation_id user_id db)
      then throw conversation_denied db
      else if not (leb (length (payload dto)) 65536)
      then throw payload_too_large db
      else check_key user_id device_id dto d (key_rows device_id dto.idempotency_key db) db

  unfoldable pub submit_envelope :
      ℕ → ℕ → SubmitMessageEnvelope → SubmitDraws → Action Db SubmitResponse
  unfolding check_payload
  submit_envelope user_id device_id dto d = do
    senders ← gets (sender_devices user_id device_id)
    check_device senders
    check_payload user_id device_id dto d

-- WHERE rd.envelope_id AND rd.recipient_device_id, with the envelope of each row
unfoldable pub recipient_rows : ℕ → ℕ → Db → List (RecipientDevice × MessageEnvelope)
recipient_rows envelope_id device_id db =
    join (λ rd e. rd.envelope_id == e.id)
      (select (λ rd. (rd.envelope_id == envelope_id) && (rd.recipient_device_id == device_id))
        db.transport.message_recipient_devices)
      db.transport.message_envelopes

-- SET delivery_status = 'delivered', delivered_at, updated_at
abbrev pub delivered_now : ℕ → RecipientDevice → RecipientDevice
delivered_now now rd = record rd {
  delivery_status = delivered;
  delivered_at = some now;
  updated_at = now;
}

unfoldable pub mark_delivered : ℕ → ℕ → Db → Db
mark_delivered record_id now db = record db {
  transport = record db.transport {
    message_recipient_devices =
        update (λ rd. rd.id == record_id) (delivered_now now)
          db.transport.message_recipient_devices;
  };
}

module _ (env : Environment) where
  abbrev pub delivery_ack : ℕ → ℕ → ℕ → ℕ → MessageAcknowledgement
  delivery_ack ack_id envelope_id device_id now = record {
    id = ack_id;
    envelope_id = envelope_id;
    recipient_device_id = device_id;
    ack_type = AckType.delivery;
    acknowledged_at = now;
  }

  acknowledge_found :
      (ℕ → Bool) → ℕ → ℕ → ℕ → ℕ → List (RecipientDevice × MessageEnvelope) → Action Db (Unit {0})
  acknowledge_found is_user device_id envelope_id ack_id now [] db = throw ack_unauthorized db
  acknowledge_found is_user device_id envelope_id ack_id now ((rd, e) ∷ rest) db =
      if not (is_user e.recipient_user_id)
      then throw ack_unauthorized db
      else atomically
          (do
            modify (mark_delivered rd.id now)
            insert_acknowledgement env (delivery_ack ack_id envelope_id device_id now))
          db

  -- `is_user` compares an identifier with that of the caller.
  unfoldable pub acknowledge_delivery_for : (ℕ → Bool) → ℕ → ℕ → ℕ → ℕ → Action Db (Unit {0})
  unfolding acknowledge_found
  acknowledge_delivery_for is_user device_id envelope_id ack_id now = do
    rows ← gets (recipient_rows envelope_id device_id)
    acknowledge_found is_user device_id envelope_id ack_id now rows

  unfoldable pub acknowledge_delivery : ℕ → ℕ → ℕ → ℕ → ℕ → Action Db (Unit {0})
  unfolding acknowledge_delivery_for
  acknowledge_delivery user_id = acknowledge_delivery_for (λ i. i == user_id)

  -- INSERT ... ON CONFLICT (conversation_id, user_id) DO UPDATE
  unfoldable pub store_read_state : MessageReadState → Action Db (Unit {0})
  store_read_state s db =
      if any (λ r. (r.conversation_id == s.conversation_id) && (r.user_id == s.user_id))
        db.transport.message_read_states
      then if env.references_checked
          && dangling (envelope_exists db.transport) s.last_read_envelope_id
        then throw constraint_violation db
        else modify
            (λ v. record v {
              transport = record v.transport {
                message_read_states =
                    update
                      (λ r. (r.conversation_id == s.conversation_id) && (r.user_id == s.user_id))
                      (λ r. record r {
                        last_read_envelope_id = s.last_read_envelope_id;
                        last_read_at = s.last_read_at;
                      })
                      v.transport.message_read_states;
              };
            })
            db
      else if read_state_violates env s db
      then throw constraint_violation db
      else modify
          (λ v. record v {
            transport = record v.transport {
              message_read_states = s ∷ v.transport.message_read_states;
            };
          })
          db

  unfoldable pub acknowledge_read : ℕ → ℕ → ℕ → ℕ → ℕ → Action Db (Unit {0})
  unfolding store_read_state
  acknowledge_read user_id conversation_id last_read_envelope_id state_id now db =
      if not (is_member conversation_id user_id db)
      then throw conversation_denied db
      else store_read_state
          (record {
            id = state_id;
            conversation_id = conversation_id;
            user_id = user_id;
            last_read_envelope_id = some last_read_envelope_id;
            last_read_at = now;
          })
          db
