-- ===== src/Schema/TransportConstraints.antt =====
-- The constraints of the transport schema, as tests that refuse a row, and its INSERT statements.
use text.Mathlib.Text.{◌==◌ as str_eq}
use guff_suff.Prelude.{ℕ, Bool, ◌∷◌, not, ◌&&◌, ◌||◌, leb, ◌==◌, any}
use guff_suff.Action.{Action, insert}
use guff_suff.Environment.{Environment}
use guff_suff.Schema.{Db}
use guff_suff.Schema.Constraints.{user_exists, device_exists, dangling}
use guff_suff.Schema.Transport.{
  MessageEnvelope, RecipientDevice, MessageAcknowledgement, MessageReadState, MessageIdempotencyKey,
  TransportDb,
}

abbrev pub conversation_exists : TransportDb → ℕ → Bool
conversation_exists t i = any (λ c. c.id == i) t.direct_conversations

abbrev pub envelope_exists : TransportDb → ℕ → Bool
envelope_exists t i = any (λ e. e.id == i) t.message_envelopes

module _ (env : Environment) where
  unfoldable pub envelope_violates : MessageEnvelope → Db → Bool
  envelope_violates e db =
      (envelope_exists db.transport e.id
        || (not (leb e.payload_byte_length 65536) || not (leb e.protocol_version 2147483647)))
      || (env.references_checked
          && (not (conversation_exists db.transport e.conversation_id)
              || (not (user_exists db.identity e.sender_user_id)
                  || (not (device_exists db.identity e.sender_device_id)
                      || not (user_exists db.identity e.recipient_user_id)))))

  unfoldable pub idempotency_key_violates : MessageIdempotencyKey → Db → Bool
  idempotency_key_violates k db =
      (any (λ r. r.id == k.id) db.transport.message_idempotency_keys
        || any
            (λ r.
              (r.sender_device_id == k.sender_device_id)
              && str_eq r.idempotency_key k.idempotency_key)
            db.transport.message_idempotency_keys)
      || (env.references_checked
          && (not (device_exists db.identity k.sender_device_id)
              || not (envelope_exists db.transport k.envelope_id)))

  unfoldable pub recipient_violates : RecipientDevice → Db → Bool
  recipient_violates d db =
      (any (λ r. r.id == d.id) db.transport.message_recipient_devices
        || any
            (λ r.
              (r.envelope_id == d.envelope_id) && (r.recipient_device_id == d.recipient_device_id))
            db.transport.message_recipient_devices)
      || (env.references_checked
          && (not (envelope_exists db.transport d.envelope_id)
              || not (device_exists db.identity d.recipient_device_id)))

  unfoldable pub acknowledgement_violates : MessageAcknowledgement → Db → Bool
  acknowledgement_violates a db =
      any (λ r. r.id == a.id) db.transport.message_acknowledgements
      || (env.references_checked
          && (not (envelope_exists db.transport a.envelope_id)
              || not (device_exists db.identity a.recipient_device_id)))

  unfoldable pub read_state_violates : MessageReadState → Db → Bool
  read_state_violates s db =
      any (λ r. r.id == s.id) db.transport.message_read_states
      || (env.references_checked
          && (not (conversation_exists db.transport s.conversation_id)
              || (not (user_exists db.identity s.user_id)
                  || dangling (envelope_exists db.transport) s.last_read_envelope_id)))

  abbrev pub insert_envelope : MessageEnvelope → Action Db (Unit {0})
  insert_envelope e = insert (envelope_violates e) (λ db. record db {
    transport = record db.transport { message_envelopes = e ∷ db.transport.message_envelopes };
  })

  abbrev pub insert_idempotency_key : MessageIdempotencyKey → Action Db (Unit {0})
  insert_idempotency_key k = insert (idempotency_key_violates k) (λ db. record db {
    transport = record db.transport {
      message_idempotency_keys = k ∷ db.transport.message_idempotency_keys;
    };
  })

  abbrev pub insert_recipient : RecipientDevice → Action Db (Unit {0})
  insert_recipient d = insert (recipient_violates d) (λ db. record db {
    transport = record db.transport {
      message_recipient_devices = d ∷ db.transport.message_recipient_devices;
    };
  })

  abbrev pub insert_acknowledgement : MessageAcknowledgement → Action Db (Unit {0})
  insert_acknowledgement a = insert (acknowledgement_violates a) (λ db. record db {
    transport = record db.transport {
      message_acknowledgements = a ∷ db.transport.message_acknowledgements;
    };
  })
