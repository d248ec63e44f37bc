-- ===== src/Envelope/Queries.antt =====
-- The read-only methods of message-envelope.service.ts.
use mathlib.Core.List.{reverse}
use guff_suff.Prelude.{
  ℕ, Bool, true, false, List, [], ◌∷◌, not, ◌&&◌, ltb, ◌==◌, if◌then◌else◌, select, join, sort_desc,
}
use guff_suff.Errors.{envelope_not_found, status_denied}
use guff_suff.Action.{Action, pure, throw}
use guff_suff.Schema.{Db}
use guff_suff.Schema.Transport.{
  MessageEnvelope, RecipientDevice, DeliveryStatus, accepted, queued, routed,
}

-- delivery_status IN ('accepted', 'queued', 'routed')
abbrev pub is_undelivered : DeliveryStatus → Bool
is_undelivered accepted = true
is_undelivered queued = true
is_undelivered routed = true
is_undelivered _ = false

-- `is_user` compares an identifier with that of the caller.
abbrev pub is_pending_for : (ℕ → Bool) → ℕ → ℕ → MessageEnvelope → RecipientDevice → Bool
is_pending_for is_user device_id now e rd =
    (e.id == rd.envelope_id)
    && ((rd.recipient_device_id == device_id)
        && (is_user e.recipient_user_id
            && (is_undelivered rd.delivery_status && ltb now e.expires_at)))

abbrev pub is_pending : ℕ → ℕ → ℕ → MessageEnvelope → RecipientDevice → Bool
is_pending user_id = is_pending_for (λ i. i == user_id)

-- The rows of the query, in the order of the tables.
unfoldable pub pending_rows_for : (ℕ → Bool) → ℕ → ℕ → Db → List (MessageEnvelope × RecipientDevice)
pending_rows_for is_user device_id now db =
    join (is_pending_for is_user device_id now) db.transport.message_envelopes
      db.transport.message_recipient_devices

unfoldable pub pending_rows : ℕ → ℕ → ℕ → Db → List (MessageEnvelope × RecipientDevice)
unfolding pending_rows_for
pending_rows user_id = pending_rows_for (λ i. i == user_id)

-- ORDER BY e.server_accepted_at ASC
unfoldable pub get_pending_envelopes_for :
    (ℕ → Bool) → ℕ → ℕ → Db → List (MessageEnvelope × RecipientDevice)
get_pending_envelopes_for is_user device_id now db =
    reverse (sort_desc (λ p. p.0.server_accepted_at) (pending_rows_for is_user device_id now db))

unfoldable pub get_pending_envelopes : ℕ → ℕ → ℕ → Db → List (MessageEnvelope × RecipientDevice)
unfolding get_pending_envelopes_for
get_pending_envelopes user_id = get_pending_envelopes_for (λ i. i == user_id)

pub record EnvelopeStatus : Type 0 where
  pub envelope_id : ℕ
  pub conversation_id : ℕ
  pub server_accepted_at : ℕ
  pub expires_at : ℕ
  pub recipient_devices : List RecipientDevice

status_found : (ℕ → Bool) → ℕ → List MessageEnvelope → Action Db EnvelopeStatus
status_found is_user envelope_id [] db = throw envelope_not_found db
status_found is_user envelope_id (e ∷ rest) db =
    if not (is_user e.sender_user_id) && not (is_user e.recipient_user_id)
    then throw status_denied db
    else pure
        (record {
          envelope_id = e.id;
          conversation_id = e.conversation_id;
          server_accepted_at = e.server_accepted_at;
          expires_at = e.expires_at;
          recipient_devices =
              select (λ rd. rd.envelope_id == envelope_id) db.transport.message_recipient_devices;
        })
        db

unfoldable pub get_envelope_status_for : (ℕ → Bool) → ℕ → Action Db EnvelopeStatus
unfolding status_found
get_envelope_status_for is_user envelope_id db =
    status_found is_user envelope_id
      (select (λ e. e.id == envelope_id) db.transport.message_envelopes) db

unfoldable pub get_envelope_status : ℕ → ℕ → Action Db EnvelopeStatus
unfolding get_envelope_status_for
get_envelope_status user_id = get_envelope_status_for (λ i. i == user_id)
