-- ===== src/Worker.antt =====
-- services/worker/src/transport-processor.ts. The worker logs and swallows every error; its
-- statements violate no constraint.
pub mod Cleanup
use guff_suff.Prelude.{
  ℕ, ◌+◌, Bool, some, List, [], ◌∷◌, ◌&&◌, ltb, leb, ◌==◌, any, select, update, join, take, map,
}
use guff_suff.Schema.{Db}
use guff_suff.Schema.Transport.{MessageEnvelope, RecipientDevice, queued, expired, TransportDb}
use guff_suff.Envelope.Queries.{is_undelivered}

abbrev pub is_due : ℕ → RecipientDevice → MessageEnvelope → Bool
is_due now rd e =
    (rd.envelope_id == e.id)
    && (is_undelivered rd.delivery_status
        && (ltb now e.expires_at && ltb rd.delivery_attempts_count 5))

-- The SELECT with LIMIT 50, in the order of the tables.
unfoldable pub due_records : ℕ → Db → List RecipientDevice
due_records now db =
    map (λ p. p.0)
      (take 50
        (join (is_due now) db.transport.message_recipient_devices db.transport.message_envelopes))

-- SET delivery_status = 'queued', delivery_attempts_count + 1, last_attempted_at, updated_at
abbrev pub retried : ℕ → RecipientDevice → RecipientDevice
retried now rd = record rd {
  delivery_status = queued;
  delivery_attempts_count = rd.delivery_attempts_count + 1;
  last_attempted_at = some now;
  updated_at = now;
}

-- The loop, one UPDATE for each record.
unfoldable pub retry : ℕ → List RecipientDevice → Db → Db
retry now [] db = db
retry now (r ∷ rs) db = retry now rs (record db {
  transport = record db.transport {
    message_recipient_devices =
        update (λ rd. rd.id == r.id) (retried now) db.transport.message_recipient_devices;
  };
})

unfoldable pub process_offline_message_retries : ℕ → Db → Db
unfolding retry due_records
process_offline_message_retries now db = retry now (due_records now db) db

-- The envelope of the record is there, and has expired.
abbrev pub is_overdue : ℕ → List MessageEnvelope → RecipientDevice → Bool
is_overdue now envelopes rd = any (λ e. (rd.envelope_id == e.id) && leb e.expires_at now) envelopes

-- SET delivery_status = 'expired', updated_at
abbrev pub expired_at : ℕ → RecipientDevice → RecipientDevice
expired_at now rd = record rd { delivery_status = expired; updated_at = now }

unfoldable pub process_expired_envelope_cleanup : ℕ → Db → Db
process_expired_envelope_cleanup now db = record db {
  transport = record db.transport {
    message_recipient_devices =
        update
          (λ rd.
            is_overdue now db.transport.message_envelopes rd && is_undelivered rd.delivery_status)
          (expired_at now) db.transport.message_recipient_devices;
  };
}
