-- ===== src/Worker/Cleanup.antt =====
-- What is pending after the cleanup of expired envelopes.
use guff_suff.Prelude.{
  ℕ, ◌≡◌, ◌<◌, true, false, List, ◌&&◌, leb, ◌==◌, arith, All, All-imp, All-intro, All-any-false,
  All-update_intro, All-swap, All-join_each, Bool-cases, inl, inr,
}
use guff_suff.Schema.{Db}
use guff_suff.Schema.Transport.{MessageEnvelope, RecipientDevice}
use guff_suff.Envelope.Queries.{is_undelivered, is_pending, pending_rows}
use guff_suff.Worker.{expired_at, is_overdue, process_expired_envelope_cleanup}

-- An undelivered record belongs to no envelope that has expired.
abbrev Current : ℕ → List MessageEnvelope → RecipientDevice → Type 0
Current now envelopes rd =
    All
      (λ e.
        is_undelivered rd.delivery_status ≡ true
        → (rd.envelope_id == e.id) ≡ true
        → now < e.expires_at)
      envelopes

left_alone-Current :
    (now : ℕ) (envelopes : List MessageEnvelope) (rd : RecipientDevice)
    → (is_overdue now envelopes rd && is_undelivered rd.delivery_status) ≡ false
    → Current now envelopes rd
left_alone-Current now envelopes rd h = elim (Bool-cases (is_overdue now envelopes rd)) [
  | inl overdue ↦ All-intro _ (λ e live same. ground arith) envelopes
  | inr current ↦
      All-imp _ (λ e no' live same. ground arith) envelopes
        (All-any-false (λ e. (rd.envelope_id == e.id) && leb e.expires_at now) envelopes current)
]

-- After a cleanup at `now`, whoever asks and at whatever time, no pending envelope had expired by
-- `now`.
pub process_expired_envelope_cleanup-pending :
    (now user device at : ℕ) (db : Db)
    → All
        (λ p. now < p.0.expires_at)
        (pending_rows user device at (process_expired_envelope_cleanup now db))
unfolding process_expired_envelope_cleanup pending_rows
process_expired_envelope_cleanup-pending now user device at db =
    All-join_each (λ p. now < p.0.expires_at) (is_pending user device at) _ _
      (All-imp _ (λ e a. All-imp _ (λ rd k on. k (ground arith) (ground arith)) _ a) _
        (All-swap
          (λ e rd.
            is_undelivered rd.delivery_status ≡ true
            → (rd.envelope_id == e.id) ≡ true
            → now < e.expires_at)
          db.transport.message_envelopes _
          (All-update_intro (Current now db.transport.message_envelopes) _ (expired_at now)
            (λ rd _. All-intro _ (λ e live. cc) db.transport.message_envelopes)
            (left_alone-Current now db.transport.message_envelopes)
            db.transport.message_recipient_devices)))
