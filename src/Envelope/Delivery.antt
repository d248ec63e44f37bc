-- ===== src/Envelope/Delivery.antt =====
-- From the submission of an envelope to its acknowledgement by a device.
use guff_suff.Prelude.{
  ℕ, suc, ◌≡◌, ◌≢◌, refl, ◌<◌, Bool, true, false, List, [], ◌∷◌, ◌&&◌, arith, ltb, ◌==◌, ==_refl,
  ==_iff, any, any-append, any-pairs, any-imp, select, update, join, map, All, All-imp, All-join,
  Anything, All-Anything, All-update_intro,
}
use guff_suff.Action.{returned}
use guff_suff.Environment.{Environment}
use guff_suff.Schema.{Db}
use guff_suff.Schema.Identity.{Device}
use guff_suff.Schema.Transport.{MessageEnvelope, RecipientDevice, delivered}
use guff_suff.Envelope.{
  SubmitMessageEnvelope, SubmitDraws, SubmitResponse, active_devices, new_envelope, new_recipient,
  submit_envelope, recipient_rows, delivered_now, mark_delivered, acknowledge_delivery,
}
use guff_suff.Envelope.Queries.{is_pending, pending_rows}
use guff_suff.Envelope.Submit.{records, submit-Accepted}

records-any :
    (p : RecipientDevice → Bool) (d : SubmitDraws) (k : ℕ) (devices : List Device)
    (rows : List RecipientDevice)
    → any p rows ≡ true
    → any p (records d k devices rows) ≡ true
unfolding records any
records-any p d k [] rows h = h
records-any p d k (dev ∷ devices) rows h =
    records-any p d (suc k) devices
      (new_recipient (d.recipient_record_id k) d.envelope_id dev.id d.db_now ∷ rows) (ground arith)

module _ (user now : ℕ) (d : SubmitDraws) (e : MessageEnvelope) (same : e.id ≡ d.envelope_id)
    (to_user : e.recipient_user_id ≡ user) (in_time : ltb now e.expires_at ≡ true) where
  -- Each device of the loop has a record that its pending query finds.
  records-pending :
      (k : ℕ) (devices : List Device) (rows : List RecipientDevice)
      → All (λ dev. any (is_pending user dev.id now e) (records d k devices rows) ≡ true) devices
  unfolding records any
  records-pending k [] rows = tt
  records-pending k (dev ∷ devices) rows = (
    records-any _ d (suc k) devices
        (new_recipient (d.recipient_record_id k) d.envelope_id dev.id d.db_now ∷ rows)
        (ground (arith, ==_refl dev.id)),
    records-pending (suc k) devices _,
  )

-- The first envelope of the table is pending for a device that has a record of it.
pub pending-first :
    (user device now : ℕ) (e : MessageEnvelope) (es : List MessageEnvelope)
    (rows : List RecipientDevice)
    → any (is_pending user device now e) rows ≡ true
    → any (λ p. p.0.id == e.id) (join (is_pending user device now) (e ∷ es) rows) ≡ true
unfolding join
pending-first user device now e es rows h =
    rw
      (any-append (λ p. p.0.id == e.id)
        (map (λ y. (e, y)) (select (is_pending user device now e) rows))
        (join (is_pending user device now) es rows))
      (rw (any-pairs (λ p. p.0.id == e.id) (is_pending user device now e) e rows) (
        rw
          (any-imp (is_pending user device now e)
            (λ y. is_pending user device now e y && (e.id == e.id))
            (λ y k. ground (arith, ==_refl e.id)) rows h)
          refl))

-- A submission that is accepted as a new one reaches every active device of the recipient: until it
-- expires, the envelope is among the pending ones of each.
pub submit-pending :
    (env : Environment) (user device : ℕ) (dto : SubmitMessageEnvelope) (d : SubmitDraws) (db : Db)
    {db' : Db} {r : SubmitResponse}
    → submit_envelope env user device dto d db ≡ returned db' r
    → r.idempotent_retry ≡ false
    → (now : ℕ) → now < dto.expires_at
    → All
        (λ dev.
          any (λ p. p.0.id == d.envelope_id) (pending_rows dto.recipient_user_id dev.id now db')
          ≡ true)
        (active_devices dto.recipient_user_id db)
unfolding pending_rows
submit-pending env user device dto d db {db'} {r} done new now early =
    rw (submit-Accepted env user device dto d db done new).written (
      All-imp _
        (λ dev h.
          pending-first dto.recipient_user_id dev.id now (new_envelope env user device dto d)
            db.transport.message_envelopes _ h)
        _
        (records-pending dto.recipient_user_id now d (new_envelope env user device dto d) refl refl
          (ground arith) 0 (active_devices dto.recipient_user_id db)
          db.transport.message_recipient_devices))

module _ (env : Environment) (user device envelope ack now : ℕ) (db : Db) {rd : RecipientDevice}
    {e : MessageEnvelope} {rest : List (RecipientDevice × MessageEnvelope)}
    (found : recipient_rows envelope device db ≡ (rd, e) ∷ rest) {db' : Db}
    (done : acknowledge_delivery env user device envelope ack now db ≡ returned db' tt) where
  pub acknowledged_rows :
      (e.recipient_user_id ≡ user)
      × (db'.transport.message_recipient_devices
          ≡ update (λ r. r.id == rd.id) (delivered_now now) db.transport.message_recipient_devices)
  unfolding acknowledge_delivery mark_delivered
  acknowledged_rows = (ground arith, ground arith)

  marked_delivered :
      All
        (λ r. (r.id == rd.id) ≡ true → r.delivery_status ≡ delivered)
        db'.transport.message_recipient_devices
  marked_delivered = rw acknowledged_rows.1 (
      All-update_intro _ (λ r. r.id == rd.id) (delivered_now now) (λ r _ _. refl)
        (λ r no' is. ground arith) db.transport.message_recipient_devices)

  -- An acknowledgement that succeeds comes from the user that the envelope was sent to, and the
  -- acknowledged record is not pending any more: whoever asks, and whenever.
  pub acknowledge_delivery-pending :
      (e.recipient_user_id ≡ user)
      × ((who where_to at : ℕ) → All (λ p. p.1.id ≢ rd.id) (pending_rows who where_to at db'))
  unfolding pending_rows
  acknowledge_delivery-pending = (
    acknowledged_rows.0,
    λ who where_to at.
        All-join _ Anything (λ r. (r.id == rd.id) ≡ true → r.delivery_status ≡ delivered)
          (is_pending who where_to at)
          (λ m r on _ k same. ground (arith, k ((==_iff r.id rd.id).1 same))) _ _
          (All-Anything db'.transport.message_envelopes) marked_delivered,
  )
