-- ===== src/Envelope/Idempotency.antt =====
-- Submitting again under an idempotency key that was used.
use text.Mathlib.TextPositions.{eq_refl}
use guff_suff.Prelude.{
  ℕ, ◌≡◌, ◌≢◌, true, false, none, List, [], ◌∷◌, arith, leb, ◌==◌, ==_refl, length, select,
}
use guff_suff.Errors.{idempotency_conflict}
use guff_suff.Action.{returned, threw}
use guff_suff.Environment.{Environment}
use guff_suff.Schema.{Db}
use guff_suff.Schema.Identity.{Device}
use guff_suff.Envelope.{
  SubmitMessageEnvelope, SubmitDraws, SubmitResponse, check_device, is_member, key_rows, payload,
  payload_digest, new_envelope, new_key, submit_envelope,
}
use guff_suff.Envelope.Submit.{Accepted, submitted, submit-Accepted}

-- The check of the sender reads the device rows alone.
check_device_state :
    (rows : List Device) (db s : Db)
    → check_device rows db ≡ returned db tt
    → check_device rows s ≡ returned s tt
unfolding check_device
check_device_state [] db s h = cc
check_device_state (d ∷ rest) db s h = ground arith

-- The row of the key, and the envelope, are found after an accepted submission.
key_rows-submitted :
    (env : Environment) (user device : ℕ) (dto : SubmitMessageEnvelope) (d : SubmitDraws) (db : Db)
    → key_rows device dto.idempotency_key (submitted env user device dto d db)
      ≡ new_key env device dto d ∷ key_rows device dto.idempotency_key db
unfolding select
key_rows-submitted env user device dto d db =
    ground (arith, ==_refl device, eq_refl dto.idempotency_key)

envelope-submitted :
    (env : Environment) (user device : ℕ) (dto : SubmitMessageEnvelope) (d : SubmitDraws) (db : Db)
    → select
        (λ e. e.id == d.envelope_id)
        (submitted env user device dto d db).transport.message_envelopes
      ≡ new_envelope env user device dto d
        ∷ select (λ e. e.id == d.envelope_id) db.transport.message_envelopes
unfolding select
envelope-submitted env user device dto d db = ground (arith, ==_refl d.envelope_id)

module _ (env : Environment) (user device : ℕ) (dto : SubmitMessageEnvelope) (d : SubmitDraws)
    (db : Db) {db' : Db} {r : SubmitResponse}
    (done : submit_envelope env user device dto d db ≡ returned db' r)
    (new : r.idempotent_retry ≡ false) where
  call-Accepted : Accepted env user device dto d db db' r
  call-Accepted = submit-Accepted env user device dto d db done new

  -- A retry of a submission that was accepted as a new one, in the database that it left, writes
  -- nothing and returns the envelope that the first call returned.
  pub submit-retry :
      (again : SubmitDraws)
      → submit_envelope env user device dto again db'
        ≡ returned db' (record {
          envelope = r.envelope;
          recipient_device_count = none;
          idempotent_retry = true;
        })
  unfolding submit_envelope
  submit-retry again = rw call-Accepted.written (
      ground (
        arith,
        call-Accepted.view,
        call-Accepted.member,
        call-Accepted.fits,
        check_device_state _ db (submitted env user device dto d db) call-Accepted.sender,
        key_rows-submitted env user device dto d db,
        envelope-submitted env user device dto d db,
      ))

  -- After a submission that was accepted as a new one, another one of the same device under the same
  -- key, to a conversation of the sender and with a payload that fits but has another digest, is
  -- refused and writes nothing.
  pub submit-conflict :
      (other : SubmitMessageEnvelope) (again : SubmitDraws)
      → other.idempotency_key ≡ dto.idempotency_key
      → is_member other.conversation_id user db ≡ true
      → leb (length (payload env other)) 65536 ≡ true
      → payload_digest env other ≢ payload_digest env dto
      → submit_envelope env user device other again db' ≡ threw db' idempotency_conflict
  unfolding submit_envelope
  submit-conflict other again same member fits differs = rw call-Accepted.written (
      ground (
        arith,
        check_device_state _ db (submitted env user device dto d db) call-Accepted.sender,
        key_rows-submitted env user device dto d db,
      ))
