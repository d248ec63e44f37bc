-- ===== src/System/Frame/Deliveries.antt =====
-- What the calls of the envelope service and of the worker leave alone.
use guff_suff.Prelude.{ℕ, ◌≡◌, refl, List, [], ◌∷◌, arith, inl, inr}
use guff_suff.Action.{final}
use guff_suff.Environment.{Environment}
use guff_suff.Schema.{Db}
use guff_suff.Schema.Transport.{RecipientDevice, MessageEnvelope}
use guff_suff.Envelope.{
  SubmitMessageEnvelope, SubmitDraws, submit_envelope, active_devices, recipient_rows,
  mark_delivered, acknowledge_delivery, acknowledge_read,
}
use guff_suff.Worker.{
  retry, due_records, process_offline_message_retries, process_expired_envelope_cleanup,
}
use guff_suff.Mailbox.{submits, acknowledges, reads, retries, cleans}
use guff_suff.Mailbox
use guff_suff.Mailbox.Keys.{submit-final, rolled_back_cases}
use guff_suff.Envelope.Submit.{insert_rows_returned}

module _ (env : Environment) where
  pub acknowledge_others :
      (user device envelope ack now : ℕ) (db : Db) (rows : List (RecipientDevice × MessageEnvelope))
      → recipient_rows envelope device db ≡ rows
      → let t = final (acknowledge_delivery env user device envelope ack now db) in
        (t.identity ≡ db.identity)
        × (t.transport.message_envelopes ≡ db.transport.message_envelopes)
  unfolding acknowledge_delivery mark_delivered
  acknowledge_others user device envelope ack now db [] found = ground arith
  acknowledge_others user device envelope ack now db ((r, e) ∷ rest) found = ground arith

  pub read_others :
      (user conversation envelope state now : ℕ) (db : Db)
      → let t = final (acknowledge_read env user conversation envelope state now db) in
        (t.identity ≡ db.identity)
        × (t.transport.message_envelopes ≡ db.transport.message_envelopes)
  unfolding acknowledge_read
  read_others user conversation envelope state now db = ground arith

  submit-identity :
      (user device : ℕ) (dto : SubmitMessageEnvelope) (d : SubmitDraws) (db : Db)
      → (final (submit_envelope env user device dto d db)).identity ≡ db.identity
  submit-identity user device dto d db = elim (submit-final env user device dto d db) [
    | inl same ↦ rw same refl
    | inr wrote ↦ rw wrote (
        rolled_back_cases (λ t. t.identity ≡ db.identity) db _ refl
          (λ t done.
            rw
              (insert_rows_returned env user device dto d (active_devices dto.recipient_user_id db)
                db done refl)
              refl))
  ]

  retry-identity :
      (now : ℕ) (rs : List RecipientDevice) (db : Db) → (retry now rs db).identity ≡ db.identity
  unfolding retry
  retry-identity now [] db = refl
  retry-identity now (r ∷ rs) db = retry-identity now rs _

  pub mailbox-identity :
      (db : Db) (c : Mailbox.Call) → (Mailbox.step env db c).identity ≡ db.identity
  unfolding Mailbox.step process_offline_message_retries process_expired_envelope_cleanup
  mailbox-identity db (submits user device dto d) = submit-identity user device dto d db
  mailbox-identity db (acknowledges user device envelope ack now) =
      (acknowledge_others user device envelope ack now db _ refl).0
  mailbox-identity db (reads user conversation envelope state now) =
      (read_others user conversation envelope state now db).0
  mailbox-identity db (retries now) = retry-identity now (due_records now db) db
  mailbox-identity db (cleans now) = refl
