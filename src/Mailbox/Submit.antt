-- ===== src/Mailbox/Submit.antt =====
-- What a submission does to the mailboxes.
use guff_suff.Prelude.{
  ℕ, suc, ◌≡◌, true, List, [], ◌∷◌, ◌&&◌, ◌||◌, arith, ◌==◌, any, inl, inr, Bool-cases, fun_ext,
}
use guff_suff.Action.{Outcome, returned, threw, final}
use guff_suff.Environment.{Environment}
use guff_suff.Schema.{Db}
use guff_suff.Schema.Identity.{Device}
use guff_suff.Schema.Transport.{RecipientDevice}
use guff_suff.Envelope.{
  SubmitMessageEnvelope, SubmitDraws, SubmitResponse, new_recipient, submit_envelope, check_device,
  active_devices,
}
use guff_suff.Envelope.Submit.{records, submit-threw, submit-Accepted}
use guff_suff.Mailbox.{mailbox, is_waiting, apply, posted_event}

-- The loop adds one waiting device for each round.
waiting-records :
    (d : SubmitDraws) (k : ℕ) (devices : List Device) (rows : List RecipientDevice) (x y : ℕ)
    → any (is_waiting x y) (records d k devices rows)
      ≡ (any (is_waiting x y) rows || ((x == d.envelope_id) && any (λ v. v.id == y) devices))
unfolding records any
waiting-records d k [] rows x y = ground arith
waiting-records d k (dev ∷ devices) rows x y = ground (
  arith,
  waiting-records d (suc k) devices
      (new_recipient (d.recipient_record_id k) d.envelope_id dev.id d.db_now ∷ rows) x y,
)

module _ (env : Environment) (user device : ℕ) (dto : SubmitMessageEnvelope) (d : SubmitDraws)
    (db : Db) where
  pub submit-retry_same :
      {db' : Db} {r : SubmitResponse}
      → submit_envelope env user device dto d db ≡ returned db' r
      → r.idempotent_retry ≡ true
      → db' ≡ db
  unfolding submit_envelope check_device
  submit-retry_same h again = ground arith

  -- A submission that is accepted as a new one posts its envelope to the active devices of the
  -- recipient; any other changes no mailbox.
  pub submit-mailbox :
      (o : Outcome Db SubmitResponse)
      → submit_envelope env user device dto d db ≡ o
      → mailbox (final o) ≡ apply (posted_event dto d db o) (mailbox db)
  unfolding mailbox apply
  submit-mailbox (threw db' e) h = rw (submit-threw env user device dto d db h)
  submit-mailbox (returned db' r) h = elim (Bool-cases r.idempotent_retry) [
    | inl again ↦ rw (again, submit-retry_same h again)
    | inr new ↦
        rw (new, (submit-Accepted env user device dto d db h new).written)
          (fun_ext λ x. fun_ext λ y.
            waiting-records d 0 (active_devices dto.recipient_user_id db)
              db.transport.message_recipient_devices x y)
  ]
