-- ===== src/Mailbox/Statuses.antt =====
-- The states that a delivery record passes through: the transitions of the code, against those that
-- docs/DELIVERY_STATE_MACHINE.md names.
use guff_suff.Prelude.{
  ℕ, suc, ◌≡◌, ◌≢◌, refl, inl, inr, true, List, [], ◌∷◌, arith, All, All-imp, All-update, ◌==◌,
}
use guff_suff.Action.{final}
use guff_suff.Environment.{Environment}
use guff_suff.Schema.{Db}
use guff_suff.Schema.Identity.{Device}
use guff_suff.Schema.Transport.{
  RecipientDevice, DeliveryStatus, accepted, queued, routed, delivered, read, expired,
  revoked_recipient, permanently_failed,
}
use guff_suff.Envelope.{
  SubmitMessageEnvelope, SubmitDraws, submit_envelope, new_recipient, active_devices, delivered_now,
}
use guff_suff.Envelope.Queries.{is_undelivered}
use guff_suff.Envelope.Submit.{records, insert_rows_returned}
use guff_suff.Worker.{
  retry, retried, due_records, expired_at, process_offline_message_retries,
  process_expired_envelope_cleanup,
}
use guff_suff.Mailbox.{Call, submits, acknowledges, reads, retries, cleans, step, run}
use guff_suff.Mailbox.Keys.{
  delivery_records, submit-final, rolled_back_cases, acknowledge-final, read-rows,
}

-- What the statements of the services and of the worker do to a status.
infix 40 ◌⟶◌
pub data ◌⟶◌ : DeliveryStatus → DeliveryStatus → Type 0 where
  retries_it : {s : DeliveryStatus} → s ⟶ queued
  delivers : {s : DeliveryStatus} → s ⟶ delivered
  expires : {s : DeliveryStatus} → is_undelivered s ≡ true → s ⟶ expired

pub data Reachable : DeliveryStatus → Type 0 where
  created : Reachable accepted
  next : {s t : DeliveryStatus} → Reachable s → s ⟶ t → Reachable t

-- The states that are named by the schema and entered by no statement.
pub Reachable-used :
    {s : DeliveryStatus}
    → Reachable s
    → (s ≢ routed) × (s ≢ read) × (s ≢ revoked_recipient) × (s ≢ permanently_failed)
Reachable-used created = (λ e. cc, λ e. cc, λ e. cc, λ e. cc)
Reachable-used (next r retries_it) = (λ e. cc, λ e. cc, λ e. cc, λ e. cc)
Reachable-used (next r delivers) = (λ e. cc, λ e. cc, λ e. cc, λ e. cc)
Reachable-used (next r (expires h)) = (λ e. cc, λ e. cc, λ e. cc, λ e. cc)

abbrev pub AllReachable : List RecipientDevice → Type 0
AllReachable rows = All (λ r. Reachable r.delivery_status) rows

module _ (P : RecipientDevice → Type 0) (new : (i e v now : ℕ) → P (new_recipient i e v now)) where
  records-All :
      (d : SubmitDraws) (k : ℕ) (devices : List Device) (rows : List RecipientDevice)
      → All P rows
      → All P (records d k devices rows)
  unfolding records
  records-All d k [] rows h = h
  records-All d k (dev ∷ devices) rows h =
      records-All d (suc k) devices
        (new_recipient (d.recipient_record_id k) d.envelope_id dev.id d.db_now ∷ rows)
        (new _ _ _ _, h)

  -- A submission adds fresh records only.
  pub submit-All :
      (env : Environment) (user device : ℕ) (dto : SubmitMessageEnvelope) (d : SubmitDraws)
      (db : Db)
      → All P (delivery_records db)
      → All P (delivery_records (final (submit_envelope env user device dto d db)))
  submit-All env user device dto d db h = elim (submit-final env user device dto d db) [
    | inl same ↦ rw same h
    | inr wrote ↦ rw wrote (
        rolled_back_cases (λ s. All P (delivery_records s)) db _ h
          (λ t done.
            rw
              (insert_rows_returned env user device dto d (active_devices dto.recipient_user_id db)
                db done refl)
              (records-All d 0 (active_devices dto.recipient_user_id db) (delivery_records db) h)))
  ]

module _ (env : Environment) where
  retry-AllReachable :
      (now : ℕ) (rs : List RecipientDevice) (db : Db)
      → AllReachable (delivery_records db)
      → AllReachable (delivery_records (retry now rs db))
  unfolding retry
  retry-AllReachable now [] db h = h
  retry-AllReachable now (r ∷ rs) db h =
      retry-AllReachable now rs _
        (All-update _ (λ x. x.id == r.id) (retried now) (λ x _ k. next k retries_it) _ h)

  step-AllReachable :
      (db : Db) (c : Call)
      → AllReachable (delivery_records db)
      → AllReachable (delivery_records (step env db c))
  unfolding step process_offline_message_retries process_expired_envelope_cleanup
  step-AllReachable db (submits user device dto d) h =
      submit-All (λ r. Reachable r.delivery_status) (λ i e v now. created) env user device dto d db
        h
  step-AllReachable db (acknowledges user device envelope ack now) h =
      elim (acknowledge-final env user device envelope ack now db _ refl) [
        | inl same ↦ rw same h
        | inr w ↦ rw w.4 (
            All-update _ (λ x. x.id == w.0.id) (delivered_now now) (λ x _ k. next k delivers)
              (delivery_records db) h)
      ]
  step-AllReachable db (reads user conversation envelope state now) h =
      rw (read-rows env user conversation envelope state now db) h
  step-AllReachable db (retries now) h = retry-AllReachable now (due_records now db) db h
  step-AllReachable db (cleans now) h =
      All-update _ _ (expired_at now) (λ x is k. next k (expires (ground arith)))
        (delivery_records db) h

  run-AllReachable :
      (db : Db) (cs : List Call)
      → AllReachable (delivery_records db)
      → AllReachable (delivery_records (run env db cs))
  unfolding run
  run-AllReachable db [] h = h
  run-AllReachable db (c ∷ cs) h = run-AllReachable (step env db c) cs (step-AllReachable db c h)

-- Started without delivery records, no history of calls leads a record to the status routed, read,
-- revoked_recipient or permanently_failed, however often it is retried and whatever is read.
pub run-status_unused :
    (env : Environment) (db : Db)
    → delivery_records db ≡ []
    → (cs : List Call)
    → All
        (λ r.
          (r.delivery_status ≢ routed)
          × (r.delivery_status ≢ read)
          × (r.delivery_status ≢ revoked_recipient)
          × (r.delivery_status ≢ permanently_failed))
        (delivery_records (run env db cs))
run-status_unused env db empty cs =
    All-imp _ (λ r h. Reachable-used h) _ (run-AllReachable env db cs (rw empty tt))
