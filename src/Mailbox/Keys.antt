-- ===== src/Mailbox/Keys.antt =====
-- The keys of the table of delivery records, over any history of calls.
use guff_suff.Prelude.{
  ℕ, suc, ◌≡◌, refl, ◌⊎◌, inl, inr, Bool, List, [], ◌∷◌, ◌&&◌, arith, ◌==◌, update, Distinct,
  Distinct-update,
}
use guff_suff.Action.{Outcome, returned, threw, final, rolled_back}
use guff_suff.Environment.{Environment}
use guff_suff.Schema.{Db}
use guff_suff.Schema.Identity.{Device}
use guff_suff.Schema.Transport.{RecipientDevice, MessageEnvelope}
use guff_suff.Schema.TransportConstraints.{recipient_violates}
use guff_suff.Envelope.{
  SubmitMessageEnvelope, SubmitDraws, submit_envelope, check_device, insert_rows, insert_recipients,
  new_recipient, new_envelope, new_key, active_devices, recipient_rows, mark_delivered,
  delivered_now, acknowledge_delivery, acknowledge_read,
}
use guff_suff.Worker.{
  retry, due_records, retried, expired_at, process_offline_message_retries,
  process_expired_envelope_cleanup,
}
use guff_suff.Mailbox.{Call, submits, acknowledges, reads, retries, cleans, step, run}

abbrev pub same_id : RecipientDevice → RecipientDevice → Bool
same_id r s = r.id == s.id

abbrev pub same_pair : RecipientDevice → RecipientDevice → Bool
same_pair r s = (r.envelope_id == s.envelope_id) && (r.recipient_device_id == s.recipient_device_id)

-- The PRIMARY KEY and the UNIQUE constraint of message_recipient_devices.
pub record IsKeyed (rows : List RecipientDevice) : Type 0 where
  pub ids : Distinct same_id rows
  pub pairs : Distinct same_pair rows

abbrev pub delivery_records : Db → List RecipientDevice
delivery_records db = db.transport.message_recipient_devices

abbrev pub Keyed : Db → Type 0
Keyed db = IsKeyed (delivery_records db)

-- What a transaction leaves.
pub rolled_back_cases {ℓ} :
    (P : Db → Type ℓ) (db : Db) (o : Outcome Db (Unit {0}))
    → P db
    → ((t : Db) → o ≡ returned t tt → P t)
    → P (final (rolled_back db o))
rolled_back_cases P db (returned t tt) failed done = done t refl
rolled_back_cases P db (threw t e) failed done = failed

-- An update that leaves the columns of both keys alone.
update-IsKeyed :
    (p : RecipientDevice → Bool) (f : RecipientDevice → RecipientDevice)
    → ((r : RecipientDevice) → (f r).id ≡ r.id)
    → ((r : RecipientDevice) → (f r).envelope_id ≡ r.envelope_id)
    → ((r : RecipientDevice) → (f r).recipient_device_id ≡ r.recipient_device_id)
    → (rows : List RecipientDevice) → IsKeyed rows
    → IsKeyed (update p f rows)
update-IsKeyed p f id_ envelope device rows h = record {
  ids = Distinct-update same_id p f (λ x y. rw (id_ x)) (λ x y. rw (id_ y)) rows h.ids;
  pairs =
      Distinct-update same_pair p f (λ x y. rw (envelope x, device x))
        (λ x y. rw (envelope y, device y)) rows h.pairs;
}

module _ (env : Environment) where
  insert_recipients-IsKeyed :
      (d : SubmitDraws) (k : ℕ) (devices : List Device) (db : Db) {db' : Db}
      → Keyed db
      → insert_recipients env d k devices db ≡ returned db' tt
      → Keyed db'
  unfolding insert_recipients recipient_violates
  insert_recipients-IsKeyed d k [] db h done = ground arith
  insert_recipients-IsKeyed d k (dev ∷ devices) db {db'} h done = ground (
    arith,
    insert_recipients-IsKeyed d (suc k) devices
        (record db {
          transport = record db.transport {
            message_recipient_devices =
                new_recipient (d.recipient_record_id k) d.envelope_id dev.id d.db_now
                ∷ db.transport.message_recipient_devices;
          };
        })
        {db' = db'},
  )

  insert_rows-IsKeyed :
      (user device : ℕ) (dto : SubmitMessageEnvelope) (d : SubmitDraws) (devices : List Device)
      (db : Db) {db' : Db}
      → Keyed db
      → insert_rows env user device dto d devices db ≡ returned db' tt
      → Keyed db'
  unfolding insert_rows
  insert_rows-IsKeyed user device dto d devices db {db'} h done = ground (
    arith,
    insert_recipients-IsKeyed d 0 devices
        (record db {
          transport = record db.transport {
            message_envelopes = new_envelope env user device dto d ∷ db.transport.message_envelopes;
            message_idempotency_keys =
                new_key env device dto d ∷ db.transport.message_idempotency_keys;
          };
        })
        {db' = db'},
  )

  -- A submission leaves the database as it was, or as its transaction does.
  pub submit-final :
      (user device : ℕ) (dto : SubmitMessageEnvelope) (d : SubmitDraws) (db : Db)
      → (final (submit_envelope env user device dto d db) ≡ db)
        ⊎ (final (submit_envelope env user device dto d db)
            ≡ final (
                rolled_back db
                  (insert_rows env user device dto d (active_devices dto.recipient_user_id db) db)))
  unfolding submit_envelope check_device
  submit-final user device dto d db = ground arith

  submit-IsKeyed :
      (user device : ℕ) (dto : SubmitMessageEnvelope) (d : SubmitDraws) (db : Db)
      → Keyed db
      → Keyed (final (submit_envelope env user device dto d db))
  submit-IsKeyed user device dto d db h = elim (submit-final user device dto d db) [
    | inl same ↦ rw same h
    | inr wrote ↦ rw wrote (
        rolled_back_cases Keyed db _ h (λ t done.
          insert_rows-IsKeyed user device dto d (active_devices dto.recipient_user_id db) db h
            done))
  ]

  pub acknowledge-row :
      (user device envelope ack now : ℕ) (db : Db) {r : RecipientDevice} {e : MessageEnvelope}
      {rest : List (RecipientDevice × MessageEnvelope)}
      → recipient_rows envelope device db ≡ (r, e) ∷ rest
      → (final (acknowledge_delivery env user device envelope ack now db) ≡ db)
        ⊎ (delivery_records (final (acknowledge_delivery env user device envelope ack now db))
            ≡ update (λ x. x.id == r.id) (delivered_now now) db.transport.message_recipient_devices)
  unfolding acknowledge_delivery mark_delivered
  acknowledge-row user device envelope ack now db found = ground arith

  -- An acknowledgement marks the first record that its query finds, or leaves the database as it was.
  pub acknowledge-final :
      (user device envelope ack now : ℕ) (db : Db) (rows : List (RecipientDevice × MessageEnvelope))
      → recipient_rows envelope device db ≡ rows
      → (final (acknowledge_delivery env user device envelope ack now db) ≡ db)
        ⊎ ((r : RecipientDevice) × (e : MessageEnvelope) × (rest : List
              (RecipientDevice × MessageEnvelope))
            × (rows ≡ (r, e) ∷ rest)
            × (delivery_records (final (acknowledge_delivery env user device envelope ack now db))
                ≡ update
                    (λ x. x.id == r.id)
                    (delivered_now now)
                    db.transport.message_recipient_devices))
  unfolding acknowledge_delivery mark_delivered
  acknowledge-final user device envelope ack now db [] found = inl (ground arith)
  acknowledge-final user device envelope ack now db ((r, e) ∷ rest) found =
      elim (acknowledge-row user device envelope ack now db found) [
        | inl same ↦ inl same
        | inr wrote ↦ inr (r, e, rest, refl, wrote)
      ]

  retry-IsKeyed :
      (now : ℕ) (rs : List RecipientDevice) (db : Db) → Keyed db → Keyed (retry now rs db)
  unfolding retry
  retry-IsKeyed now [] db h = h
  retry-IsKeyed now (r ∷ rs) db h =
      retry-IsKeyed now rs _
        (update-IsKeyed (λ x. x.id == r.id) (retried now) (λ x. refl) (λ x. refl) (λ x. refl) _ h)

  pub read-rows :
      (user conversation envelope state now : ℕ) (db : Db)
      → delivery_records (final (acknowledge_read env user conversation envelope state now db))
        ≡ db.transport.message_recipient_devices
  unfolding acknowledge_read
  read-rows user conversation envelope state now db = ground arith

  pub step-IsKeyed : (db : Db) (c : Call) → Keyed db → Keyed (step env db c)
  unfolding step process_offline_message_retries process_expired_envelope_cleanup
  step-IsKeyed db (submits user device dto d) h = submit-IsKeyed user device dto d db h
  step-IsKeyed db (acknowledges user device envelope ack now) h =
      elim (acknowledge-final user device envelope ack now db _ refl) [
        | inl same ↦ rw same h
        | inr w ↦ rw w.4 (
            update-IsKeyed (λ x. x.id == w.0.id) (delivered_now now) (λ x. refl) (λ x. refl)
              (λ x. refl) _ h)
      ]
  step-IsKeyed db (reads user conversation envelope state now) h =
      rw (read-rows user conversation envelope state now db) h
  step-IsKeyed db (retries now) h = retry-IsKeyed now (due_records now db) db h
  step-IsKeyed db (cleans now) h =
      update-IsKeyed _ (expired_at now) (λ x. refl) (λ x. refl) (λ x. refl) _ h

  -- Over any history of calls, no two delivery records have the same identifier, nor the same
  -- envelope and device.
  pub run-IsKeyed : (db : Db) (cs : List Call) → Keyed db → Keyed (run env db cs)
  unfolding run
  run-IsKeyed db [] h = h
  run-IsKeyed db (c ∷ cs) h = run-IsKeyed (step env db c) cs (step-IsKeyed db c h)
