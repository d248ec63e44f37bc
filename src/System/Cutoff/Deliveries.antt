-- ===== src/System/Cutoff/Deliveries.antt =====
-- What a call of the envelope service or of the worker does for a device that is revoked.
use guff_suff.Prelude.{
  ℕ, suc, ◌≡◌, refl, ◌∙◌, ap, Bool, true, false, List, [], ◌∷◌, ◌&&◌, not, arith, ◌==◌, inl, inr,
  Bool-cases, map, select, update, All,
}
use guff_suff.Action.{Outcome, returned, threw, final}
use guff_suff.Environment.{Environment}
use guff_suff.Schema.{Db}
use guff_suff.Schema.Identity.{Device}
use guff_suff.Schema.Transport.{RecipientDevice, MessageEnvelope}
use guff_suff.Device.Revocation.{IsRevoked}
use guff_suff.Envelope.{
  SubmitMessageEnvelope, SubmitDraws, SubmitResponse, submit_envelope, check_device, active_devices,
  new_recipient, delivered_now, acknowledge_delivery,
}
use guff_suff.Envelope.Submit.{records, submit-threw, submit-Accepted}
use guff_suff.Worker.{
  retried, retry, due_records, expired_at, process_offline_message_retries,
  process_expired_envelope_cleanup,
}
use guff_suff.Mailbox.{submits, acknowledges, reads, retries, cleans}
use guff_suff.Mailbox
use guff_suff.Mailbox.Keys.{delivery_records, acknowledge-final, read-rows}
use guff_suff.Mailbox.Submit.{submit-retry_same}
use guff_suff.System.Frame.Deliveries.{acknowledge_others, read_others}

module _ (i : ℕ) where
  -- The envelopes that were sent from the device.
  abbrev pub sent_from : Db → List MessageEnvelope
  sent_from db = select (λ e. e.sender_device_id == i) db.transport.message_envelopes

  abbrev addressed : List RecipientDevice → List ℕ
  addressed rows = map (λ r. r.id) (select (λ r. r.recipient_device_id == i) rows)

  -- The identifiers of the delivery records for the device.
  abbrev pub addressed_to : Db → List ℕ
  addressed_to db = addressed (delivery_records db)

  addressed-update :
      (p : RecipientDevice → Bool) (f : RecipientDevice → RecipientDevice)
      → ((r : RecipientDevice) → (f r).id ≡ r.id)
      → ((r : RecipientDevice) → (f r).recipient_device_id ≡ r.recipient_device_id)
      → (rows : List RecipientDevice) → addressed (update p f rows) ≡ addressed rows
  unfolding select update
  addressed-update p f id_ device [] = refl
  addressed-update p f id_ device (r ∷ rs) =
      ground (arith, id_ r, device r, addressed-update p f id_ device rs)

  -- A revoked device is no sender, and no active device.
  sender-other :
      (user device : ℕ) (rows : List Device) (db : Db)
      → All (λ r. (r.id == i) ≡ true → r.is_revoked ≡ true) rows
      → check_device (select (λ d. (d.id == device) && (d.user_id == user)) rows) db
        ≡ returned db tt
      → (device == i) ≡ false
  unfolding select check_device
  sender-other user device [] db h done = ground arith
  sender-other user device (r ∷ rs) db h done =
      ground (arith, h.0, sender-other user device rs db h.1)

  active-others :
      (user : ℕ) (rows : List Device)
      → All (λ r. (r.id == i) ≡ true → r.is_revoked ≡ true) rows
      → All (λ r. (r.id == i) ≡ false) (select (λ d. (d.user_id == user) && not d.is_revoked) rows)
  unfolding select
  active-others user [] h = tt
  active-others user (r ∷ rs) h = elim (Bool-cases ((r.user_id == user) && not r.is_revoked)) [
    | inl active ↦ rw active (ground (arith, active, h.0), active-others user rs h.1)
    | inr gone ↦ rw gone (active-others user rs h.1)
  ]

  addressed-records :
      (d : SubmitDraws) (k : ℕ) (devices : List Device) (rows : List RecipientDevice)
      → All (λ r. (r.id == i) ≡ false) devices
      → addressed (records d k devices rows) ≡ addressed rows
  unfolding records select
  addressed-records d k [] rows h = refl
  addressed-records d k (dev ∷ devices) rows h =
      addressed-records d (suc k) devices
        (new_recipient (d.recipient_record_id k) d.envelope_id dev.id d.db_now ∷ rows) h.1
      ∙ rw h.0 refl

  -- What a call leaves as it is.
  pub record Kept (db t : Db) : Type 0 where
    pub sent : sent_from t ≡ sent_from db
    pub deliveries : addressed_to t ≡ addressed_to db

  Kept-same : (db t : Db) → t ≡ db → Kept db t
  Kept-same db t same = record { sent = ap sent_from same; deliveries = ap addressed_to same }

  module _ (env : Environment) where
    submit-Kept :
        (user device : ℕ) (dto : SubmitMessageEnvelope) (d : SubmitDraws) (db : Db)
        (o : Outcome Db SubmitResponse)
        → IsRevoked i db.identity.devices
        → submit_envelope env user device dto d db ≡ o
        → Kept db (final o)
    unfolding select
    submit-Kept user device dto d db (threw t e) h done =
        Kept-same db t (submit-threw env user device dto d db done)
    submit-Kept user device dto d db (returned t r) h done = elim (Bool-cases r.idempotent_retry) [
      | inl again ↦ Kept-same db t (submit-retry_same env user device dto d db done again)
      | inr new ↦
          let a = submit-Accepted env user device dto d db done new in
          rw a.written (record {
            sent = rw (sender-other user device db.identity.devices db h.marked a.sender) refl;
            deliveries =
                addressed-records d 0 (active_devices dto.recipient_user_id db) _
                  (active-others dto.recipient_user_id db.identity.devices h.marked);
          })
    ]

    -- Only the table of delivery records changes, by an update of columns that are no keys.
    Kept-update :
        (db t : Db) (p : RecipientDevice → Bool) (f : RecipientDevice → RecipientDevice)
        → ((r : RecipientDevice) → (f r).id ≡ r.id)
        → ((r : RecipientDevice) → (f r).recipient_device_id ≡ r.recipient_device_id)
        → t.transport.message_envelopes ≡ db.transport.message_envelopes
        → delivery_records t ≡ update p f (delivery_records db)
        → Kept db t
    Kept-update db t p f id_ device envelopes written = record {
      sent = rw envelopes refl;
      deliveries = rw written (addressed-update p f id_ device (delivery_records db));
    }

    acknowledge-Kept :
        (user device envelope ack now : ℕ) (db : Db)
        → Kept db (final (acknowledge_delivery env user device envelope ack now db))
    acknowledge-Kept user device envelope ack now db =
        let others = acknowledge_others env user device envelope ack now db _ refl in
        elim (acknowledge-final env user device envelope ack now db _ refl) [
          | inl same ↦ Kept-same db _ same
          | inr w ↦
              Kept-update db _ (λ x. x.id == w.0.id) (delivered_now now) (λ x. refl) (λ x. refl)
                others.1 w.4
        ]

    Kept-trans : (db t u : Db) → Kept db t → Kept t u → Kept db u
    Kept-trans db t u a b = record {
      sent = b.sent ∙ a.sent;
      deliveries = b.deliveries ∙ a.deliveries;
    }

    retry-Kept : (now : ℕ) (rs : List RecipientDevice) (db : Db) → Kept db (retry now rs db)
    unfolding retry
    retry-Kept now [] db = Kept-same db db refl
    retry-Kept now (r ∷ rs) db =
        Kept-trans db _ _
          (Kept-update db _ (λ x. x.id == r.id) (retried now) (λ x. refl) (λ x. refl) refl refl)
          (retry-Kept now rs _)

    pub step_mailbox-Kept :
        (db : Db) (c : Mailbox.Call)
        → IsRevoked i db.identity.devices
        → Kept db (Mailbox.step env db c)
    unfolding Mailbox.step process_offline_message_retries process_expired_envelope_cleanup
    step_mailbox-Kept db (submits user device dto d) h = submit-Kept user device dto d db _ h refl
    step_mailbox-Kept db (acknowledges user device envelope ack now) h =
        acknowledge-Kept user device envelope ack now db
    step_mailbox-Kept db (reads user conversation envelope state now) h =
        let others = read_others env user conversation envelope state now db in
        record {
          sent = rw others.1 refl;
          deliveries = rw (read-rows env user conversation envelope state now db) refl;
        }
    step_mailbox-Kept db (retries now) h = retry-Kept now (due_records now db) db
    step_mailbox-Kept db (cleans now) h =
        Kept-update db _ _ (expired_at now) (λ x. refl) (λ x. refl) refl refl
