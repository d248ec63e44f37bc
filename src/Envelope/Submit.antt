-- ===== src/Envelope/Submit.antt =====
-- What `submitEnvelope` writes.
use guff_suff.Prelude.{ℕ, suc, ◌≡◌, refl, true, false, some, List, [], ◌∷◌, arith, leb, length}
use guff_suff.Errors.{Error}
use guff_suff.Action.{returned, threw}
use guff_suff.Environment.{Environment}
use guff_suff.Schema.{Db}
use guff_suff.Schema.Identity.{Device}
use guff_suff.Schema.Transport.{RecipientDevice, MessageIdempotencyKey}
use guff_suff.Envelope.{
  SubmitMessageEnvelope, SubmitDraws, SubmitResponse, sender_devices, check_device, is_member,
  key_rows, active_devices, payload, new_envelope, new_key, new_recipient, insert_recipients,
  insert_rows, check_payload, submit_envelope, envelope_view,
}

-- The recipient records that the loop adds to those there.
unfoldable pub records : SubmitDraws → ℕ → List Device → List RecipientDevice → List RecipientDevice
records d k [] rows = rows
records d k (dev ∷ devices) rows =
    records d (suc k) devices
      (new_recipient (d.recipient_record_id k) d.envelope_id dev.id d.db_now ∷ rows)

abbrev pub with_recipients : List RecipientDevice → Db → Db
with_recipients rows db = record db {
  transport = record db.transport { message_recipient_devices = rows };
}

module _ (env : Environment) (user device : ℕ) (dto : SubmitMessageEnvelope) (d : SubmitDraws) where
  insert_recipients_returned :
      (k : ℕ) (devices : List Device) (db : Db) {db' : Db}
      → insert_recipients env d k devices db ≡ returned db' tt
      → db' ≡ with_recipients (records d k devices db.transport.message_recipient_devices) db
  unfolding insert_recipients records
  insert_recipients_returned k [] db h = ground arith
  insert_recipients_returned k (dev ∷ devices) db {db'} h = ground (
    arith,
    insert_recipients_returned (suc k) devices
        (with_recipients
          (new_recipient (d.recipient_record_id k) d.envelope_id dev.id d.db_now
            ∷ db.transport.message_recipient_devices)
          db)
        {db' = db'},
  )

  -- The database after a submission that was accepted as a new one.
  abbrev pub submitted : Db → Db
  submitted db = record db {
    transport = record db.transport {
      message_envelopes = new_envelope env user device dto d ∷ db.transport.message_envelopes;
      message_idempotency_keys = new_key env device dto d ∷ db.transport.message_idempotency_keys;
      message_recipient_devices =
          records d 0 (active_devices dto.recipient_user_id db)
            db.transport.message_recipient_devices;
    };
  }

  -- An error leaves the database as it was.
  pub submit-threw :
      (db : Db) {db' : Db} {e : Error}
      → submit_envelope env user device dto d db ≡ threw db' e
      → db' ≡ db
  unfolding submit_envelope check_device
  submit-threw db {db'} {e} h = ground arith

  pub insert_rows_returned :
      (devices : List Device) (db : Db) {db' : Db}
      → insert_rows env user device dto d devices db ≡ returned db' tt
      → devices ≡ active_devices dto.recipient_user_id db
      → db' ≡ submitted db
  unfolding insert_rows
  insert_rows_returned devices db {db'} h same = ground (
    arith,
    insert_recipients_returned 0 devices
        (record db {
          transport = record db.transport {
            message_envelopes = new_envelope env user device dto d ∷ db.transport.message_envelopes;
            message_idempotency_keys =
                new_key env device dto d ∷ db.transport.message_idempotency_keys;
          };
        })
        {db' = db'},
  )

  -- What a submission that was accepted as a new one has passed, and what it returns.
  pub record Accepted (db db' : Db) (r : SubmitResponse) : Type 0 where
    pub sender : check_device (sender_devices user device db) db ≡ returned db tt
    pub member : is_member dto.conversation_id user db ≡ true
    pub fits : leb (length (payload env dto)) 65536 ≡ true
    pub unused : key_rows device dto.idempotency_key db ≡ []
    pub written : db' ≡ submitted db
    pub view : r.envelope ≡ some (envelope_view (new_envelope env user device dto d))
    pub count : r.recipient_device_count ≡ some (length (active_devices dto.recipient_user_id db))

  check_payload-Accepted :
      (keys : List MessageIdempotencyKey) (db : Db) {db' : Db} {r : SubmitResponse}
      → key_rows device dto.idempotency_key db ≡ keys
      → check_device (sender_devices user device db) db ≡ returned db tt
      → check_payload env user device dto d db ≡ returned db' r
      → r.idempotent_retry ≡ false
      → Accepted db db' r
  unfolding check_payload
  check_payload-Accepted [] db {db'} {r} keys sender h new = record {
    sender = sender;
    member = ground arith;
    fits = ground arith;
    unused = keys;
    written =
        ground
          (arith, insert_rows_returned (active_devices dto.recipient_user_id db) db {db' = db'});
    view = ground arith;
    count = ground arith;
  }
  check_payload-Accepted (k ∷ rest) db keys sender h new = ground arith

  check_senders-Accepted :
      (senders : List Device) (db : Db) {db' : Db} {r : SubmitResponse}
      → sender_devices user device db ≡ senders
      → submit_envelope env user device dto d db ≡ returned db' r
      → r.idempotent_retry ≡ false
      → Accepted db db' r
  unfolding submit_envelope check_device
  check_senders-Accepted [] db found h new = ground arith
  check_senders-Accepted (s ∷ rest) db found h new =
      check_payload-Accepted _ db refl (ground arith) (ground arith) new

  pub submit-Accepted :
      (db : Db) {db' : Db} {r : SubmitResponse}
      → submit_envelope env user device dto d db ≡ returned db' r
      → r.idempotent_retry ≡ false
      → Accepted db db' r
  submit-Accepted db h new = check_senders-Accepted _ db refl h new
