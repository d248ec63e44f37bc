-- ===== src/Mailbox/Retries.antt =====
-- How many wake-up pings the worker of services/worker/src/transport-processor.ts sends in all.
use guff_suff.Prelude.{
  ℕ, zero, suc, ◌+◌, ◌*◌, ◌≡◌, refl, ◌∙◌, inl, inr, ◌≤◌, Bool, true, List, [], ◌∷◌, arith, ◌==◌,
  ==_refl, any, any-update, join-In, map, take, length, update, All, All-imp, In, In-any,
}
use guff_suff.Action.{final}
use guff_suff.Environment.{Environment}
use guff_suff.Schema.{Db}
use guff_suff.Schema.Identity.{Device}
use guff_suff.Schema.Transport.{RecipientDevice, MessageEnvelope}
use guff_suff.Envelope.{
  SubmitMessageEnvelope, SubmitDraws, submit_envelope, active_devices, delivered_now, new_recipient,
}
use guff_suff.Envelope.Submit.{records, insert_rows_returned}
use guff_suff.Worker.{
  is_due, retried, retry, due_records, process_offline_message_retries,
  process_expired_envelope_cleanup, expired_at,
}
use guff_suff.Mailbox.{Call, submits, acknowledges, reads, retries, cleans, step, run}
use guff_suff.Mailbox.Keys.{
  delivery_records, submit-final, rolled_back_cases, acknowledge-final, read-rows,
}
use guff_suff.Mailbox.Attempts.{IsBounded, run-IsBounded}

-- The pings of a call: one for each record of its query.
unfoldable pub pings : Db → Call → ℕ
pings db (retries now) = length (due_records now db)
pings db _ = 0

unfoldable pub all_pings : Environment → Db → List Call → ℕ
all_pings env db [] = 0
all_pings env db (c ∷ cs) = pings db c + all_pings env (step env db c) cs

-- The attempts of all records.
unfoldable pub spent : List RecipientDevice → ℕ
spent [] = 0
spent (r ∷ rs) = r.delivery_attempts_count + spent rs

spent-le :
    (rows : List RecipientDevice)
    → All (λ x. x.delivery_attempts_count ≤ 5) rows
    → spent rows ≤ 5 * length rows
unfolding spent
spent-le [] h = omega arith
spent-le (r ∷ rs) h = omega (arith, spent-le rs h.1, h.0)

spent-update :
    (p : RecipientDevice → Bool) (f : RecipientDevice → RecipientDevice)
    → ((r : RecipientDevice) → (f r).delivery_attempts_count ≡ r.delivery_attempts_count)
    → (rows : List RecipientDevice) → spent (update p f rows) ≡ spent rows
unfolding spent update
spent-update p f kept [] = refl
spent-update p f kept (r ∷ rs) = ground (arith, kept r, spent-update p f kept rs)

spent-retried :
    (now i : ℕ) (rows : List RecipientDevice)
    → spent rows ≤ spent (update (λ x. x.id == i) (retried now) rows)
unfolding spent update
spent-retried now i [] = omega arith
spent-retried now i (r ∷ rs) = ground (arith, spent-retried now i rs)

spent-hit :
    (now i : ℕ) (rows : List RecipientDevice)
    → any (λ x. x.id == i) rows ≡ true
    → suc (spent rows) ≤ spent (update (λ x. x.id == i) (retried now) rows)
unfolding spent update any
spent-hit now i [] h = ground arith
spent-hit now i (r ∷ rs) h = ground (arith, spent-hit now i rs, spent-retried now i rs)

abbrev IsPresent : List RecipientDevice → RecipientDevice → Type 0
IsPresent rows r = any (λ x. x.id == r.id) rows ≡ true

spent-retry :
    (now : ℕ) (rs : List RecipientDevice) (db : Db)
    → All (IsPresent (delivery_records db)) rs
    → spent (delivery_records db) + length rs ≤ spent (delivery_records (retry now rs db))
unfolding retry
spent-retry now [] db h = omega arith
spent-retry now (r ∷ rs) db h =
    let rows = delivery_records db in
    let marked : List RecipientDevice = update (λ x. x.id == r.id) (retried now) rows in
    let next : Db = record db {
      transport = record db.transport { message_recipient_devices = marked };
    } in
    let kept : All (IsPresent marked) rs =
      All-imp _
        (λ s i.
          any-update (λ x. x.id == s.id) (λ x. x.id == r.id) (retried now) (λ x. refl) rows ∙ i)
        rs h.1 in
    omega (arith, spent-hit now r.id rows h.0, spent-retry now rs next kept)

first-IsPresent :
    (rows : List RecipientDevice) (n : ℕ) (ps : List (RecipientDevice × MessageEnvelope))
    → All (λ p. In p.0 rows) ps
    → All (IsPresent rows) (map (λ p. p.0) (take n ps))
first-IsPresent rows zero ps h = tt
first-IsPresent rows (suc n) [] h = tt
first-IsPresent rows (suc n) (p ∷ ps) h =
    (In-any (λ x. x.id == p.0.id) rows h.0 (==_refl p.0.id), first-IsPresent rows n ps h.1)

due-IsPresent : (now : ℕ) (db : Db) → All (IsPresent (delivery_records db)) (due_records now db)
unfolding due_records
due-IsPresent now db =
    first-IsPresent (delivery_records db) 50 _
      (join-In (is_due now) (delivery_records db) db.transport.message_envelopes)

spent-records :
    (d : SubmitDraws) (k : ℕ) (devices : List Device) (rows : List RecipientDevice)
    → spent (records d k devices rows) ≡ spent rows
unfolding records spent
spent-records d k [] rows = refl
spent-records d k (dev ∷ devices) rows = omega (
  arith,
  spent-records d (suc k) devices
      (new_recipient (d.recipient_record_id k) d.envelope_id dev.id d.db_now ∷ rows),
)

module _ (env : Environment) where
  spent-submit :
      (user device : ℕ) (dto : SubmitMessageEnvelope) (d : SubmitDraws) (db : Db)
      → spent (delivery_records (final (submit_envelope env user device dto d db)))
        ≡ spent (delivery_records db)
  spent-submit user device dto d db = elim (submit-final env user device dto d db) [
    | inl same ↦ rw same refl
    | inr wrote ↦ rw wrote (
        rolled_back_cases (λ s. spent (delivery_records s) ≡ spent (delivery_records db)) db _ refl
          (λ t done.
            rw
              (insert_rows_returned env user device dto d (active_devices dto.recipient_user_id db)
                db done refl)
              (spent-records d 0 (active_devices dto.recipient_user_id db) (delivery_records db))))
  ]

  -- Each ping is an attempt that is written.
  spent-step :
      (db : Db) (c : Call)
      → spent (delivery_records db) + pings db c ≤ spent (delivery_records (step env db c))
  unfolding step pings process_offline_message_retries process_expired_envelope_cleanup
  spent-step db (submits user device dto d) = omega (arith, spent-submit user device dto d db)
  spent-step db (acknowledges user device envelope ack now) =
      elim (acknowledge-final env user device envelope ack now db _ refl) [
        | inl same ↦ rw same (omega arith)
        | inr w ↦ rw w.4 (
            omega (
              arith,
              spent-update (λ x. x.id == w.0.id) (delivered_now now) (λ x. refl)
                  (delivery_records db),
            ))
      ]
  spent-step db (reads user conversation envelope state now) =
      rw (read-rows env user conversation envelope state now db) (omega arith)
  spent-step db (retries now) = spent-retry now (due_records now db) db (due-IsPresent now db)
  spent-step db (cleans now) =
      omega (arith, spent-update _ (expired_at now) (λ x. refl) (delivery_records db))

  spent-run :
      (db : Db) (cs : List Call)
      → spent (delivery_records db) + all_pings env db cs ≤ spent (delivery_records (run env db cs))
  unfolding run all_pings
  spent-run db [] = omega arith
  spent-run db (c ∷ cs) = omega (arith, spent-step db c, spent-run (step env db c) cs)

  -- Retrying comes to rest: over any history of calls on tables with distinct keys, however often the
  -- worker runs, it sends at most five pings for each delivery record that there is in the end.
  pub all_pings-le :
      (db : Db) (cs : List Call)
      → IsBounded db
      → all_pings env db cs ≤ 5 * length (delivery_records (run env db cs))
  all_pings-le db cs h = omega (
    arith,
    spent-run db cs,
    spent-le (delivery_records (run env db cs)) (run-IsBounded env db cs h).attempts,
  )
