-- ===== src/Mailbox/Refinement.antt =====
-- The table of delivery records implements the mailboxes: each call does what its event says.
use guff_suff.Prelude.{
  ℕ, zero, suc, ◌≡◌, ◌≢◌, refl, inl, inr, Bool-cases, subst, ap, ◌∙◌, true, List, [], ◌∷◌, not,
  ◌&&◌, arith, ◌==◌, ==_iff, if◌then◌else◌, any, map, All, All-imp, All-intro, All-update, All-swap,
  take, All-join, Anything, All-Anything, In, All-In, All-and, select_sound, Distinct-only,
  any-update_and, any-update_same, fun_ext,
}
use guff_suff.Action.{Outcome, returned, threw, final}
use guff_suff.Errors.{Error}
use guff_suff.Environment.{Environment}
use guff_suff.Schema.{Db}
use guff_suff.Schema.Transport.{RecipientDevice, MessageEnvelope}
use guff_suff.Envelope.{recipient_rows, delivered_now, acknowledge_delivery}
use guff_suff.Envelope.Queries.{is_undelivered}
use guff_suff.Envelope.Delivery.{acknowledged_rows}
use guff_suff.Worker.{
  is_due, retry, retried, due_records, is_overdue, expired_at, process_offline_message_retries,
  process_expired_envelope_cleanup,
}
use guff_suff.Mailbox.{
  Call, submits, acknowledges, reads, retries, cleans, step, run, mailbox, is_waiting, lapsed,
  apply, taken_event, has_lapsed, event, replay,
}
use guff_suff.Mailbox.Keys.{
  IsKeyed, Keyed, same_id, same_pair, delivery_records, step-IsKeyed, read-rows,
}
use guff_suff.Mailbox.Submit.{submit-mailbox}

-- Each row is the one of the identifier of `r`, or not the one of its envelope and device.
only_row :
    (rows : List RecipientDevice) (r : RecipientDevice)
    → IsKeyed rows
    → In r rows
    → All (λ x. ((x.id == r.id) ≡ true → x ≡ r) × (same_pair x r ≡ true → x ≡ r)) rows
only_row rows r h i =
    All-and (λ x. (x.id == r.id) ≡ true → x ≡ r) (λ x. same_pair x r ≡ true → x ≡ r) rows
      (Distinct-only same_id (λ x y. ground arith) rows r h.ids i)
      (Distinct-only same_pair (λ x y. ground arith) rows r h.pairs i)

module _ (envelope device now : ℕ) (r : RecipientDevice) (of_envelope : r.envelope_id ≡ envelope)
    (of_device : r.recipient_device_id ≡ device) where
  -- Marking the record of an envelope and a device as delivered takes that pair, and no other.
  delivered-waiting :
      (x y : ℕ) (z : RecipientDevice)
      → ((z.id == r.id) ≡ true → z ≡ r) × (same_pair z r ≡ true → z ≡ r)
      → is_waiting x y (if z.id == r.id then delivered_now now z else z)
        ≡ (is_waiting x y z && not ((x == envelope) && (y == device)))
  delivered-waiting x y z only = ground arith

-- The rows that `acknowledgeDelivery` finds.
recipient_rows-All :
    (envelope device : ℕ) (db : Db)
    → All
        (λ p.
          In p.0 (delivery_records db)
          × (p.0.envelope_id ≡ envelope)
          × (p.0.recipient_device_id ≡ device))
        (recipient_rows envelope device db)
unfolding recipient_rows
recipient_rows-All envelope device db =
    All-join _
      (λ r.
        In r (delivery_records db)
        × (((r.envelope_id == envelope) && (r.recipient_device_id == device)) ≡ true))
      Anything _ (λ r e on q _. (q.0, ground arith, ground arith)) _ _
      (select_sound _ (delivery_records db)) (All-Anything db.transport.message_envelopes)

All-take {ℓ κ} : {A : Type ℓ} (P : A → Type κ) (n : ℕ) (xs : List A) → All P xs → All P (take n xs)
All-take P zero xs a = tt
All-take P (suc n) [] a = tt
All-take P (suc n) (x ∷ xs) a = (a.0, All-take P n xs a.1)

All-map {ℓ κ μ} :
    {A : Type ℓ} {B : Type κ} (P : B → Type μ) (f : A → B) (xs : List A)
    → All (λ x. P (f x)) xs
    → All P (map f xs)
All-map P f [] a = tt
All-map P f (x ∷ xs) a = (a.0, All-map P f xs a.1)

due-Undelivered :
    (now : ℕ) (db : Db)
    → All
        (λ r. In r (delivery_records db) × (is_undelivered r.delivery_status ≡ true))
        (due_records now db)
unfolding due_records
due-Undelivered now db =
    All-map _ (λ p. p.0) _
      (All-take _ 50 _ (
        All-join _ (λ r. In r (delivery_records db)) Anything (is_due now)
          (λ r e on q _. (q, ground arith)) _ _
          (All-In (delivery_records db) (delivery_records db) (λ x i. i))
          (All-Anything db.transport.message_envelopes)))

retried-waiting :
    (now x y : ℕ) (z r : RecipientDevice)
    → ((z.id == r.id) ≡ true → is_undelivered z.delivery_status ≡ true)
    → is_waiting x y (if z.id == r.id then retried now z else z) ≡ is_waiting x y z
retried-waiting now x y z r live = ground arith

expired-waiting :
    (db : Db) (now x y : ℕ) (z : RecipientDevice)
    → is_waiting x y (
        if is_overdue now db.transport.message_envelopes z && is_undelivered z.delivery_status
        then expired_at now z
        else z)
      ≡ (is_waiting x y z && not (has_lapsed now db x))
expired-waiting db now x y z = elim (Bool-cases (z.envelope_id == x)) [
  | inl same ↦
      let e : z.envelope_id ≡ x = (==_iff z.envelope_id x).0 same in rw (← e) (ground arith)
  | inr other ↦ ground arith
]

module _ (env : Environment) (user device envelope ack now : ℕ) (db : Db) where
  acknowledge-threw :
      {db' : Db} {e : Error}
      → acknowledge_delivery env user device envelope ack now db ≡ threw db' e
      → db' ≡ db
  unfolding acknowledge_delivery
  acknowledge-threw h = ground arith

  acknowledge-none :
      {db' : Db}
      → recipient_rows envelope device db ≡ []
      → acknowledge_delivery env user device envelope ack now db ≢ returned db' tt
  unfolding acknowledge_delivery
  acknowledge-none found h = ground arith

module _ (env : Environment) (db : Db) (keyed : Keyed db) where
  acknowledge-mailbox :
      (user device envelope ack now : ℕ) (o : Outcome Db (Unit {0}))
      (rows : List (RecipientDevice × MessageEnvelope))
      → acknowledge_delivery env user device envelope ack now db ≡ o
      → recipient_rows envelope device db ≡ rows
      → mailbox (final o) ≡ apply (taken_event envelope device o) (mailbox db)
  unfolding mailbox apply
  acknowledge-mailbox user device envelope ack now (threw s e) rows done found =
      rw (acknowledge-threw env user device envelope ack now db done)
  acknowledge-mailbox user device envelope ack now (returned s tt) [] done found =
      absurd (acknowledge-none env user device envelope ack now db found done)
  acknowledge-mailbox user device envelope ack now (returned s tt) ((r, e) ∷ rest) done found =
      rw (acknowledged_rows env user device envelope ack now db found done).1 (
        fun_ext λ x. fun_ext λ y.
          any-update_and (is_waiting x y) (λ z. z.id == r.id) (delivered_now now)
            (not ((x == envelope) && (y == device))) (delivery_records db)
            (All-imp _ (delivered-waiting envelope device now r row.1 row.2 x y) _
              (only_row (delivery_records db) r keyed row.0)))
    where
      row :
          In r (delivery_records db) × (r.envelope_id ≡ envelope) × (r.recipient_device_id ≡ device)
      row =
          (subst
            (All (λ p.
              In p.0 (delivery_records db)
              × (p.0.envelope_id ≡ envelope)
              × (p.0.recipient_device_id ≡ device)))
            found (recipient_rows-All envelope device db)).0

  -- Every record that a due one names is undelivered.
  abbrev Live : List RecipientDevice → RecipientDevice → Type 0
  Live rs x = All (λ r. (x.id == r.id) ≡ true → is_undelivered x.delivery_status ≡ true) rs

  -- The loop over due records, all of them undelivered, takes no pair.
  retry-mailbox :
      (now : ℕ) (rs : List RecipientDevice) (s : Db)
      → All (Live rs) (delivery_records s)
      → mailbox (retry now rs s) ≡ mailbox s
  unfolding mailbox retry
  retry-mailbox now [] s h = refl
  retry-mailbox now (r ∷ rs) s h =
      retry-mailbox now rs _ (
        All-update (Live rs) (λ x. x.id == r.id) (retried now)
          (λ x _ _. All-intro _ (λ y _. refl) rs) (delivery_records s)
          (All-imp _ (λ x a. a.1) (delivery_records s) h))
      ∙ (fun_ext λ x. fun_ext λ y.
          any-update_same (is_waiting x y) (λ z. z.id == r.id) (retried now) (delivery_records s)
            (All-imp _ (λ z a. retried-waiting now x y z r a.0) (delivery_records s) h))

  clean-mailbox :
      (now : ℕ)
      → mailbox (process_expired_envelope_cleanup now db)
        ≡ apply (lapsed (has_lapsed now db)) (mailbox db)
  unfolding mailbox apply process_expired_envelope_cleanup
  clean-mailbox now = fun_ext λ x. fun_ext λ y.
      any-update_and (is_waiting x y)
        (λ z. is_overdue now db.transport.message_envelopes z && is_undelivered z.delivery_status)
        (expired_at now) (not (has_lapsed now db x)) (delivery_records db)
        (All-intro _ (λ z. expired-waiting db now x y z) (delivery_records db))

  -- What is due is undelivered, and its identifier names no other record.
  due-Live : (now : ℕ) → All (Live (due_records now db)) (delivery_records db)
  due-Live now =
      All-swap (λ x r. (x.id == r.id) ≡ true → is_undelivered x.delivery_status ≡ true)
        (delivery_records db) (due_records now db)
        (All-imp _
          (λ r due.
            All-imp _ (λ x only same. rw (only.0 same) due.1) _
              (only_row (delivery_records db) r keyed due.0))
          _ (due-Undelivered now db))

  pub step-mailbox : (c : Call) → mailbox (step env db c) ≡ apply (event env db c) (mailbox db)
  unfolding step event process_offline_message_retries
  step-mailbox (submits user device dto d) = submit-mailbox env user device dto d db _ refl
  step-mailbox (acknowledges user device envelope ack now) =
      acknowledge-mailbox user device envelope ack now _ _ refl refl
  step-mailbox (reads user conversation envelope state now) =
      unfold mailbox apply in
      fun_ext λ x.
        fun_ext
          λ y. ap (any (is_waiting x y)) (read-rows env user conversation envelope state now db)
  step-mailbox (retries now) =
      unfold apply in retry-mailbox now (due_records now db) db (due-Live now)
  step-mailbox (cleans now) = clean-mailbox now

-- Refinement: after any history of submissions, acknowledgements, read markers, retries and cleanups
-- on a table with distinct keys, the mailboxes that the table stands for are those that the events
-- of the calls give, one after the other: a new envelope is put into the mailboxes of the active
-- devices of the recipient, an acknowledgement that succeeds takes it out of the one mailbox of its
-- device, a cleanup takes out what has expired, and nothing else changes.
pub run-replay :
    (env : Environment) (db : Db)
    → Keyed db
    → (cs : List Call) → mailbox (run env db cs) ≡ replay env db cs (mailbox db)
unfolding run replay
run-replay env db keyed [] = refl
run-replay env db keyed (c ∷ cs) =
    run-replay env (step env db c) (step-IsKeyed env db c keyed) cs
    ∙ ap (replay env (step env db c) cs) (step-mailbox env db keyed c)
