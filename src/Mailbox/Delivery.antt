-- ===== src/Mailbox/Delivery.antt =====
-- At-least-once delivery: an envelope stays pending for a device until the device acknowledges it or
-- it expires.
use guff_suff.Prelude.{
  ℕ, ◌≡◌, ◌≢◌, refl, subst, ap, ◌⊎◌, inl, inr, ◌≤◌, ◌<◌, Bool, true, false, List, [], ◌∷◌, arith,
  ltb, ◌==◌, ==_refl, ==_iff, any, any-append, any-imp, select, join, map, All, All-imp,
  All-any-false, In, In-any, Bool-cases,
}
use guff_suff.Action.{Outcome, returned, threw, final, rolled_back}
use guff_suff.Environment.{Environment}
use guff_suff.Schema.{Db}
use guff_suff.Schema.Transport.{RecipientDevice, MessageEnvelope}
use guff_suff.Schema.TransportConstraints.{envelope_violates, envelope_exists}
use guff_suff.Envelope.{
  SubmitMessageEnvelope, SubmitDraws, SubmitResponse, submit_envelope, check_device, insert_rows,
  new_envelope, active_devices, acknowledge_delivery, acknowledge_read, mark_delivered,
}
use guff_suff.Envelope.Queries.{is_pending, pending_rows}
use guff_suff.Envelope.Submit.{submitted, insert_rows_returned, submit-Accepted}
use guff_suff.Envelope.Delivery.{pending-first}
use guff_suff.Worker.{
  retry, due_records, process_offline_message_retries, process_expired_envelope_cleanup,
}
use guff_suff.Mailbox.{
  Call, submits, acknowledges, reads, retries, cleans, step, run, Mailbox, mailbox, is_waiting,
  apply, posted_event, taken_event, has_lapsed, event,
}
use guff_suff.Mailbox.Keys.{Keyed, step-IsKeyed, submit-final}
use guff_suff.Mailbox.Submit.{submit-mailbox}
use guff_suff.Mailbox.Refinement.{step-mailbox}

-- The calls that leave the envelope `e` to the device `v`: it acknowledges other envelopes only, and
-- no cleanup is made after the envelope has expired.
abbrev pub Spares : ℕ → ℕ → ℕ → Call → Type 0
Spares e v expiry (acknowledges user device envelope ack now) = (envelope ≢ e) ⊎ (device ≢ v)
Spares e v expiry (cleans now) = now < expiry
Spares e v expiry _ = Unit

any-eq_false :
    {A : Type 0} (p : A → Bool) (xs : List A) → All (λ x. p x ≡ false) xs → any p xs ≡ false
unfolding any
any-eq_false p [] a = refl
any-eq_false p (x ∷ xs) a = ground (arith, any-eq_false p xs a.1)

-- An envelope of the table that waits for a device is pending for it until it expires.
pub waiting-pending :
    (user v now : ℕ) (m : MessageEnvelope) (es : List MessageEnvelope) (rows : List RecipientDevice)
    → In m es
    → m.recipient_user_id ≡ user
    → ltb now m.expires_at ≡ true
    → any (is_waiting m.id v) rows ≡ true
    → any (λ p. p.0.id == m.id) (join (is_pending user v now) es rows) ≡ true
unfolding join
waiting-pending user v now m [] rows i to early waits = absurd i
waiting-pending user v now m (x ∷ es) rows (inl e) to early waits =
    subst (λ z. any (λ p. p.0.id == m.id) (join (is_pending user v now) (z ∷ es) rows) ≡ true) e
      (pending-first user v now m es rows
        (any-imp (is_waiting m.id v) (is_pending user v now m) (λ r h. ground arith) rows waits))
waiting-pending user v now m (x ∷ es) rows (inr i) to early waits =
    rw
      (any-append (λ p. p.0.id == m.id) (map (λ y. (x, y)) (select (is_pending user v now x) rows))
        (join (is_pending user v now) es rows))
      (rw (waiting-pending user v now m es rows i to early waits) (ground arith))

-- What holds of the table while the envelope `m` waits for the device `v`.
pub record Held (m : MessageEnvelope) (v : ℕ) (db : Db) : Type 0 where
  pub keyed : Keyed db
  pub waiting : mailbox db m.id v ≡ true
  pub stored : In m db.transport.message_envelopes
  pub unexpired :
      All (λ x. (m.id == x.id) ≡ true → m.expires_at ≤ x.expires_at) db.transport.message_envelopes

-- A call adds at most one envelope, under an identifier that is new.
pub data Grown (db : Db) (es : List MessageEnvelope) : Type 0 where
  same : es ≡ db.transport.message_envelopes → Grown db es
  one :
      (n : MessageEnvelope)
      → es ≡ n ∷ db.transport.message_envelopes
      → envelope_exists db.transport n.id ≡ false
      → Grown db es

module _ (env : Environment) (db : Db) where
  retry-envelopes :
      (now : ℕ) (rs : List RecipientDevice) (s : Db)
      → (retry now rs s).transport.message_envelopes ≡ s.transport.message_envelopes
  unfolding retry
  retry-envelopes now [] s = refl
  retry-envelopes now (r ∷ rs) s = retry-envelopes now rs _

  insert_rows-Grown :
      (user device : ℕ) (dto : SubmitMessageEnvelope) (d : SubmitDraws) (o : Outcome Db (Unit {0}))
      → insert_rows env user device dto d (active_devices dto.recipient_user_id db) db ≡ o
      → Grown db (final (rolled_back db o)).transport.message_envelopes
  unfolding insert_rows envelope_violates
  insert_rows-Grown user device dto d (threw t e) h = same refl
  insert_rows-Grown user device dto d (returned t tt) h =
      one (new_envelope env user device dto d)
        (ap (λ (s : Db). s.transport.message_envelopes)
          (insert_rows_returned env user device dto d (active_devices dto.recipient_user_id db) db h
            refl))
        (ground arith)

  pub step-Grown : (c : Call) → Grown db (step env db c).transport.message_envelopes
  unfolding step process_offline_message_retries process_expired_envelope_cleanup
      acknowledge_delivery acknowledge_read mark_delivered
  step-Grown (submits user device dto d) = elim (submit-final env user device dto d db) [
    | inl e ↦ same (ap (λ (s : Db). s.transport.message_envelopes) e)
    | inr e ↦ rw e (insert_rows-Grown user device dto d _ refl)
  ]
  step-Grown (acknowledges user device envelope ack now) = same (ground arith)
  step-Grown (reads user conversation envelope state now) = same (ground arith)
  step-Grown (retries now) = same (retry-envelopes now (due_records now db) db)
  step-Grown (cleans now) = same refl

-- A row that is added keeps the envelope where it is.
Grown-Held :
    (m : MessageEnvelope) (db : Db) (es : List MessageEnvelope)
    → Grown db es
    → In m db.transport.message_envelopes
    → All (λ x. (m.id == x.id) ≡ true → m.expires_at ≤ x.expires_at) db.transport.message_envelopes
    → In m es × All (λ x. (m.id == x.id) ≡ true → m.expires_at ≤ x.expires_at) es
Grown-Held m db es (same e) stored unexpired = rw e (stored, unexpired)
Grown-Held m db es (one n e fresh) stored unexpired =
    rw e (inr stored, (λ is. absurd (clash is), unexpired))
  where
    known : any (λ x. x.id == m.id) db.transport.message_envelopes ≡ true
    known = In-any (λ x. x.id == m.id) db.transport.message_envelopes stored (==_refl m.id)

    clash : (m.id == n.id) ≡ true → ⊥
    clash is = ground (
      arith,
      known,
      fresh,
      subst (λ (i : ℕ). any (λ x. x.id == i) db.transport.message_envelopes ≡ true)
          ((==_iff m.id n.id).0 is) known,
    )

posted-keeps :
    (dto : SubmitMessageEnvelope) (d : SubmitDraws) (db : Db) (o : Outcome Db SubmitResponse)
    (m : Mailbox) (e v : ℕ)
    → m e v ≡ true
    → apply (posted_event dto d db o) m e v ≡ true
unfolding apply
posted-keeps dto d db (threw s x) m e v h = h
posted-keeps dto d db (returned s r) m e v h = elim (Bool-cases r.idempotent_retry) [
  | inl again ↦ rw again h
  | inr new ↦ rw (new, h)
]

taken-keeps :
    (envelope device : ℕ) (o : Outcome Db (Unit {0})) (m : Mailbox) (e v : ℕ)
    → (envelope ≢ e) ⊎ (device ≢ v)
    → m e v ≡ true
    → apply (taken_event envelope device o) m e v ≡ true
unfolding apply
taken-keeps envelope device (threw s x) m e v other h = h
taken-keeps envelope device (returned s r) m e v other h = ground arith

-- A cleanup before the envelope expires does not take it.
unlapsed :
    (now : ℕ) (m : MessageEnvelope) (db : Db)
    → now < m.expires_at
    → All (λ x. (m.id == x.id) ≡ true → m.expires_at ≤ x.expires_at) db.transport.message_envelopes
    → has_lapsed now db m.id ≡ false
unlapsed now m db early unexpired =
    any-eq_false _ db.transport.message_envelopes
      (All-imp _ (λ x later. ground arith) db.transport.message_envelopes unexpired)

module _ (env : Environment) (m : MessageEnvelope) (v : ℕ) where
  event-keeps :
      (db : Db) (c : Call)
      → Spares m.id v m.expires_at c
      → Held m v db
      → apply (event env db c) (mailbox db) m.id v ≡ true
  unfolding event apply
  event-keeps db (submits user device dto d) spared h =
      posted-keeps dto d db (submit_envelope env user device dto d db) (mailbox db) m.id v h.waiting
  event-keeps db (acknowledges user device envelope ack now) spared h =
      taken-keeps envelope device (acknowledge_delivery env user device envelope ack now db)
        (mailbox db) m.id v spared h.waiting
  event-keeps db (reads user conversation envelope state now) spared h = h.waiting
  event-keeps db (retries now) spared h = h.waiting
  event-keeps db (cleans now) spared h = rw (h.waiting, unlapsed now m db spared h.unexpired)

  pub step-Held :
      (db : Db) (c : Call) → Spares m.id v m.expires_at c → Held m v db → Held m v (step env db c)
  step-Held db c spared h =
      let grown = Grown-Held m db _ (step-Grown env db c) h.stored h.unexpired in
      record {
        keyed = step-IsKeyed env db c h.keyed;
        waiting = rw (step-mailbox env db h.keyed c) (event-keeps db c spared h);
        stored = grown.0;
        unexpired = grown.1;
      }

  run-Held :
      (db : Db) (cs : List Call)
      → All (Spares m.id v m.expires_at) cs
      → Held m v db
      → Held m v (run env db cs)
  unfolding run
  run-Held db [] spared h = h
  run-Held db (c ∷ cs) spared h = run-Held (step env db c) cs spared.1 (step-Held db c spared.0 h)

module _ (env : Environment) (user device : ℕ) (dto : SubmitMessageEnvelope) (d : SubmitDraws)
    (db : Db) {db' : Db} {r : SubmitResponse} (keyed : Keyed db)
    (done : submit_envelope env user device dto d db ≡ returned db' r)
    (new : r.idempotent_retry ≡ false) where
  submit-fresh : any (λ x. x.id == d.envelope_id) db.transport.message_envelopes ≡ false
  unfolding submit_envelope check_device insert_rows envelope_violates
  submit-fresh = ground arith

  pub submit-Held :
      (v : ℕ)
      → any (λ x. x.id == v) (active_devices dto.recipient_user_id db) ≡ true
      → Held (new_envelope env user device dto d) v db'
  unfolding apply step
  submit-Held v active = record {
    keyed = rw done at (step-IsKeyed env db (submits user device dto d) keyed);
    waiting =
        rw (submit-mailbox env user device dto d db (returned db' r) done)
          (rw (new, ==_refl d.envelope_id, active) (ground arith));
    stored = rw written (inl refl);
    unexpired = rw written (
      λ _. omega arith,
      All-imp _ (λ x other is. absurd (ground arith)) db.transport.message_envelopes
          (All-any-false (λ x. x.id == d.envelope_id) db.transport.message_envelopes fresh),
    );
  }
    where
      written : db' ≡ submitted env user device dto d db
      written = (submit-Accepted env user device dto d db done new).written

      fresh : any (λ x. x.id == d.envelope_id) db.transport.message_envelopes ≡ false
      fresh = submit-fresh

  -- At-least-once delivery. An envelope that was accepted stays among the pending ones of each device
  -- that was active, until it expires, after any history of calls in which the device does not
  -- acknowledge it and in which no cleanup is made after it expired. (The table had distinct keys.)
  pub submit-run-pending :
      (cs : List Call) (v : ℕ)
      → any (λ x. x.id == v) (active_devices dto.recipient_user_id db) ≡ true
      → All (Spares d.envelope_id v dto.expires_at) cs
      → (now : ℕ) → now < dto.expires_at
      → any
          (λ p. p.0.id == d.envelope_id)
          (pending_rows dto.recipient_user_id v now (run env db' cs))
        ≡ true
  unfolding pending_rows mailbox
  submit-run-pending cs v active spared now early =
      let m = new_envelope env user device dto d in
      let held = run-Held env m v db' cs spared (submit-Held v active) in
      waiting-pending dto.recipient_user_id v now m _ _ held.stored refl (ground arith) held.waiting
