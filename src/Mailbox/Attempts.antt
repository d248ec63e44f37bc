-- ===== src/Mailbox/Attempts.antt =====
-- How often the worker of services/worker/src/transport-processor.ts retries a record.
use Prim.Native.Nat.{zero}
use guff_suff.Prelude.{
  ℕ, suc, ◌+◌, ◌≡◌, refl, sym, inl, inr, ◌≤◌, Bool, false, List, [], ◌∷◌, ◌++◌, arith, ltb, ◌==◌,
  ==_refl, ==_iff, if◌then◌else◌, any, select, join, map, take, length, update, All, All-imp,
  All-update, Distinct, Bool-cases, All-any-false, All-and, subst,
}
use guff_suff.Environment.{Environment}
use guff_suff.Schema.{Db}
use guff_suff.Schema.Transport.{RecipientDevice, MessageEnvelope}
use guff_suff.Worker.{
  is_due, retried, retry, due_records, process_offline_message_retries,
  process_expired_envelope_cleanup, expired_at,
}
use guff_suff.Envelope.{delivered_now}
use guff_suff.Mailbox.{Call, submits, acknowledges, reads, retries, cleans, step, run}
use guff_suff.Mailbox.Keys.{
  same_id, Keyed, delivery_records, step-IsKeyed, acknowledge-final, read-rows,
}
use guff_suff.Mailbox.Delivery.{Grown, same, one, step-Grown}
use guff_suff.Mailbox.Statuses.{submit-All}

-- How many of the records have an identifier.
hits : ℕ → List RecipientDevice → ℕ
hits i [] = 0
hits i (r ∷ rs) = (if r.id == i then 1 else 0) + hits i rs

hits-append : (i : ℕ) (rs ss : List RecipientDevice) → hits i (rs ++ ss) ≡ hits i rs + hits i ss
unfolding hits
hits-append i [] ss = omega arith
hits-append i (r ∷ rs) ss = omega (arith, hits-append i rs ss)

abbrev first : RecipientDevice × MessageEnvelope → RecipientDevice
first p = p.0

hits-take :
    (i n : ℕ) (ps : List (RecipientDevice × MessageEnvelope))
    → hits i (map first (take n ps)) ≤ hits i (map first ps)
unfolding hits
hits-take i zero ps = omega arith
hits-take i (suc n) [] = omega arith
hits-take i (suc n) (p ∷ ps) = omega (arith, hits-take i n ps)

hits-same :
    (i : ℕ) (x : RecipientDevice) (es : List MessageEnvelope)
    → hits i (map first (map (λ e. (x, e)) es)) ≡ (if x.id == i then length es else 0)
unfolding hits
hits-same i x [] = ground arith
hits-same i x (e ∷ es) = ground (arith, hits-same i x es)

map-append :
    (ps qs : List (RecipientDevice × MessageEnvelope))
    → map first (ps ++ qs) ≡ map first ps ++ map first qs
map-append [] qs = refl
map-append (p ∷ ps) qs = rw (map-append ps qs) refl

abbrev same_envelope : MessageEnvelope → MessageEnvelope → Bool
same_envelope e f = e.id == f.id

-- The attempts that a record has left, of one retry.
abbrev room : RecipientDevice → ℕ
room x = if ltb x.delivery_attempts_count 5 then 1 else 0

module _ (now : ℕ) where
  none_due :
      (x : RecipientDevice) (es : List MessageEnvelope)
      → any (λ e. e.id == x.envelope_id) es ≡ false
      → length (select (is_due now x) es) ≡ 0
  unfolding any select
  none_due x [] h = refl
  none_due x (e ∷ es) h = ground (arith, none_due x es)

  due-le :
      (x : RecipientDevice) (es : List MessageEnvelope)
      → Distinct same_envelope es
      → length (select (is_due now x) es) ≤ room x
  unfolding select
  due-le x [] d = ground arith
  due-le x (e ∷ es) d = elim (Bool-cases (is_due now x e)) [
    | inl due ↦
        let its = (==_iff x.envelope_id e.id).0 (ground (arith, due)) in
        let others =
          none_due x es (subst (λ (i : ℕ). any (λ f. f.id == i) es ≡ false) (sym its) d.0) in
        ground (arith, due, others)
    | inr idle ↦ rw idle (due-le x es d.1)
  ]

  hits-join :
      (i : ℕ) (x : RecipientDevice) (rows : List RecipientDevice) (es : List MessageEnvelope)
      → hits i (map first (join (is_due now) (x ∷ rows) es))
        ≡ (if x.id == i then length (select (is_due now x) es) else 0)
          + hits i (map first (join (is_due now) rows es))
  unfolding join
  hits-join i x rows es =
      let mine : List (RecipientDevice × MessageEnvelope) =
        map (λ e. (x, e)) (select (is_due now x) es) in
      let rest : List (RecipientDevice × MessageEnvelope) = join (is_due now) rows es in
      rw
        (
          map-append mine rest,
          hits-append i (map first mine) (map first rest),
          hits-same i x (select (is_due now x) es),
        )
        refl

  absent :
      (i : ℕ) (rows : List RecipientDevice) (es : List MessageEnvelope)
      → any (λ y. y.id == i) rows ≡ false
      → hits i (map first (join (is_due now) rows es)) ≡ 0
  unfolding join hits any
  absent i [] es h = refl
  absent i (x ∷ rows) es h = rw (hits-join i x rows es) (ground (arith, absent i rows es))

  -- A record of a table with distinct identifiers is selected at most once, and only if it has had
  -- fewer than five attempts.
  selected-le :
      (rows : List RecipientDevice) (es : List MessageEnvelope)
      → Distinct same_envelope es
      → Distinct same_id rows
      → All (λ x. hits x.id (map first (join (is_due now) rows es)) ≤ room x) rows
  selected-le [] es d k = tt
  selected-le (x ∷ rows) es d k = (
    rw (hits-join x.id x rows es, ==_refl x.id, absent x.id rows es k.0)
        (omega (arith, due-le x es d)),
    All-imp _ (λ y h. rw (hits-join y.id x rows es) (ground arith)) rows
        (All-and _ _ rows (selected-le rows es d k.1) (All-any-false (λ y. same_id y x) rows k.0)),
  )

  -- One UPDATE of the loop.
  spend :
      (r : RecipientDevice) (rs rows : List RecipientDevice)
      → All (λ x. x.delivery_attempts_count + hits x.id (r ∷ rs) ≤ 5) rows
      → All
          (λ x. x.delivery_attempts_count + hits x.id rs ≤ 5)
          (update (λ rd. rd.id == r.id) (retried now) rows)
  unfolding update hits
  spend r rs [] h = tt
  spend r rs (x ∷ rows) h = (
    elim (Bool-cases (x.id == r.id)) [
      | inl hit ↦ rw hit (ground (arith, h.0, hit))
      | inr miss ↦ rw miss (omega (arith, h.0))
    ],
    spend r rs rows h.1,
  )

  retry-bound :
      (rs : List RecipientDevice) (db : Db)
      → All (λ x. x.delivery_attempts_count + hits x.id rs ≤ 5) (delivery_records db)
      → All (λ x. x.delivery_attempts_count ≤ 5) (delivery_records (retry now rs db))
  unfolding retry hits
  retry-bound [] db h = All-imp _ (λ x k. omega (arith, k)) (delivery_records db) h
  retry-bound (r ∷ rs) db h = retry-bound rs _ (spend r rs (delivery_records db) h)

  retries-bound :
      (db : Db)
      → Keyed db
      → Distinct same_envelope db.transport.message_envelopes
      → All (λ x. x.delivery_attempts_count ≤ 5) (delivery_records db)
      → All
          (λ x. x.delivery_attempts_count ≤ 5)
          (delivery_records (process_offline_message_retries now db))
  unfolding process_offline_message_retries due_records
  retries-bound db keyed distinct h =
      let rows = delivery_records db in
      let es = db.transport.message_envelopes in
      retry-bound (due_records now db) db (
        All-imp _ (λ x k. ground (arith, k, hits-take x.id 50 (join (is_due now) rows es))) rows
          (All-and _ _ rows h (selected-le rows es distinct keyed.ids)))

-- Distinct keys in the tables of envelopes and of delivery records, and no record with more than five
-- attempts.
pub record IsBounded (db : Db) : Type 0 where
  pub keyed : Keyed db
  pub envelopes : Distinct same_envelope db.transport.message_envelopes
  pub attempts : All (λ x. x.delivery_attempts_count ≤ 5) (delivery_records db)

Grown-Distinct :
    (db : Db) (es : List MessageEnvelope)
    → Grown db es
    → Distinct same_envelope db.transport.message_envelopes
    → Distinct same_envelope es
Grown-Distinct db es (same e) d = rw e d
Grown-Distinct db es (one n e fresh) d = rw e (fresh, d)

module _ (env : Environment) where
  step-attempts :
      (db : Db) (c : Call)
      → IsBounded db
      → All (λ x. x.delivery_attempts_count ≤ 5) (delivery_records (step env db c))
  unfolding step process_expired_envelope_cleanup
  step-attempts db (submits user device dto d) h =
      submit-All (λ x. x.delivery_attempts_count ≤ 5) (λ i e v now. omega arith) env user device dto
        d db h.attempts
  step-attempts db (acknowledges user device envelope ack now) h =
      elim (acknowledge-final env user device envelope ack now db _ refl) [
        | inl kept ↦ rw kept h.attempts
        | inr w ↦ rw w.4 (
            All-update _ (λ x. x.id == w.0.id) (delivered_now now) (λ x _ k. k)
              (delivery_records db) h.attempts)
      ]
  step-attempts db (reads user conversation envelope state now) h =
      rw (read-rows env user conversation envelope state now db) h.attempts
  step-attempts db (retries now) h = retries-bound now db h.keyed h.envelopes h.attempts
  step-attempts db (cleans now) h =
      All-update _ _ (expired_at now) (λ x _ k. k) (delivery_records db) h.attempts

  -- Over any history of calls, however often the worker runs, no delivery record is tried more than
  -- five times, and the identifiers of envelopes and records stay distinct.
  pub run-IsBounded : (db : Db) (cs : List Call) → IsBounded db → IsBounded (run env db cs)
  unfolding run
  run-IsBounded db [] h = h
  run-IsBounded db (c ∷ cs) h = run-IsBounded (step env db c) cs (record {
    keyed = step-IsKeyed env db c h.keyed;
    envelopes = Grown-Distinct db _ (step-Grown env db c) h.envelopes;
    attempts = step-attempts db c h;
  })
