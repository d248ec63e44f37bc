-- ===== src/System/Delivery.antt =====
-- At-least-once delivery, over any history of the server.
use guff_suff.Prelude.{ℕ, ◌≡◌, refl, ◌<◌, true, false, List, [], ◌∷◌, arith, ◌==◌, any, All}
use guff_suff.Action.{returned}
use guff_suff.Environment.{Environment}
use guff_suff.Schema.{Db}
use guff_suff.Schema.Transport.{MessageEnvelope}
use guff_suff.Envelope.{
  SubmitMessageEnvelope, SubmitDraws, SubmitResponse, submit_envelope, new_envelope, active_devices,
}
use guff_suff.Envelope.Queries.{pending_rows}
use guff_suff.Mailbox.{mailbox}
use guff_suff.Mailbox.Keys.{Keyed}
use guff_suff.Mailbox.Delivery.{Spares, Held, step-Held, submit-Held, waiting-pending}
use guff_suff.System.{
  World, Call, requests_code, verifies_code, registers, sets_pin, disables_pin, verifies_pin,
  opens_conversation, of_identity, of_transport, step, run,
}
use guff_suff.System.Frame.{conversation_rest}

-- The calls of the envelope service and of the worker that leave the envelope `e` to the device `v`; no
-- other call takes it.
abbrev pub SparesEnvelope : ℕ → ℕ → ℕ → Call → Type 0
SparesEnvelope e v expiry (of_transport c) = Spares e v expiry c
SparesEnvelope e v expiry _ = Unit

module _ (m : MessageEnvelope) (v : ℕ) where
  -- The tables of envelopes and of delivery records decide.
  Held-tables :
      (db t : Db)
      → t.transport.message_envelopes ≡ db.transport.message_envelopes
      → t.transport.message_recipient_devices ≡ db.transport.message_recipient_devices
      → Held m v db
      → Held m v t
  unfolding mailbox
  Held-tables db t envelopes records h = record {
    keyed = rw records h.keyed;
    waiting = rw records h.waiting;
    stored = rw envelopes h.stored;
    unexpired = rw envelopes h.unexpired;
  }

  system-Held :
      (env : Environment) (w : World) (c : Call)
      → SparesEnvelope m.id v m.expires_at c
      → Held m v w.db
      → Held m v (step env w c).db
  unfolding step
  system-Held env w (requests_code phone d) spared h = Held-tables w.db _ refl refl h
  system-Held env w (verifies_code i code now) spared h = Held-tables w.db _ refl refl h
  system-Held env w (registers p d) spared h = Held-tables w.db _ refl refl h
  system-Held env w (sets_pin user pin d) spared h = Held-tables w.db _ refl refl h
  system-Held env w (disables_pin user pin d) spared h = Held-tables w.db _ refl refl h
  system-Held env w (verifies_pin user pin ip d) spared h = Held-tables w.db _ refl refl h
  system-Held env w (opens_conversation user recipient d) spared h =
      let rest = conversation_rest env user recipient d w.db in Held-tables w.db _ rest.1 rest.2 h
  system-Held env w (of_identity c) spared h = Held-tables w.db _ refl refl h
  system-Held env w (of_transport c) spared h = step-Held env m v w.db c spared h

  history-Held :
      (env : Environment) (w : World) (cs : List Call)
      → All (SparesEnvelope m.id v m.expires_at) cs
      → Held m v w.db
      → Held m v (run env w cs).db
  unfolding run
  history-Held env w [] spared h = h
  history-Held env w (c ∷ cs) spared h =
      history-Held env (step env w c) cs spared.1 (system-Held env w c spared.0 h)

-- At-least-once delivery. An envelope that was accepted as a new one stays among the pending ones of each
-- device that was active then, until it expires, after any history of calls of all services in which
-- the device does not acknowledge it and in which no cleanup is made after it expired. (The table of
-- delivery records had distinct keys.)
pub submit_envelope-run-pending :
    (env : Environment) (user device : ℕ) (dto : SubmitMessageEnvelope) (d : SubmitDraws)
    (w : World) {db' : Db} {r : SubmitResponse}
    → Keyed w.db
    → submit_envelope env user device dto d w.db ≡ returned db' r
    → r.idempotent_retry ≡ false
    → (cs : List Call) (v : ℕ)
    → any (λ x. x.id == v) (active_devices dto.recipient_user_id w.db) ≡ true
    → All (SparesEnvelope d.envelope_id v dto.expires_at) cs
    → (now : ℕ) → now < dto.expires_at
    → any
        (λ p. p.0.id == d.envelope_id)
        (pending_rows dto.recipient_user_id v now (run env (record w { db = db' }) cs).db)
      ≡ true
unfolding pending_rows mailbox
submit_envelope-run-pending env user device dto d w {db'} keyed done new cs v active spared now
      early =
    let m = new_envelope env user device dto d in
    let held =
      history-Held m v env (record w { db = db' }) cs spared
        (submit-Held env user device dto d w.db keyed done new v active) in
    waiting-pending dto.recipient_user_id v now m _ _ held.stored refl (ground arith) held.waiting
