-- ===== src/Samples/Mailboxes.antt =====
-- Histories of deliveries.
use guff_suff.Prelude.{◌≡◌, ◌≢◌, ◌≤◌, ◌*◌, length, refl, [], ◌∷◌, List, All, some, false}
use guff_suff.Schema.Transport.{routed, read, revoked_recipient, permanently_failed}
use guff_suff.Envelope.{SubmitResponse, envelope_view, new_envelope}
use guff_suff.Mailbox.{Call, submits, acknowledges, retries, cleans, run, mailbox, replay}
use guff_suff.Mailbox.Keys.{delivery_records}
use guff_suff.Mailbox.Refinement.{run-replay}
use guff_suff.Mailbox.Attempts.{IsBounded, run-IsBounded}
use guff_suff.Mailbox.Retries.{all_pings, all_pings-le}
use guff_suff.Mailbox.Statuses.{run-status_unused}
use guff_suff.Samples.Messages.{env, db, message, submission_at}

abbrev calls : List Call
calls =
    submits 1 10 message (submission_at 1000)
    ∷ retries 4000
    ∷ acknowledges 2 20 800 830 6000
    ∷ cleans 95000
    ∷ []

run-replay_example : mailbox (run env db calls) ≡ replay env db calls (mailbox db)
run-replay_example = run-replay env db (record { ids = tt; pairs = tt }) calls

abbrev pub answer : SubmitResponse
answer = record {
  envelope = some (envelope_view (new_envelope env 1 10 message (submission_at 1000)));
  recipient_device_count = some 1;
  idempotent_retry = false;
}

run-status_unused_example :
    All
      (λ r.
        (r.delivery_status ≢ routed)
        × (r.delivery_status ≢ read)
        × (r.delivery_status ≢ revoked_recipient)
        × (r.delivery_status ≢ permanently_failed))
      (delivery_records (run env db calls))
run-status_unused_example = run-status_unused env db refl calls

run-IsBounded_example : IsBounded (run env db calls)
run-IsBounded_example =
    run-IsBounded env db calls
      (record { keyed = record { ids = tt; pairs = tt }; envelopes = tt; attempts = tt })

-- The worker runs three times, and sends a ping each time.
abbrev pinging : List Call
pinging =
    submits 1 10 message (submission_at 1000) ∷ retries 4000 ∷ retries 8000 ∷ retries 12000 ∷ []

all_pings-le_example : all_pings env db pinging ≤ 5 * length (delivery_records (run env db pinging))
all_pings-le_example =
    all_pings-le env db pinging
      (record { keyed = record { ids = tt; pairs = tt }; envelopes = tt; attempts = tt })
