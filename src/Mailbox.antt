-- ===== src/Mailbox.antt =====
-- Delivery as a mailbox: which devices have still to fetch which envelopes. The abstract state is a
-- set of pairs of an envelope and a device; the concrete one is the table of delivery records, on
-- which services/api/src/transport/message-envelope.service.ts and the jobs of
-- services/worker/src/transport-processor.ts act. A history is a sequence of their calls.
pub mod Keys
pub mod Submit
pub mod Refinement
pub mod Delivery
pub mod Statuses
pub mod Attempts
pub mod Retries
use guff_suff.Prelude.{
  ℕ, Bool, true, false, List, [], ◌∷◌, not, ◌&&◌, ◌||◌, leb, ◌==◌, if◌then◌else◌, any,
}
use guff_suff.Action.{Outcome, returned, threw, final}
use guff_suff.Environment.{Environment}
use guff_suff.Schema.{Db}
use guff_suff.Schema.Transport.{RecipientDevice}
use guff_suff.Envelope.{
  SubmitMessageEnvelope, SubmitDraws, SubmitResponse, submit_envelope, active_devices,
  acknowledge_delivery, acknowledge_read,
}
use guff_suff.Envelope.Queries.{is_undelivered}
use guff_suff.Worker.{process_offline_message_retries, process_expired_envelope_cleanup}

pub data Call : Type 0 where
  submits : ℕ → ℕ → SubmitMessageEnvelope → SubmitDraws → Call
  acknowledges : ℕ → ℕ → ℕ → ℕ → ℕ → Call
  reads : ℕ → ℕ → ℕ → ℕ → ℕ → Call
  retries cleans : ℕ → Call

unfoldable pub step : Environment → Db → Call → Db
step env db (submits user device dto d) = final (submit_envelope env user device dto d db)
step env db (acknowledges user device envelope ack now) =
    final (acknowledge_delivery env user device envelope ack now db)
step env db (reads user conversation envelope state now) =
    final (acknowledge_read env user conversation envelope state now db)
step env db (retries now) = process_offline_message_retries now db
step env db (cleans now) = process_expired_envelope_cleanup now db

unfoldable pub run : Environment → Db → List Call → Db
unfolding step
run env db [] = db
run env db (c ∷ cs) = run env (step env db c) cs

-- The abstract state: whether an envelope waits for a device.
abbrev pub Mailbox : Type 0
Mailbox = ℕ → ℕ → Bool

-- What a call does to the mailboxes.
pub data Event : Type 0 where
  nothing : Event
  posted : ℕ → (ℕ → Bool) → Event
  taken : ℕ → ℕ → Event
  lapsed : (ℕ → Bool) → Event

unfoldable pub apply : Event → Mailbox → Mailbox
apply nothing m = m
apply (posted envelope devices) m = λ e d. m e d || ((e == envelope) && devices d)
apply (taken envelope device) m = λ e d. m e d && not ((e == envelope) && (d == device))
apply (lapsed gone) m = λ e d. m e d && not (gone e)

abbrev pub is_waiting : ℕ → ℕ → RecipientDevice → Bool
is_waiting e d r =
    (r.envelope_id == e) && ((r.recipient_device_id == d) && is_undelivered r.delivery_status)

-- The abstract view of the table.
unfoldable pub mailbox : Db → Mailbox
mailbox db e d = any (is_waiting e d) db.transport.message_recipient_devices

abbrev pub posted_event :
    SubmitMessageEnvelope → SubmitDraws → Db → Outcome Db SubmitResponse → Event
posted_event dto d db (threw s e) = nothing
posted_event dto d db (returned s r) =
    if r.idempotent_retry
    then nothing
    else posted d.envelope_id (λ i. any (λ v. v.id == i) (active_devices dto.recipient_user_id db))

abbrev pub taken_event : ℕ → ℕ → Outcome Db (Unit {0}) → Event
taken_event envelope device (threw s e) = nothing
taken_event envelope device (returned s r) = taken envelope device

-- The envelopes of the table that have expired.
abbrev pub has_lapsed : ℕ → Db → ℕ → Bool
has_lapsed now db i = any (λ e. (i == e.id) && leb e.expires_at now) db.transport.message_envelopes

-- The event of a call, as its caller sees it: by what it returns.
unfoldable pub event : Environment → Db → Call → Event
event env db (submits user device dto d) =
    posted_event dto d db (submit_envelope env user device dto d db)
event env db (acknowledges user device envelope ack now) =
    taken_event envelope device (acknowledge_delivery env user device envelope ack now db)
event env db (reads user conversation envelope state now) = nothing
event env db (retries now) = nothing
event env db (cleans now) = lapsed (has_lapsed now db)

-- The abstract history: the events one after the other.
unfoldable pub replay : Environment → Db → List Call → Mailbox → Mailbox
replay env db [] m = m
replay env db (c ∷ cs) m = replay env (step env db c) cs (apply (event env db c) m)
