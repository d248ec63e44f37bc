-- ===== src/Samples/Servers.antt =====
-- Histories of the whole server.
use guff_suff.Prelude.{
  ◌≡◌, refl, inr, true, arith, ◌==◌, [], ◌∷◌, List, any, select, update, sort_desc, join,
}
use guff_suff.Action.{final}
use guff_suff.Schema.Identity.{IdentityDb}
use guff_suff.Schema.Constraints.{
  challenge_violates, delivery_attempt_violates, security_event_violates, audit_event_violates,
  session_violates, family_violates, token_violates,
}
use guff_suff.Schema.AccountConstraints.{
  user_violates, phone_violates, profile_violates, username_violates, device_violates,
  privacy_violates, is_canonical_username,
}
use guff_suff.Session.{create_session}
use guff_suff.Phone.{normalize_to_e164}
use guff_suff.Otp.{
  request_otp_challenge, check_cooldown, recent_challenges, verify_otp_challenge,
  timing_safe_verify, timing_safe_equal,
}
use guff_suff.Account.{register_account, registration_body}
use guff_suff.Device.{DeviceDraws, revoke_device, revoke_credentials, mark_revoked}
use guff_suff.Device.Revocation.{IsRevoked}
use guff_suff.Schema.TransportConstraints.{
  envelope_violates, idempotency_key_violates, recipient_violates,
}
use guff_suff.Envelope.{submit_envelope, check_device, insert_rows, insert_recipients}
use guff_suff.Envelope.Submit.{records}
use guff_suff.Envelope.Queries.{pending_rows}
use guff_suff.History
use guff_suff.Mailbox.{submits, retries, acknowledges, cleans}
use guff_suff.System.{
  World, Call, requests_code, verifies_code, registers, of_identity, of_transport, with_identity,
  step, run,
}
use guff_suff.System.Cutoff.{revoke_device-run-cut_off}
use guff_suff.System.Cutoff.Deliveries.{sent_from, addressed_to}
use guff_suff.System.Delivery.{submit_envelope-run-pending}
use guff_suff.System.Verified.{Owned, register-Owned}
use guff_suff.Samples.Messages.{env, db, message, submission_at, sent}
use guff_suff.Samples.Mailboxes.{answer}
use guff_suff.Samples.Accounts.{params, draws, response}
use guff_suff.Samples.Codes.{request_at}

abbrev world : World
world = record { db = db; simulator = [] }

abbrev signup : List Call
signup = requests_code 50 (request_at 200000) ∷ verifies_code 401 "654321" 201000 ∷ []

abbrev before : IdentityDb
before = (run env world signup).db.identity

register-Owned_example :
    Owned env signup (params 401) draws (final (register_account env (params 401) draws before))
unfolding register_account registration_body select normalize_to_e164 any user_violates
    phone_violates profile_violates username_violates is_canonical_username device_violates
    privacy_violates security_event_violates audit_event_violates create_session session_violates
    family_violates token_violates run step request_otp_challenge check_cooldown recent_challenges
    verify_otp_challenge timing_safe_verify timing_safe_equal sort_desc update challenge_violates
    delivery_attempt_violates
register-Owned_example =
    register-Owned env world signup (params 401) draws refl
      {db' = final (register_account env (params 401) draws before)} {r = response} refl

abbrev revocation : DeviceDraws
revocation = record { event_id = 501; audit_id = 600; correlation_id = 700; db_now = 3000 }

abbrev revoked : IdentityDb
revoked = final (revoke_device env 1 10 "lost" revocation db.identity)

-- The revoked device tries to send, and another account is registered.
abbrev attempts : List Call
attempts =
    of_transport (submits 1 10 message (submission_at 4000))
    ∷ registers (params 400) draws
    ∷ of_transport (retries 5000)
    ∷ []

revoke_device-run-cut_off_example :
    IsRevoked 10 (run env (with_identity world revoked) attempts).db.identity.devices
    × (sent_from 10 (run env (with_identity world revoked) attempts).db ≡ sent_from 10 db)
    × (addressed_to 10 (run env (with_identity world revoked) attempts).db ≡ addressed_to 10 db)
unfolding join select any update security_event_violates audit_event_violates revoke_device
    revoke_credentials mark_revoked
revoke_device-run-cut_off_example =
    revoke_device-run-cut_off env 1 10 "lost" revocation world {db' = revoked}
      (λ e. refl, (λ e. refl, (λ e. cc, tt))) refl attempts

-- Another device acknowledges, a user of the first device logs out, a code is requested, and a cleanup comes
-- before the envelope expires.
abbrev later : List Call
later =
    of_transport (acknowledges 2 21 800 830 6000)
    ∷ of_identity (History.logs_out_all 2 6500)
    ∷ requests_code 50 (request_at 7000)
    ∷ of_transport (cleans 80000)
    ∷ []

submit_envelope-run-pending_example :
    any
      (λ p. p.0.id == 800)
      (pending_rows 2 20 50000 (run env (record world { db = sent }) later).db)
    ≡ true
unfolding submit_envelope check_device insert_rows insert_recipients select any envelope_violates
    idempotency_key_violates recipient_violates records
submit_envelope-run-pending_example =
    submit_envelope-run-pending env 1 10 message (submission_at 1000) world {db' = sent}
      {r = answer} (record { ids = tt; pairs = tt }) refl refl later 20 refl
      (inr (λ e. cc), (tt, (tt, (omega arith, tt)))) 50000 (omega arith)
