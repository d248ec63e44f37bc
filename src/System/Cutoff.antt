-- ===== src/System/Cutoff.antt =====
-- What a revoked device can still do.
pub mod Deliveries
use guff_suff.Prelude.{
  ℕ, suc, ◌≡◌, refl, ◌∙◌, ap, String, Bool, true, false, List, [], ◌∷◌, ◌&&◌, not, arith, sym,
  subst, ◌==◌, ==_iff, inl, inr, Bool-cases, any, map, select, update, All,
}
use guff_suff.Action.{Outcome, returned, threw, final}
use guff_suff.Environment.{Environment}
use guff_suff.Schema.{Db}
use guff_suff.Schema.Identity.{Device, IdentityDb}
use guff_suff.Schema.Transport.{RecipientDevice, MessageEnvelope}
use guff_suff.Device.{DeviceDraws, revoke_device}
use guff_suff.Device.Revocation.{IsRevoked, revoke_device-IsLockedOut}
use guff_suff.Envelope.{
  SubmitMessageEnvelope, SubmitDraws, SubmitResponse, submit_envelope, check_device, sender_devices,
  active_devices, new_recipient, delivered_now, recipient_rows, mark_delivered,
  acknowledge_delivery, acknowledge_read,
}
use guff_suff.Envelope.Submit.{records, submit-threw, submit-Accepted}
use guff_suff.Worker.{
  retried, retry, due_records, expired_at, process_offline_message_retries,
  process_expired_envelope_cleanup,
}
use guff_suff.Mailbox.{submits, acknowledges, reads, retries, cleans}
use guff_suff.Mailbox
use guff_suff.Mailbox.Keys.{delivery_records, acknowledge-final, read-rows}
use guff_suff.Mailbox.Submit.{submit-retry_same}
use guff_suff.History.Devices.{step-IsRevoked}
use guff_suff.System.{
  World, Call, requests_code, verifies_code, registers, sets_pin, disables_pin, verifies_pin,
  opens_conversation, of_identity, of_transport, codes_of, with_identity, step, run,
}
use guff_suff.System.Frame.{
  Same, Registering, Requested, set_pin-Same, verify_pin-Same, disable_pin-Same, conversation_rest,
  register-Registering, request-Requested, verify_cases,
}
use guff_suff.Otp.{request_otp_challenge, verify_otp_challenge}
use guff_suff.Otp.Verify.{after_try}
use guff_suff.Account.{RegisterParams, RegisterDraws, new_device, register_account}
use guff_suff.RegistrationLock.{set_pin, verify_pin, disable_pin}
use guff_suff.Conversation.{get_or_create_direct_conversation}
use guff_suff.System.Frame.Deliveries.{mailbox-identity}
use guff_suff.System.Cutoff.Deliveries.{sent_from, addressed_to, Kept, step_mailbox-Kept}

module _ (i : ℕ) (env : Environment) where
  -- A device that a registration adds has an identifier of its own.
  register-IsRevoked :
      (p : RegisterParams) (d : RegisterDraws) (db : IdentityDb)
      → IsRevoked i db.devices
      → IsRevoked i (final (register_account env p d db)).devices
  unfolding any
  register-IsRevoked p d db h = elim (register-Registering env p d db).devices [
    | inl same ↦ rw same h
    | inr new ↦
        let other : (d.device_id == i) ≡ false = elim (Bool-cases (d.device_id == i)) [
          | inl hit ↦
              let it = (==_iff d.device_id i).0 hit in
              absurd
                (cc (h.known, subst (λ (k : ℕ). any (λ r. r.id == k) db.devices ≡ false) it new.1))
          | inr no' ↦ no'
        ] in
        rw new.0 (record {
          known = rw (other, h.known) refl;
          marked = (λ is. absurd (cc (is, other)), h.marked);
        })
  ]

  -- A call of a service on the identity tables, after which the device is still revoked.
  abbrev Revoked : World → Type 0
  Revoked w = IsRevoked i w.db.identity.devices

  abbrev Moved : World → World → Type 0
  Moved w v =
      Revoked v
      × (sent_from i v.db ≡ sent_from i w.db)
      × (addressed_to i v.db ≡ addressed_to i w.db)

  step-Moved : (w : World) (c : Call) → Revoked w → Moved w (step env w c)
  unfolding step
  step-Moved w (requests_code phone d) h =
      (subst (IsRevoked i) (sym (request-Requested env phone d (codes_of w)).devices) h, refl, refl)
  step-Moved w (verifies_code j code now) h = (
    elim (verify_cases env j code now w.db.identity) [
      | inl same ↦ rw same h
      | inr tried ↦ rw tried.1 h
    ],
    refl,
    refl,
  )
  step-Moved w (registers p d) h = (register-IsRevoked p d w.db.identity h, refl, refl)
  step-Moved w (sets_pin user pin d) h =
      (subst (IsRevoked i) (sym (set_pin-Same env user pin d w.db.identity).devices) h, refl, refl)
  step-Moved w (disables_pin user pin d) h = (
    subst (IsRevoked i) (sym (disable_pin-Same env user pin d w.db.identity).devices) h,
    refl,
    refl,
  )
  step-Moved w (verifies_pin user pin ip d) h = (
    subst (IsRevoked i) (sym (verify_pin-Same env user pin ip d w.db.identity).devices) h,
    refl,
    refl,
  )
  step-Moved w (opens_conversation user recipient d) h =
      let same = conversation_rest env user recipient d w.db in
      (rw same.0 h, rw same.1 refl, rw same.2 refl)
  step-Moved w (of_identity c) h = (step-IsRevoked env i w.db.identity c h, refl, refl)
  step-Moved w (of_transport c) h =
      let k = step_mailbox-Kept i env w.db c h in
      (
        subst (λ (s : IdentityDb). IsRevoked i s.devices) (sym (mailbox-identity env w.db c)) h,
        k.sent,
        k.deliveries,
      )

  run-Moved : (w : World) (cs : List Call) → Revoked w → Moved w (run env w cs)
  unfolding run
  run-Moved w [] h = (h, refl, refl)
  run-Moved w (c ∷ cs) h =
      let one = step-Moved w c h in
      let rest = run-Moved (step env w c) cs one.0 in (rest.0, rest.1 ∙ one.1, rest.2 ∙ one.2)

-- Once a device, whose identifier no other user has, is revoked, nothing more is sent from it or queued for
-- it: over any calls of the services and of the worker, registrations included, with whatever tokens
-- and identifiers, the envelopes sent from it stay the same ones, no delivery record for it is added,
-- and it stays revoked.
pub revoke_device-run-cut_off :
    (env : Environment) (user i : ℕ) (reason : String) (d : DeviceDraws) (w : World)
    {db' : IdentityDb} {r : ℕ}
    → All (λ x. (x.id == i) ≡ true → x.user_id ≡ user) w.db.identity.devices
    → revoke_device env user i reason d w.db.identity ≡ returned db' r
    → (cs : List Call)
    → let after = run env (with_identity w db') cs in
      IsRevoked i after.db.identity.devices
      × (sent_from i after.db ≡ sent_from i w.db)
      × (addressed_to i after.db ≡ addressed_to i w.db)
revoke_device-run-cut_off env user i reason d w {db'} owned done cs =
    run-Moved i env (with_identity w db') cs
      (revoke_device-IsLockedOut env user i reason d w.db.identity owned done).device
