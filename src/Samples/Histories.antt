-- ===== src/Samples/Histories.antt =====
-- Sequences of calls of the identity services.
use guff_suff.Prelude.{◌≡◌, ◌≢◌, refl, inl, true, some, [], ◌∷◌, arith, any, select, join, update}
use guff_suff.Errors.{Error, invalid_refresh_token}
use guff_suff.Action.{threw}
use guff_suff.Schema.Constraints.{
  security_event_violates, session_violates, family_violates, token_violates, audit_event_violates,
}
use guff_suff.Session.{
  rotate_refresh_token, find_token, live_replacement, compromise, create_session, revoke_session,
  report_reuse,
}
use guff_suff.Device.{DeviceDraws, revoke_device, revoke_credentials, mark_revoked}
use guff_suff.Guard.{RequestUser, can_activate, bearer_token, session_rows}
use guff_suff.History.{step, run, rotates, creates, logs_out}
use guff_suff.History.Families.{reuse-run-refused}
use guff_suff.History.Rotation.{run-rotate_refused}
use guff_suff.History.Devices.{revoked-run-denied}
use guff_suff.History.Consistency.{IsConsistent, run-IsConsistent}
use guff_suff.Schema.Identity.{IdentityDb}
use guff_suff.Samples.{
  family, fresh_token, env_with, claims_for, rotated_db, unrotated_db, rotation_at, login_at,
}

-- The device logs out and in again, and still the replacement of the stolen token is refused.
reuse-run-refused_example :
    rotate_refresh_token (env_with true (claims_for 100 1 10)) "abcd" (rotation_at 21000) (
      run
        (env_with true (claims_for 100 1 10))
        (step (env_with true (claims_for 100 1 10)) rotated_db (rotates "abc" (rotation_at 20000)))
        (logs_out 100 20500 ∷ creates 1 10 (login_at 20600) ∷ []))
    ≡ threw
        (run
          (env_with true (claims_for 100 1 10))
          (step
            (env_with true (claims_for 100 1 10))
            rotated_db
            (rotates "abc" (rotation_at 20000)))
          (logs_out 100 20500 ∷ creates 1 10 (login_at 20600) ∷ []))
        invalid_refresh_token
unfolding find_token join select any update security_event_violates compromise run step
    rotate_refresh_token report_reuse create_session revoke_session live_replacement
    session_violates family_violates token_violates
reuse-run-refused_example =
    reuse-run-refused (env_with true (claims_for 100 1 10)) "abc" (rotation_at 20000) rotated_db
      {rest = []} refl refl refl (omega arith) refl (inl (omega arith)) refl
      (logs_out 100 20500 ∷ creates 1 10 (login_at 20600) ∷ []) "abcd" (rotation_at 21000)
      {rest' = []} refl refl

run-rotate_refused_example :
    (e : Error) × (rotate_refresh_token
        (env_with true (claims_for 100 1 10))
        "abc"
        (rotation_at 5000)
        (run (env_with true (claims_for 100 1 10)) unrotated_db (creates 1 10 (login_at 4000) ∷ []))
      ≡ threw
          (run
            (env_with true (claims_for 100 1 10))
            unrotated_db
            (creates 1 10 (login_at 4000) ∷ []))
          e)
run-rotate_refused_example =
    run-rotate_refused (env_with true (claims_for 100 1 10)) unrotated_db refl (refl, tt)
      (creates 1 10 (login_at 4000) ∷ []) "abc" (rotation_at 5000)

abbrev revocation : DeviceDraws
revocation = record { event_id = 501; audit_id = 600; correlation_id = 700; db_now = 3000 }

abbrev second_device : RequestUser
second_device = record { user_id = 1; device_id = 11; session_id = 101 }

-- The other device of the user is still let through.
revoked-run-denied_example : second_device.device_id ≢ 10
unfolding join select any update security_event_violates audit_event_violates revoke_device
    revoke_credentials mark_revoked run step create_session session_violates family_violates
    token_violates can_activate bearer_token session_rows
revoked-run-denied_example =
    revoked-run-denied (env_with true (claims_for 101 1 11)) 1 10 "lost" revocation unrotated_db
      (λ e. refl, (λ e. refl, (λ e. cc, tt))) refl (creates 1 10 (login_at 4000) ∷ [])
      (some ("Bearer" ∷ "token" ∷ [])) 5000 {who = second_device} refl

abbrev compromised_db : IdentityDb
compromised_db = record unrotated_db {
  refresh_token_families = record family { is_compromised = true } ∷ [];
  refresh_tokens = record (fresh_token 300 3) { is_revoked = true } ∷ [];
}

run-IsConsistent_example : IsConsistent (
    run
      (env_with true (claims_for 100 1 10))
      compromised_db
      (creates 1 10 (login_at 4000) ∷ rotates "abc" (rotation_at 5000) ∷ []))
unfolding any
run-IsConsistent_example =
    run-IsConsistent (env_with true (claims_for 100 1 10)) compromised_db
      (creates 1 10 (login_at 4000) ∷ rotates "abc" (rotation_at 5000) ∷ [])
      (record { families = (refl, tt); dead = ((λ k i. refl, tt), tt) })
