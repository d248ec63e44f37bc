-- ===== src/Schema/Constraints.antt =====
-- The PRIMARY KEY, UNIQUE and REFERENCES constraints of the identity schema, as tests that refuse a
-- row, and the INSERT statements under them. The CHECK constraints on these tables hold by the
-- types of the columns.
use guff_suff.Prelude.{ℕ, Bool, false, Option, none, some, ◌∷◌, not, ◌&&◌, ◌||◌, ◌==◌, any}
use guff_suff.Action.{Action, insert}
use guff_suff.Environment.{Environment}
use guff_suff.Schema.Identity.{
  Session, RefreshTokenFamily, RefreshToken, OtpChallenge, OtpDeliveryAttempt, SecurityEvent,
  RegistrationLockAttempt, AuditEvent, IdentityDb,
}

abbrev pub user_exists : IdentityDb → ℕ → Bool
user_exists db i = any (λ u. u.id == i) db.users

abbrev pub device_exists : IdentityDb → ℕ → Bool
device_exists db i = any (λ d. d.id == i) db.devices

abbrev pub family_exists : IdentityDb → ℕ → Bool
family_exists db i = any (λ f. f.id == i) db.refresh_token_families

abbrev pub token_exists : IdentityDb → ℕ → Bool
token_exists db i = any (λ t. t.id == i) db.refresh_tokens

-- A NULL refers to nothing.
abbrev pub dangling : (ℕ → Bool) → Option ℕ → Bool
dangling present none = false
dangling present (some i) = not (present i)

module _ (env : Environment) where
  unfoldable pub session_violates : Session → IdentityDb → Bool
  session_violates s db =
      any (λ r. r.id == s.id) db.sessions
      || (env.references_checked
          && (not (user_exists db s.user_id) || not (device_exists db s.device_id)))

  unfoldable pub family_violates : RefreshTokenFamily → IdentityDb → Bool
  family_violates f db =
      family_exists db f.id
      || (env.references_checked
          && (not (user_exists db f.user_id) || not (device_exists db f.device_id)))

  unfoldable pub token_violates : RefreshToken → IdentityDb → Bool
  token_violates t db =
      (token_exists db t.id
        || any (λ r. r.token_verifier_hash == t.token_verifier_hash) db.refresh_tokens)
      || (env.references_checked
          && (not (family_exists db t.family_id)
              || (dangling (token_exists db) t.parent_token_id
                  || dangling (token_exists db) t.replacement_token_id)))

  -- An UPDATE that sets `replacement_token_id`.
  unfoldable pub replacement_violates : ℕ → IdentityDb → Bool
  replacement_violates i db = env.references_checked && not (token_exists db i)

  unfoldable pub security_event_violates : SecurityEvent → IdentityDb → Bool
  security_event_violates e db =
      any (λ r. r.id == e.id) db.security_events
      || (env.references_checked
          && (not (user_exists db e.user_id) || dangling (device_exists db) e.device_id))

  unfoldable pub lock_attempt_violates : RegistrationLockAttempt → IdentityDb → Bool
  lock_attempt_violates a db =
      any (λ r. r.id == a.id) db.registration_lock_attempts
      || (env.references_checked && not (user_exists db a.user_id))

  unfoldable pub delivery_attempt_violates : OtpDeliveryAttempt → IdentityDb → Bool
  delivery_attempt_violates a db =
      any (λ r. r.id == a.id) db.otp_delivery_attempts
      || (env.references_checked && not (any (λ c. c.id == a.challenge_id) db.otp_challenges))

  abbrev pub insert_session : Session → Action IdentityDb (Unit {0})
  insert_session s = insert (session_violates s) (λ db. record db { sessions = s ∷ db.sessions })

  abbrev pub insert_family : RefreshTokenFamily → Action IdentityDb (Unit {0})
  insert_family f =
      insert (family_violates f)
        (λ db. record db { refresh_token_families = f ∷ db.refresh_token_families })

  abbrev pub insert_token : RefreshToken → Action IdentityDb (Unit {0})
  insert_token t =
      insert (token_violates t) (λ db. record db { refresh_tokens = t ∷ db.refresh_tokens })

  abbrev pub insert_security_event : SecurityEvent → Action IdentityDb (Unit {0})
  insert_security_event e =
      insert (security_event_violates e)
        (λ db. record db { security_events = e ∷ db.security_events })

  abbrev pub insert_lock_attempt : RegistrationLockAttempt → Action IdentityDb (Unit {0})
  insert_lock_attempt a =
      insert (lock_attempt_violates a)
        (λ db. record db { registration_lock_attempts = a ∷ db.registration_lock_attempts })

  abbrev pub insert_delivery_attempt : OtpDeliveryAttempt → Action IdentityDb (Unit {0})
  insert_delivery_attempt a =
      insert (delivery_attempt_violates a)
        (λ db. record db { otp_delivery_attempts = a ∷ db.otp_delivery_attempts })

unfoldable pub challenge_violates : OtpChallenge → IdentityDb → Bool
challenge_violates c db = any (λ r. r.id == c.id) db.otp_challenges

abbrev pub insert_challenge : OtpChallenge → Action IdentityDb (Unit {0})
insert_challenge c =
    insert (challenge_violates c) (λ db. record db { otp_challenges = c ∷ db.otp_challenges })

unfoldable pub audit_event_violates : AuditEvent → IdentityDb → Bool
audit_event_violates e db = any (λ r. r.id == e.id) db.audit_events

abbrev pub insert_audit_event : AuditEvent → Action IdentityDb (Unit {0})
insert_audit_event e =
    insert (audit_event_violates e) (λ db. record db { audit_events = e ∷ db.audit_events })
