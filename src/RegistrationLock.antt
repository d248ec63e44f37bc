-- ===== src/RegistrationLock.antt =====
-- services/api/src/identity/registration-lock.service.ts
pub mod Lockout
use Prim.Native.Char.{code}
use Prim.Native.String.{◌++◌}
use guff_suff.Prelude.{
  ℕ, ◌+◌, ◌*◌, String, Bool, true, false, Option, none, some, List, [], ◌∷◌, not, ◌&&◌, ltb, leb,
  ◌==◌, if◌then◌else◌, length, any, select, update, remove,
}
use guff_suff.Errors.{
  constraint_violation, malformed_pin, pin_locked_out, pin_not_set, incorrect_pin,
}
use guff_suff.Action.{Action, ◌>>=◌, ◌>>◌, pure, throw, gets, modify}
use guff_suff.Environment.{Environment, env_or}
use guff_suff.Schema.Identity.{
  RegistrationLockCredential, RegistrationLockAttempt, SecurityEvent, Severity, IdentityDb,
}
use guff_suff.Schema.Constraints.{user_exists, insert_security_event, insert_lock_attempt}

pub record LockDraws : Type 0 where
  pub salt : String
  pub attempt_id : ℕ
  pub event_id : ℕ
  pub now : ℕ
  pub db_now : ℕ

abbrev pub codes : String → List ℕ
codes String.[] = []
codes (String.◌∷◌ c s) = code c ∷ codes s

abbrev pub is_digit : ℕ → Bool
is_digit c = leb b'0' c && leb c b'9'

-- /^\d{6,12}$/
unfoldable pub is_pin : String → Bool
is_pin pin =
    leb 6 (length (codes pin))
    && (leb (length (codes pin)) 12 && not (any (λ c. not (is_digit c)) (codes pin)))

lock_event : ℕ → ℕ → String → String → ℕ → SecurityEvent
lock_event id user_id event_type description now = record {
  id = id;
  user_id = user_id;
  device_id = none;
  event_type = event_type;
  severity = Severity.medium;
  user_description_key = description;
  device_context_json = [];
  internal_metadata_json = [];
  is_read = false;
  created_at = now;
}

-- The attempts of a user in the last 30 minutes.
unfoldable pub recent_attempts : ℕ → ℕ → IdentityDb → List RegistrationLockAttempt
recent_attempts user_id db_now db =
    select (λ a. (a.user_id == user_id) && ltb db_now (a.created_at + 30 * 60 * 1000))
      db.registration_lock_attempts

unfoldable pub failures : ℕ → ℕ → IdentityDb → ℕ
failures user_id db_now db =
    length (select (λ a. not a.is_successful) (recent_attempts user_id db_now db))

module _ (env : Environment) where
  abbrev pub peppered_pin : String → String
  peppered_pin pin =
      pin ++ (":" ++ env_or env.registration_lock_pepper "default_guffsuff_pin_pepper_v1_32chars!!")

  unfoldable pub hash_pin : String → String → Action IdentityDb String
  hash_pin pin salt db =
      if is_pin pin
      then pure (env.argon2_hash (peppered_pin pin) salt) db
      else throw malformed_pin db

  -- INSERT ... ON CONFLICT (user_id) DO UPDATE SET pin_argon2_hash, updated_at
  store_hash : ℕ → String → ℕ → Action IdentityDb (Unit {0})
  store_hash user_id hash now db =
      if any (λ c. c.user_id == user_id) db.registration_lock_credentials
      then modify
          (λ s. record s {
            registration_lock_credentials =
                update (λ c. c.user_id == user_id)
                  (λ c. record c { pin_argon2_hash = hash; updated_at = now })
                  s.registration_lock_credentials;
          })
          db
      else if env.references_checked && not (user_exists db user_id)
      then throw constraint_violation db
      else modify
          (λ s. record s {
            registration_lock_credentials =
                record {
                  user_id = user_id;
                  pin_argon2_hash = hash;
                  enabled_at = now;
                  updated_at = now;
                }
                ∷ s.registration_lock_credentials;
          })
          db

  unfoldable pub set_pin : ℕ → String → LockDraws → Action IdentityDb (Unit {0})
  unfolding hash_pin store_hash lock_event
  set_pin user_id pin d = do
    hash ← hash_pin pin d.salt
    store_hash user_id hash d.now
    insert_security_event env (
        lock_event d.event_id user_id "registration_lock_enabled" "sec_event.reg_lock_enabled"
          d.now)

  compare_pin :
      ℕ
      → String
      → Option String
      → LockDraws
      → List RegistrationLockCredential
      → Action IdentityDb Bool
  compare_pin user_id candidate ip d [] = throw pin_not_set
  compare_pin user_id candidate ip d (c ∷ rest) = do
    let is_match = env.argon2_verify c.pin_argon2_hash (peppered_pin candidate)
    insert_lock_attempt env (record {
      id = d.attempt_id;
      user_id = user_id;
      is_successful = is_match;
      ip_address = ip;
      created_at = d.db_now;
    })
    pure is_match

  check_lockout : ℕ → Action IdentityDb (Unit {0})
  check_lockout failed db = if leb 5 failed then throw pin_locked_out db else pure tt db

  unfoldable pub verify_pin : ℕ → String → Option String → LockDraws → Action IdentityDb Bool
  unfolding compare_pin check_lockout
  verify_pin user_id candidate ip d = do
    failed ← gets (failures user_id d.db_now)
    check_lockout failed
    credentials ← gets (λ db. select (λ c. c.user_id == user_id) db.registration_lock_credentials)
    compare_pin user_id candidate ip d credentials

  remove_lock : ℕ → LockDraws → Bool → Action IdentityDb (Unit {0})
  unfolding lock_event
  remove_lock user_id d false = throw incorrect_pin
  remove_lock user_id d true = do
    modify (λ db. record db {
      registration_lock_credentials =
          remove (λ c. c.user_id == user_id) db.registration_lock_credentials;
    })
    insert_security_event env (
        lock_event d.event_id user_id "registration_lock_disabled" "sec_event.reg_lock_disabled"
          d.db_now)

  unfoldable pub disable_pin : ℕ → String → LockDraws → Action IdentityDb (Unit {0})
  unfolding verify_pin remove_lock
  disable_pin user_id current_pin d = do
    is_valid ← verify_pin user_id current_pin none d
    remove_lock user_id d is_valid
