-- ===== src/Samples/Pins.antt =====
-- The registration lock.
use guff_suff.Prelude.{ℕ, ◌≤◌, String, Option, true, false, none, List, [], ◌∷◌, arith, select}
use guff_suff.Environment.{Environment}
use guff_suff.Schema.Identity.{RegistrationLockAttempt, IdentityDb}
use guff_suff.RegistrationLock.{LockDraws, failures, recent_attempts}
use guff_suff.RegistrationLock.Lockout.{verify_all, verify_all-failures_le}
use guff_suff.Samples.{env_with, claims_for, unrotated_db}

abbrev env : Environment
env = env_with true (claims_for 100 1 10)

abbrev wrong_pin : ℕ → RegistrationLockAttempt
wrong_pin i = record {
  id = i;
  user_id = 1;
  is_successful = false;
  ip_address = none;
  created_at = i;
}

abbrev db_after : List RegistrationLockAttempt → IdentityDb
db_after attempts = record unrotated_db {
  registration_lock_credentials =
      record { user_id = 1; pin_argon2_hash = "hash"; enabled_at = 0; updated_at = 0 } ∷ [];
  registration_lock_attempts = attempts;
}

abbrev call_at : ℕ → LockDraws
call_at now = record { salt = "salt"; attempt_id = now; event_id = now; now = now; db_now = now }

abbrev five_wrong : IdentityDb
five_wrong = db_after (wrong_pin 1 ∷ wrong_pin 2 ∷ wrong_pin 3 ∷ wrong_pin 4 ∷ wrong_pin 5 ∷ [])

abbrev calls : List (String × Option String × LockDraws)
calls =
    ("111111", none, call_at 10) ∷ ("222222", none, call_at 20) ∷ ("333333", none, call_at 30) ∷ []

verify_all-failures_le_example :
    failures 1 40 (verify_all env 1 (db_after (wrong_pin 1 ∷ wrong_pin 2 ∷ wrong_pin 3 ∷ [])) calls)
    ≤ 5
unfolding failures recent_attempts select
verify_all-failures_le_example =
    verify_all-failures_le env 1 calls 5 40
      (db_after (wrong_pin 1 ∷ wrong_pin 2 ∷ wrong_pin 3 ∷ []))
      (omega arith, (omega arith, (omega arith, omega arith))) (omega arith)
