-- ===== src/RegistrationLock/Lockout.antt =====
-- The lockout after five wrong PINs in thirty minutes.
use guff_suff.Prelude.{
  ℕ, ◌+◌, ◌≤◌, ◌≡◌, refl, String, Option, List, [], ◌∷◌, not, ◌&&◌, arith, ltb, ◌==◌, length,
  select,
}
use guff_suff.Errors.{pin_locked_out}
use guff_suff.Action.{threw, final}
use guff_suff.Environment.{Environment}
use guff_suff.Schema.Identity.{RegistrationLockAttempt, RegistrationLockCredential, IdentityDb}
use guff_suff.RegistrationLock.{LockDraws, recent_attempts, failures, verify_pin, disable_pin}

-- Failures leave the window as time passes, and none enters it.
window_shrinks :
    (user now later : ℕ) (rows : List RegistrationLockAttempt)
    → now ≤ later
    → length (
        select
          (λ a. not a.is_successful)
          (select (λ a. (a.user_id == user) && ltb later (a.created_at + 1800000)) rows))
      ≤ length (
          select
            (λ a. not a.is_successful)
            (select (λ a. (a.user_id == user) && ltb now (a.created_at + 1800000)) rows))
unfolding select
window_shrinks user now later [] h = omega arith
window_shrinks user now later (a ∷ rows) h = ground (arith, window_shrinks user now later rows h)

pub failures_mono :
    (user now later : ℕ) (db : IdentityDb)
    → now ≤ later
    → failures user later db ≤ failures user now db
unfolding failures recent_attempts
failures_mono user now later db h = window_shrinks user now later db.registration_lock_attempts h

-- The calls come at times that do not fall, between the two bounds.
abbrev pub InOrder : ℕ → ℕ → List (String × Option String × LockDraws) → Type 0
InOrder now end [] = now ≤ end
InOrder now end ((pin, ip, d) ∷ calls) = (now ≤ d.db_now) × InOrder d.db_now end calls

module _ (env : Environment) (user : ℕ) where
  -- With five wrong PINs in the window every PIN is refused, the right one too: nothing is compared,
  -- and nothing is written.
  pub locked_out :
      (pin : String) (ip : Option String) (d : LockDraws) (db : IdentityDb)
      → 5 ≤ failures user d.db_now db
      → (verify_pin env user pin ip d db ≡ threw db pin_locked_out)
        × (disable_pin env user pin d db ≡ threw db pin_locked_out)
  unfolding disable_pin
  locked_out pin ip d db h = (ground arith, ground arith)

  verify_rows :
      (pin : String) (ip : Option String) (d : LockDraws) (db : IdentityDb)
      (rows : List RegistrationLockCredential)
      → select (λ c. c.user_id == user) db.registration_lock_credentials ≡ rows
      → failures user d.db_now db ≤ 5
      → failures user d.db_now (final (verify_pin env user pin ip d db)) ≤ 5
  unfolding verify_pin failures recent_attempts select
  verify_rows pin ip d db [] found h = ground arith
  verify_rows pin ip d db (c ∷ rest) found h = ground arith

  -- A sequence of calls of `verifyPin` for the user.
  pub verify_all : IdentityDb → List (String × Option String × LockDraws) → IdentityDb
  verify_all db [] = db
  verify_all db ((pin, ip, d) ∷ calls) = verify_all (final (verify_pin env user pin ip d db)) calls

  -- Five wrong PINs at most are recorded in any thirty minutes, however many calls are made: the
  -- count of the window never passes five, at any time from the last call on.
  pub verify_all-failures_le :
      (calls : List (String × Option String × LockDraws)) (now end : ℕ) (db : IdentityDb)
      → InOrder now end calls
      → failures user now db ≤ 5
      → failures user end (verify_all db calls) ≤ 5
  unfolding verify_all
  verify_all-failures_le [] now end db order h = omega (arith, failures_mono user now end db order)
  verify_all-failures_le ((pin, ip, d) ∷ calls) now end db order h =
      verify_all-failures_le calls d.db_now end (final (verify_pin env user pin ip d db)) order.1
        (verify_rows pin ip d db _ refl (omega (arith, failures_mono user now d.db_now db order.0)))
