-- ===== src/Samples/Codes.antt =====
-- One-time codes.
use guff_suff.Prelude.{
  ℕ, ◌+◌, ◌≤◌, ◌<◌, update, ◌≡◌, refl, String, true, false, some, List, [], ◌∷◌, arith, All, any,
  select, sort_desc,
}
use guff_suff.Action.{returned, final}
use guff_suff.Environment.{Environment}
use guff_suff.Schema.Identity.{OtpChallenge, IdentityDb}
use guff_suff.Schema.Constraints.{challenge_violates, delivery_attempt_violates}
use guff_suff.Otp.Delivery.{request-verify}
use guff_suff.Otp.{
  get_simulator_otp, OtpIssued, OtpWorld, OtpDraws, is_recent, recent_challenges, check_cooldown,
  request_otp_challenge, verify_otp_challenge, verify_otp_text, timing_safe_verify,
}
use guff_suff.Otp.Verify.{compared, compared-le, verify-true_iff, Acceptable, after_try}
use guff_suff.Otp.Race.{Half, begins, ends, start, run, IsWithin, half, judge, nth, without}
use guff_suff.Otp.Race.Bound.{race-le}
use guff_suff.Otp.Race.Sharp.{race-met}
use guff_suff.Otp.Cooldown.{request_otp_challenge-spaced}
use guff_suff.Samples.{env_with, claims_for, unrotated_db}

-- The text "id:123456" has nine bytes.
abbrev challenge : OtpChallenge
challenge = record {
  id = 400;
  phone_blind_index = 50;
  verifier_hash = 9 ∷ [];
  attempts_count = 1;
  max_attempts = 3;
  expires_at = 300000;
  resend_available_at = 120000;
  is_verified = false;
  created_at = 0;
}

abbrev db : IdentityDb
db = record unrotated_db { otp_challenges = challenge ∷ [] }

abbrev env : Environment
env = env_with true (claims_for 100 1 10)

abbrev tries : List (String × ℕ)
tries = ("1", 1000) ∷ ("12", 2000) ∷ ("123456", 3000) ∷ []

compared-le_example : 1 + compared env 400 db tries ≤ 3
unfolding select
compared-le_example = compared-le env 400 tries db {c = challenge} {rest = []} refl (omega arith)

verify-true_iff_example :
    ((db' : IdentityDb)
      → verify_otp_text env "id" 400 "123456" 1000 db ≡ returned db' true
      → Acceptable env 400 "id" "123456" 1000 db × (db' ≡ after_try env 400 true db))
    × (Acceptable env 400 "id" "123456" 1000 db
        → verify_otp_text env "id" 400 "123456" 1000 db ≡ returned (after_try env 400 true db) true)
verify-true_iff_example = verify-true_iff env 400 "id" "123456" 1000 db

abbrev digest : List ℕ
digest = 9 ∷ 4 ∷ []

abbrev world : OtpWorld
world = record { identity = db; simulator = [] }

abbrev pub request_at : ℕ → OtpDraws
request_at now = record {
  challenge_id = 401;
  attempt_id = 450;
  raw_otp = "654321";
  now = now;
  db_now = now;
}

request_otp_challenge-spaced_example :
    All (λ c. is_recent 50 200000 c ≡ true → c.created_at + 120000 ≤ 200000) db.otp_challenges
unfolding request_otp_challenge check_cooldown recent_challenges select sort_desc any
    challenge_violates delivery_attempt_violates
request_otp_challenge-spaced_example =
    request_otp_challenge-spaced env 50 (request_at 200000) world refl

abbrev issued_world : OtpWorld
issued_world = final (request_otp_challenge env 50 (request_at 200000) world)

abbrev issued : OtpIssued
issued = record { challenge_id = 401; resend_available_at = 320000; expires_at = 500000 }

request-verify_example :
    (get_simulator_otp 401 issued_world ≡ some "654321")
    × (verify_otp_challenge env 401 "654321" 500000 issued_world.identity
        ≡ returned (after_try env 401 true issued_world.identity) true)
unfolding request_otp_challenge check_cooldown recent_challenges select sort_desc any
    challenge_violates delivery_attempt_violates
request-verify_example =
    request-verify env 50 (request_at 200000) world {w' = issued_world} {r = issued} refl 500000
      (omega arith)

-- Two calls begin on the same row, and both compare.
abbrev schedule : List Half
schedule = begins "1" 1000 ∷ begins "12" 1000 ∷ ends 0 ∷ begins "123456" 2000 ∷ ends 1 ∷ ends 0 ∷ []

race-le_example : 1 + (run env 400 (start db) schedule).comparisons < 3 + 2
unfolding select IsWithin half judge nth without update timing_safe_verify
race-le_example =
    race-le env 400 2 db {c = challenge} {rest = []} refl (omega arith) (omega arith) schedule
      (refl, (refl, (refl, (refl, (refl, (refl, tt))))))

race-met_example :
    (hs : List Half) × IsWithin env 400 4 (start db) hs
    × (challenge.attempts_count + (run env 400 (start db) hs).comparisons + 1
        ≡ challenge.max_attempts + 4)
unfolding select timing_safe_verify
race-met_example =
    race-met env 400 1000 4 "1" db {c = challenge} {rest = []} refl refl (omega arith) (omega arith)
      refl (omega arith)
