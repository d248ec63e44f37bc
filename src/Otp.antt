-- ===== src/Otp.antt =====
-- services/api/src/identity/otp.service.ts, otp.provider.ts and packages/otp-simulator/src/index.ts.
-- The state of a request is the database and the store of the simulator, one for the process.
pub mod Verify
pub mod Cooldown
pub mod Delivery
pub mod Race
use Prim.Native.String.{◌++◌}
use text.Mathlib.Text.{◌==◌ as str_eq}
use guff_suff.Prelude.{
  ℕ, ◌+◌, ◌-◌, ◌*◌, ◌/◌, String, Bool, true, false, Option, none, some, List, [], ◌∷◌, not, ◌&&◌,
  ◌||◌, ltb, leb, ◌==◌, if◌then◌else◌, length, select, update, remove, sort_desc,
}
use guff_suff.Errors.{
  unknown_challenge, already_verified, challenge_expired, attempts_exceeded, no_sms_provider,
  simulator_forbidden, cooldown_active,
}
use guff_suff.Action.{Outcome, returned, threw, Action, ◌>>=◌, ◌>>◌, pure, throw, gets, modify}
use guff_suff.Environment.{Environment, env_or}
use guff_suff.Schema.Identity.{OtpChallenge, OtpDeliveryAttempt, IdentityDb}
use guff_suff.Schema.Constraints.{insert_challenge, insert_delivery_attempt}

pub record SimulatorOtpRecord : Type 0 where
  pub challenge_id : ℕ
  pub phone_blind_index : ℕ
  pub otp_code : String
  pub created_at : ℕ

pub record OtpWorld : Type 0 where
  pub identity : IdentityDb
  pub simulator : List SimulatorOtpRecord

pub record OtpDeliveryResult : Type 0 where
  pub success : Bool
  pub provider_name : String
  pub provider_request_id : Option String
  pub cost_amount : ℕ
  pub cost_currency : String
  pub error_code : Option String

pub record OtpDraws : Type 0 where
  pub challenge_id : ℕ
  pub attempt_id : ℕ
  pub raw_otp : String
  pub now : ℕ
  pub db_now : ℕ

pub record OtpIssued : Type 0 where
  pub challenge_id : ℕ
  pub resend_available_at : ℕ
  pub expires_at : ℕ

pub data OtpProvider : Type 0 where
  development production : OtpProvider

abbrev pub in_world {ℓ} : {A : Type ℓ} → OtpWorld → Outcome IdentityDb A → Outcome OtpWorld A
in_world w (returned db a) = returned (record w { identity = db }) a
in_world w (threw db e) = threw (record w { identity = db }) e

-- A statement on the database.
abbrev pub on_identity {ℓ} : {A : Type ℓ} → Action IdentityDb A → Action OtpWorld A
on_identity m w = in_world w (m w.identity)

-- WHERE phone_blind_index AND created_at > NOW() - INTERVAL '24 hours'
abbrev pub is_recent : ℕ → ℕ → OtpChallenge → Bool
is_recent phone db_now c =
    (c.phone_blind_index == phone) && ltb db_now (c.created_at + 24 * 60 * 60 * 1000)

-- The rows of the last 24 hours, the newest first.
unfoldable pub recent_challenges : ℕ → ℕ → IdentityDb → List OtpChallenge
recent_challenges phone db_now db =
    sort_desc (λ c. c.created_at) (select (is_recent phone db_now) db.otp_challenges)

abbrev pub cooldown_seconds : List OtpChallenge → ℕ
cooldown_seconds [] = 60
cooldown_seconds (c ∷ []) = 120
cooldown_seconds (c ∷ c' ∷ rest) = 300

-- now - lastCreated < cooldownSeconds * 1000, and the seconds that remain, rounded up
unfoldable pub check_cooldown : ℕ → List OtpChallenge → Action OtpWorld (Unit {0})
check_cooldown now [] = pure tt
check_cooldown now (c ∷ rest) =
    let over = c.created_at + cooldown_seconds (c ∷ rest) * 1000 in
    λ w. if ltb now over then throw (cooldown_active ((over - now + 999) / 1000)) w else pure tt w

module _ (env : Environment) where
  abbrev pub is_deployed : Bool
  is_deployed =
      str_eq (env_or env.node_env "development") "production"
      || str_eq (env_or env.node_env "development") "staging"

  -- The constructor of OtpService.
  abbrev pub provider : OtpProvider
  provider = if is_deployed then production else development

  -- The hash is of the identifier's text, as the caller spells it.
  abbrev pub hash_of_text : String → String → List ℕ
  hash_of_text challenge_id otp_code =
      env.hmac_sha256
        (env_or env.otp_verifier_pepper_v1 "default_guffsuff_otp_pepper_v1_secure_key")
        (challenge_id ++ (":" ++ otp_code))

  abbrev pub compute_verifier_hash : ℕ → String → List ℕ
  compute_verifier_hash challenge_id otp_code = hash_of_text (env.uuid_text challenge_id) otp_code

  -- `Map.set`
  record_simulator_otp : SimulatorOtpRecord → Action OtpWorld (Unit {0})
  record_simulator_otp r w =
      if is_deployed
      then throw simulator_forbidden w
      else modify
          (λ v. record v {
            simulator = r ∷ remove (λ x. x.challenge_id == r.challenge_id) v.simulator;
          })
          w

  send_otp : OtpProvider → ℕ → ℕ → String → ℕ → Action OtpWorld OtpDeliveryResult
  unfolding record_simulator_otp
  send_otp development challenge_id phone code now = do
    record_simulator_otp (record {
      challenge_id = challenge_id;
      phone_blind_index = phone;
      otp_code = code;
      created_at = now;
    })
    pure (record {
      success = true;
      provider_name = "DEV_SIMULATOR";
      provider_request_id = some ("sim_" ++ env.uuid_text challenge_id);
      cost_amount = 0;
      cost_currency = "NPR";
      error_code = none;
    })
  send_otp production challenge_id phone code now = throw no_sms_provider

  abbrev pub new_challenge : ℕ → ℕ → OtpDraws → OtpChallenge
  new_challenge phone cooldown d = record {
    id = d.challenge_id;
    phone_blind_index = phone;
    verifier_hash = compute_verifier_hash d.challenge_id d.raw_otp;
    attempts_count = 0;
    max_attempts = 3;
    expires_at = d.now + 5 * 60 * 1000;
    resend_available_at = d.now + cooldown * 1000;
    is_verified = false;
    created_at = d.now;
  }

  delivery_attempt : OtpDraws → OtpDeliveryResult → OtpDeliveryAttempt
  delivery_attempt d r = record {
    id = d.attempt_id;
    challenge_id = d.challenge_id;
    provider_name = r.provider_name;
    provider_request_id = r.provider_request_id;
    status = if r.success then "DELIVERED" else "FAILED";
    cost_amount = r.cost_amount;
    cost_currency = r.cost_currency;
    error_code = r.error_code;
    created_at = d.now;
  }

  unfoldable pub request_otp_challenge : ℕ → OtpDraws → Action OtpWorld OtpIssued
  unfolding send_otp delivery_attempt
  request_otp_challenge phone d = do
    recent ← gets (λ w. recent_challenges phone d.db_now w.identity)
    check_cooldown d.now recent
    on_identity (insert_challenge (new_challenge phone (cooldown_seconds recent) d))
    delivery ← send_otp provider d.challenge_id phone d.raw_otp d.now
    on_identity (insert_delivery_attempt env (delivery_attempt d delivery))
    pure (record {
      challenge_id = d.challenge_id;
      resend_available_at = d.now + cooldown_seconds recent * 1000;
      expires_at = d.now + 5 * 60 * 1000;
    })

first_code : List SimulatorOtpRecord → Option String
first_code [] = none
first_code (r ∷ rest) = some r.otp_code

-- `Map.get`; the store has at most one record for each challenge.
unfoldable pub get_simulator_otp : ℕ → OtpWorld → Option String
unfolding first_code
get_simulator_otp challenge_id w =
    first_code (select (λ r. r.challenge_id == challenge_id) w.simulator)

unfoldable pub clear_simulator : OtpWorld → OtpWorld
clear_simulator w = record w { simulator = [] }

unfoldable pub timing_safe_equal : List ℕ → List ℕ → Bool
timing_safe_equal [] [] = true
timing_safe_equal (x ∷ xs) (y ∷ ys) = (x == y) && timing_safe_equal xs ys
timing_safe_equal _ _ = false

unfoldable pub timing_safe_verify : List ℕ → List ℕ → Bool
unfolding timing_safe_equal
timing_safe_verify candidate expected =
    if not (length candidate == length expected)
    then false
    else timing_safe_equal candidate expected

-- SET is_verified, attempts_count
abbrev pub counted : Bool → OtpChallenge → OtpChallenge
counted true c = record c { is_verified = true; attempts_count = c.attempts_count + 1 }
counted false c = record c { attempts_count = c.attempts_count + 1 }

module _ (env : Environment) where
  check_challenge : String → ℕ → String → ℕ → List OtpChallenge → Action IdentityDb Bool
  check_challenge text challenge_id candidate now [] db = throw unknown_challenge db
  check_challenge text challenge_id candidate now (c ∷ rest) db =
      if c.is_verified
      then throw already_verified db
      else if ltb c.expires_at now
      then throw challenge_expired db
      else if leb c.max_attempts c.attempts_count
      then throw attempts_exceeded db
      else let is_match = timing_safe_verify (hash_of_text env text candidate) c.verifier_hash in
        returned
          (record db {
            otp_challenges =
                update (λ r. r.id == challenge_id) (counted is_match) db.otp_challenges;
          })
          is_match

  -- The UUID comes as a text: PostgreSQL compares the identifier it denotes, the hash is of the
  -- text itself.
  unfoldable pub verify_otp_text : String → ℕ → String → ℕ → Action IdentityDb Bool
  unfolding check_challenge
  verify_otp_text text challenge_id candidate now = do
    rows ← gets (λ db. select (λ r. r.id == challenge_id) db.otp_challenges)
    check_challenge text challenge_id candidate now rows

  -- A call with the text that the request for the code returned.
  unfoldable pub verify_otp_challenge : ℕ → String → ℕ → Action IdentityDb Bool
  unfolding verify_otp_text
  verify_otp_challenge challenge_id candidate now =
      verify_otp_text (env.uuid_text challenge_id) challenge_id candidate now
