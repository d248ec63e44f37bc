-- ===== src/Samples/Accounts.antt =====
-- The registration of accounts, and stored phone numbers.
use guff_suff.Prelude.{
  ◌≡◌, ◌≢◌, refl, ◌⊎◌, inr, true, false, map, none, some, List, [], ◌∷◌, any, select, ℕ,
}
use guff_suff.Errors.{unverified_challenge}
use guff_suff.Action.{returned, final}
use guff_suff.Environment.{Environment}
use guff_suff.Schema.Identity.{OtpChallenge, IdentityDb, Platform, JsonValue}
use guff_suff.Schema.Constraints.{
  security_event_violates, audit_event_violates, session_violates, family_violates, token_violates,
}
use guff_suff.Schema.AccountConstraints.{
  user_violates, phone_violates, profile_violates, username_violates, device_violates,
  privacy_violates, is_canonical_username,
}
use guff_suff.Session.{create_session, created_pair}
use guff_suff.Phone.{normalize_to_e164, encrypt_phone_number, decrypt_phone_number, decrypt-encrypt}
use guff_suff.Account.{
  new_user, new_profile, new_username, new_privacy, get_privacy_settings, is_username_available,
  RegisterParams, RegisterDraws, Registered, register_account, registration_body,
}
use guff_suff.Account.Queries.{get_profile, get_security_events, profile_view}
use guff_suff.Account.Views.{register-views, get_security_events-with_metadata, with_metadata}
use guff_suff.Account.Registration.{Committed, register-Committed, register-threw, register_unique}
use guff_suff.Samples.{env_with, claims_for, unrotated_db}

abbrev env : Environment
env = env_with true (claims_for 100 1 10)

abbrev verified : ℕ → OtpChallenge
verified i = record {
  id = i;
  phone_blind_index = 50;
  verifier_hash = 9 ∷ [];
  attempts_count = 1;
  max_attempts = 3;
  expires_at = 300000;
  resend_available_at = 120000;
  is_verified = true;
  created_at = 0;
}

abbrev db : IdentityDb
db = record unrotated_db { otp_challenges = verified 400 ∷ verified 401 ∷ [] }

abbrev pub params : ℕ → RegisterParams
params challenge = record {
  challenge_id = challenge;
  phone_number = " ९८४१२३४५६७ ";
  display_name = "Ram";
  username = "ram_01";
  installation_id = "installation";
  device_name = "phone";
  platform = Platform.android;
  app_version = "1";
  os_version = "14";
  locale = none;
  timezone = none;
}

abbrev vector : List ℕ
vector = 1 ∷ 2 ∷ 3 ∷ 4 ∷ 5 ∷ 6 ∷ 7 ∷ 8 ∷ 9 ∷ 10 ∷ 11 ∷ 12 ∷ []

abbrev pub draws : RegisterDraws
draws = record {
  user_id = 3;
  phone_id = 30;
  iv = vector;
  username_id = 31;
  device_id = 32;
  event_id = 33;
  audit_id = 34;
  correlation_id = 35;
  now = 1000;
  session = record {
    session_id = 36;
    family_id = 37;
    token_uuid = 38;
    token_entropy = "entropy";
    token_id = 39;
    now = 1000;
    signed_at = 1000;
  };
}

abbrev pub response : Registered
response = record {
  user_id = 3;
  username = "ram_01";
  display_name = "Ram";
  device_id = 32;
  tokens = created_pair env 3 32 draws.session;
}

register-Committed_example :
    (mid : IdentityDb) × Committed env (params 400) draws db mid
    × (create_session env 3 32 draws.session mid
        ≡ returned (final (register_account env (params 400) draws db)) response.tokens)
unfolding register_account registration_body select normalize_to_e164 any user_violates
    phone_violates profile_violates username_violates is_canonical_username device_violates
    privacy_violates security_event_violates audit_event_violates create_session session_violates
    family_violates token_violates
register-Committed_example =
    register-Committed env (params 400) draws db
      {db' = final (register_account env (params 400) draws db)} {r = response} refl

register-threw_example : (db ≡ db) ⊎ Committed env (params 999) draws db db
unfolding register_account registration_body select
register-threw_example =
    register-threw env (params 999) draws db {db' = db} {e = unverified_challenge} refl

-- The second challenge is for the same phone number.
register_unique_example :
    register_account env (params 401) draws (final (register_account env (params 400) draws db))
    ≢ returned db response
unfolding register_account registration_body select normalize_to_e164 any user_violates
    phone_violates profile_violates username_violates is_canonical_username device_violates
    privacy_violates security_event_violates audit_event_violates create_session session_violates
    family_violates token_violates
register_unique_example =
    register_unique env (params 400) draws db {c = verified 400} {cs = []} refl
      {db' = final (register_account env (params 400) draws db)} {r = response} refl (params 401)
      draws {c' = verified 401} {cs' = []} refl (inr refl) {after = db} {r' = response}

decrypt-encrypt_example :
    decrypt_phone_number env (encrypt_phone_number env "+9779812345678" vector)
    ≡ some "+9779812345678"
decrypt-encrypt_example = decrypt-encrypt env "+9779812345678" vector refl refl refl

abbrev registered_db : IdentityDb
registered_db = final (register_account env (params 400) draws db)

register-views_example :
    (get_profile 3 registered_db
      ≡ returned registered_db (
          profile_view
            (new_user (params 400) draws)
            (new_profile (params 400) draws)
            (some (new_username env (params 400) draws))))
    × (get_privacy_settings 3 registered_db ≡ returned registered_db (new_privacy draws))
    × (is_username_available env "ram_01" registered_db ≡ false)
unfolding register_account registration_body select normalize_to_e164 any user_violates
    phone_violates profile_violates username_violates is_canonical_username device_violates
    privacy_violates security_event_violates audit_event_violates create_session session_violates
    family_violates token_violates
register-views_example =
    register-views env (params 400) draws db {db' = registered_db} {r = response} refl

get_security_events-with_metadata_example :
    get_security_events 3 (record registered_db {
      security_events =
          map
            (with_metadata (λ e. ("ip", JsonValue.text "10.0.0.1") ∷ []))
            registered_db.security_events;
    })
    ≡ get_security_events 3 registered_db
get_security_events-with_metadata_example =
    get_security_events-with_metadata (λ e. ("ip", JsonValue.text "10.0.0.1") ∷ []) 3 registered_db
