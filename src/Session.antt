-- ===== src/Session.antt =====
-- services/api/src/identity/session.service.ts: access tokens, sessions, and refresh tokens that are
-- rotated at each use. The identifiers and random bytes that a call draws, and the times that it
-- reads, are a record of draws: one name for each place of the source that draws or reads.
pub mod Rotation
pub mod Cases
pub mod Families
pub mod Reuse
pub mod Found
use Prim.Native.String.{◌++◌}
use guff_suff.Prelude.{
  ℕ, ◌+◌, ◌*◌, String, Bool, true, false, Option, none, some, List, [], ◌∷◌, not, ◌&&◌, ◌||◌, ltb,
  leb, ◌==◌, if◌then◌else◌, any, select, update, join, get_or,
}
use guff_suff.Errors.{unknown_refresh_token, invalid_refresh_token, refresh_token_reuse}
use guff_suff.Action.{Action, ◌>>=◌, ◌>>◌, pure, throw, gets, modify, atomically, insert}
use guff_suff.Environment.{Environment, Claims, JwtOptions, env_or}
use guff_suff.Schema.Identity.{
  Session, RefreshTokenFamily, RefreshToken, SecurityEvent, JsonValue, Severity, IdentityDb,
}
use guff_suff.Schema.Constraints.{
  insert_session, insert_family, insert_token, insert_security_event, replacement_violates,
}

pub record TokenPair : Type 0 where
  pub access_token : String
  pub refresh_token : String
  pub expires_in_seconds : ℕ
  pub session_id : ℕ
  pub family_id : ℕ

abbrev pub access_token_ttl : ℕ
access_token_ttl = 15 * 60

abbrev pub refresh_token_ttl_days : ℕ
refresh_token_ttl_days = 30

abbrev pub concurrent_grace_ms : ℕ
concurrent_grace_ms = 10 * 1000

abbrev pub jwt_options : JwtOptions
jwt_options = record { issuer = "guffsuff-api"; audience = "guffsuff-client" }

pub record SessionDraws : Type 0 where
  pub session_id : ℕ
  pub family_id : ℕ
  pub token_uuid : ℕ
  pub token_entropy : String
  pub token_id : ℕ
  pub now : ℕ
  -- by jsonwebtoken
  pub signed_at : ℕ

pub record RotationDraws : Type 0 where
  -- the check of the expiry, that of the grace window, the rotation, and jsonwebtoken
  pub checked_at : ℕ
  pub seen_at : ℕ
  pub now : ℕ
  pub signed_at : ℕ
  pub db_now : ℕ
  pub claimed_session_id : ℕ
  pub reported_session_id : ℕ
  pub token_uuid : ℕ
  pub token_entropy : String
  pub token_id : ℕ
  pub event_id : ℕ

abbrev pub linked_to : RotationDraws → RefreshToken → RefreshToken
linked_to d rt = record rt {
  is_rotated = true;
  rotated_at = some d.now;
  replacement_token_id = some d.token_id;
}

-- How the transaction of a rotation ends, when it commits.
pub data RotationEnd : Type 0 where
  in_grace : RefreshTokenFamily → RotationEnd
  reuse_detected : RotationEnd
  rotated : RefreshTokenFamily → RotationEnd

-- The refresh tokens with a verifier hash, each with its family.
unfoldable pub find_token : ℕ → IdentityDb → List (RefreshToken × RefreshTokenFamily)
find_token hash db =
    join (λ rt rf. rt.family_id == rf.id)
      (select (λ rt. rt.token_verifier_hash == hash) db.refresh_tokens) db.refresh_token_families

abbrev pub reuse_event : RefreshToken → RefreshTokenFamily → RotationDraws → SecurityEvent
reuse_event t f d = record {
  id = d.event_id;
  user_id = f.user_id;
  device_id = some f.device_id;
  event_type = "refresh_token_reuse_detected";
  severity = Severity.high;
  user_description_key = "sec_event.refresh_token_reuse";
  device_context_json = [];
  internal_metadata_json =
      ("familyId", JsonValue.id t.family_id) ∷ ("attemptedTokenId", JsonValue.id t.id) ∷ [];
  is_read = false;
  created_at = d.db_now;
}

-- SET is_compromised = true, updated_at
abbrev pub flagged_at : ℕ → RefreshTokenFamily → RefreshTokenFamily
flagged_at now rf = record rf { is_compromised = true; updated_at = now }

-- SET is_revoked = true, revoked_at
abbrev pub token_revoked_at : ℕ → RefreshToken → RefreshToken
token_revoked_at now rt = record rt { is_revoked = true; revoked_at = some now }

-- SET revoked_at
abbrev pub session_revoked_at : ℕ → Session → Session
session_revoked_at now s = record s { revoked_at = some now }

-- The three UPDATE statements that follow a detected reuse.
unfoldable pub compromise : RefreshToken → RefreshTokenFamily → ℕ → IdentityDb → IdentityDb
compromise t f db_now db = record db {
  refresh_token_families =
      update (λ rf. rf.id == t.family_id) (flagged_at db_now) db.refresh_token_families;
  refresh_tokens =
      update (λ rt. rt.family_id == t.family_id) (token_revoked_at db_now) db.refresh_tokens;
  sessions =
      update (λ s. (s.user_id == f.user_id) && (s.device_id == f.device_id))
        (session_revoked_at db_now) db.sessions;
}

-- The replacement of a token, if it has one that is not revoked.
unfoldable pub live_replacement : Option ℕ → IdentityDb → Bool
live_replacement none db = false
live_replacement (some i) db = any (λ rt. (rt.id == i) && not rt.is_revoked) db.refresh_tokens

-- `new Date(null).getTime()` is 0.
abbrev pub within_grace : RefreshToken → ℕ → Bool
within_grace t now = leb now (get_or t.rotated_at 0 + concurrent_grace_ms)

abbrev pub session_expires_at : SessionDraws → ℕ
session_expires_at d = d.now + refresh_token_ttl_days * 24 * 60 * 60 * 1000

abbrev pub created_session : ℕ → ℕ → SessionDraws → Session
created_session user_id device_id d = record {
  id = d.session_id;
  user_id = user_id;
  device_id = device_id;
  session_version = 1;
  created_at = d.now;
  expires_at = session_expires_at d;
  revoked_at = none;
}

abbrev pub created_family : ℕ → ℕ → SessionDraws → RefreshTokenFamily
created_family user_id device_id d = record {
  id = d.family_id;
  user_id = user_id;
  device_id = device_id;
  is_compromised = false;
  created_at = d.now;
  updated_at = d.now;
}

module _ (env : Environment) where
  abbrev pub jwt_secret : String
  jwt_secret = env_or env.jwt_access_secret "default_guffsuff_jwt_secret_v1_secure_32bytes!!"

  abbrev pub hash_refresh_token : String → ℕ
  hash_refresh_token token = env.sha256 token

  abbrev pub generate_access_token : Claims → ℕ → String
  generate_access_token payload now =
      env.jwt_sign payload jwt_secret access_token_ttl jwt_options now

  abbrev pub verify_access_token : String → ℕ → Option Claims
  verify_access_token token now = env.jwt_verify token jwt_secret jwt_options now

  abbrev pub raw_token : ℕ → String → String
  raw_token uuid entropy = env.uuid_text uuid ++ ("." ++ entropy)

  abbrev pub created_token : SessionDraws → RefreshToken
  created_token d = record {
    id = d.token_id;
    family_id = d.family_id;
    token_verifier_hash = hash_refresh_token (raw_token d.token_uuid d.token_entropy);
    parent_token_id = none;
    replacement_token_id = none;
    expires_at = session_expires_at d;
    is_rotated = false;
    rotated_at = none;
    is_revoked = false;
    revoked_at = none;
    created_at = d.now;
  }

  create_rows : ℕ → ℕ → SessionDraws → Action IdentityDb (Unit {0})
  create_rows user_id device_id d = do
    insert_session env (created_session user_id device_id d)
    insert_family env (created_family user_id device_id d)
    insert_token env (created_token d)

  abbrev pub created_pair : ℕ → ℕ → SessionDraws → TokenPair
  created_pair user_id device_id d = record {
    access_token =
        generate_access_token
          (record {
            session_id = d.session_id;
            user_id = user_id;
            device_id = device_id;
            session_version = 1;
          })
          d.signed_at;
    refresh_token = raw_token d.token_uuid d.token_entropy;
    expires_in_seconds = access_token_ttl;
    session_id = d.session_id;
    family_id = d.family_id;
  }

  unfoldable pub create_session : ℕ → ℕ → SessionDraws → Action IdentityDb TokenPair
  unfolding create_rows
  create_session user_id device_id d = do
    atomically (create_rows user_id device_id d)
    pure (created_pair user_id device_id d)

  unfoldable pub report_reuse :
      RefreshToken → RefreshTokenFamily → RotationDraws → Action IdentityDb RotationEnd
  report_reuse t f d = do
    modify (compromise t f d.db_now)
    insert_security_event env (reuse_event t f d)
    pure reuse_detected

  handle_rotated : RefreshToken → RefreshTokenFamily → RotationDraws → Action IdentityDb RotationEnd
  handle_rotated t f d db =
      if within_grace t d.seen_at && live_replacement t.replacement_token_id db
      then pure (in_grace f) db
      else report_reuse t f d db

  abbrev pub replacement_of : RefreshToken → RotationDraws → RefreshToken
  replacement_of t d = record {
    id = d.token_id;
    family_id = t.family_id;
    token_verifier_hash = hash_refresh_token (raw_token d.token_uuid d.token_entropy);
    parent_token_id = some t.id;
    replacement_token_id = none;
    expires_at = t.expires_at;
    is_rotated = false;
    rotated_at = none;
    is_revoked = false;
    revoked_at = none;
    created_at = d.now;
  }

  -- UPDATE refresh_tokens SET is_rotated, rotated_at, replacement_token_id WHERE id
  unfoldable pub mark_rotated : RefreshToken → RotationDraws → Action IdentityDb (Unit {0})
  mark_rotated t d = insert (replacement_violates env d.token_id) (λ db. record db {
    refresh_tokens = update (λ rt. rt.id == t.id) (linked_to d) db.refresh_tokens;
  })

  replace_token : RefreshToken → RefreshTokenFamily → RotationDraws → Action IdentityDb RotationEnd
  unfolding mark_rotated
  replace_token t f d = do mark_rotated t d; insert_token env (replacement_of t d); pure (rotated f)

  check_token :
      RotationDraws → List (RefreshToken × RefreshTokenFamily) → Action IdentityDb RotationEnd
  unfolding handle_rotated replace_token
  check_token d [] db = throw unknown_refresh_token db
  check_token d ((t, f) ∷ rest) db =
      if f.is_compromised || (t.is_revoked || ltb t.expires_at d.checked_at)
      then throw invalid_refresh_token db
      else if t.is_rotated
      then handle_rotated t f d db
      else replace_token t f d db

  abbrev pub rotated_pair : String → RefreshTokenFamily → RotationDraws → TokenPair
  rotated_pair token f d = record {
    access_token =
        generate_access_token
          (record {
            session_id = d.claimed_session_id;
            user_id = f.user_id;
            device_id = f.device_id;
            session_version = 1;
          })
          d.signed_at;
    refresh_token = token;
    expires_in_seconds = access_token_ttl;
    session_id = d.reported_session_id;
    family_id = f.id;
  }

  -- What follows the COMMIT. A throw there takes nothing back.
  unfoldable pub finish : String → RotationDraws → RotationEnd → Action IdentityDb TokenPair
  finish raw d (in_grace f) = pure (rotated_pair raw f d)
  finish raw d reuse_detected = throw refresh_token_reuse
  finish raw d (rotated f) = pure (rotated_pair (raw_token d.token_uuid d.token_entropy) f d)

  abbrev rotation_body : String → RotationDraws → Action IdentityDb RotationEnd
  rotation_body raw d = gets (find_token (hash_refresh_token raw)) >>= check_token d

  unfoldable pub rotate_refresh_token : String → RotationDraws → Action IdentityDb TokenPair
  unfolding check_token finish
  rotate_refresh_token raw d = do end ← atomically (rotation_body raw d); finish raw d end

-- UPDATE sessions SET revoked_at = NOW() WHERE id
unfoldable pub revoke_session : ℕ → ℕ → Action IdentityDb (Unit {0})
revoke_session session_id db_now = modify (λ db. record db {
  sessions = update (λ s. s.id == session_id) (session_revoked_at db_now) db.sessions;
})

-- Three statements, each in a transaction of its own.
unfoldable pub revoke_all_sessions_for_user : ℕ → ℕ → Action IdentityDb (Unit {0})
revoke_all_sessions_for_user user_id db_now = do
  modify (λ db. record db {
    sessions = update (λ s. s.user_id == user_id) (session_revoked_at db_now) db.sessions;
  })
  modify (λ db. record db {
    refresh_token_families =
        update (λ rf. rf.user_id == user_id) (flagged_at db_now) db.refresh_token_families;
  })
  modify (λ db. record db {
    refresh_tokens =
        update
          (λ rt.
            any (λ rf. (rf.id == rt.family_id) && (rf.user_id == user_id))
              db.refresh_token_families)
          (token_revoked_at db_now) db.refresh_tokens;
  })
