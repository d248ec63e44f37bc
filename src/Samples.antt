-- ===== src/Samples.antt =====
-- A small database and simple stand-ins for the outside functions, on which the theorems are applied.
-- The children apply the theorems of one part each.
mod Sessions
mod Histories
mod Admissions
mod Codes
mod Pins
mod Messages
mod Accounts
mod Mailboxes
mod Requests
mod Transport
mod Servers
use Prim.Native.String.{len}
use text.Mathlib.Text.{◌==◌ as str_eq}
use guff_suff.Prelude.{ℕ, Bool, true, false, Option, none, some, List, [], ◌∷◌, length}
use guff_suff.Environment.{Environment, Claims}
use guff_suff.Schema.{Db}
use guff_suff.Schema.Identity.{
  User, AccountState, Device, Platform, Session, RefreshTokenFamily, RefreshToken, IdentityDb,
}
use guff_suff.Schema.Transport.{TransportDb}
use guff_suff.Session.{SessionDraws, RotationDraws}

abbrev sixteen : List ℕ
sixteen = 1 ∷ 2 ∷ 3 ∷ 4 ∷ 5 ∷ 6 ∷ 7 ∷ 8 ∷ 9 ∷ 10 ∷ 11 ∷ 12 ∷ 13 ∷ 14 ∷ 15 ∷ 16 ∷ []

-- Every token verifies to the claims `c`; a digest is the length of what is digested.
abbrev pub env_with : Bool → Claims → Environment
env_with checked c = record {
  references_checked = checked;
  node_env = none;
  jwt_access_secret = none;
  otp_verifier_pepper_v1 = none;
  registration_lock_pepper = none;
  phone_encryption_secret = none;
  phone_hmac_pepper = none;
  sha256 = len;
  sha256_bytes = length;
  hmac_sha256 = λ key text. len text ∷ [];
  base64_bytes = λ text. len text ∷ [];
  parse_phone_number = λ text country. some (record { is_valid = true; number = text });
  aes_256_gcm = λ key iv text. (72 ∷ 105 ∷ [], sixteen);
  aes_256_gcm_open = λ key iv tag ciphertext. some "+9779812345678";
  to_lower_case = λ text. text;
  parse_uuid = λ text. some (len text);
  parse_datetime = λ text. some (len text);
  query_text = λ value. "value";
  uuid_text = λ i. "id";
  jwt_sign = λ claims secret ttl options now. "signed";
  jwt_verify = λ token secret options now. some c;
  argon2_hash = λ text salt. text;
  argon2_verify = λ hash text. str_eq hash text;
}

abbrev pub claims_for : ℕ → ℕ → ℕ → Claims
claims_for session user device = record {
  session_id = session;
  user_id = user;
  device_id = device;
  session_version = 1;
}

abbrev user_row : ℕ → User
user_row i = record {
  id = i;
  account_state = AccountState.active;
  terms_accepted_at = 0;
  privacy_accepted_at = 0;
  locale = "ne-NP";
  timezone = "Asia/Kathmandu";
  created_at = 0;
  updated_at = 0;
}

abbrev device_row : ℕ → ℕ → Device
device_row i user = record {
  id = i;
  user_id = user;
  installation_id = "installation";
  device_name = "phone";
  platform = Platform.android;
  app_version = "1";
  os_version = "14";
  notification_token_status = "granted";
  is_revoked = false;
  revoked_at = none;
  revoked_reason = none;
  created_at = 0;
  last_seen_at = 0;
}

abbrev session_row : ℕ → ℕ → ℕ → Session
session_row i user device = record {
  id = i;
  user_id = user;
  device_id = device;
  session_version = 1;
  created_at = 0;
  expires_at = 1000000;
  revoked_at = none;
}

abbrev pub family : RefreshTokenFamily
family = record {
  id = 200;
  user_id = 1;
  device_id = 10;
  is_compromised = false;
  created_at = 0;
  updated_at = 0;
}

-- A token of the family, with the length of its text.
abbrev pub fresh_token : ℕ → ℕ → RefreshToken
fresh_token i size = record {
  id = i;
  family_id = 200;
  token_verifier_hash = size;
  parent_token_id = none;
  replacement_token_id = none;
  expires_at = 1000000;
  is_rotated = false;
  rotated_at = none;
  is_revoked = false;
  revoked_at = none;
  created_at = 0;
}

-- The token with the text "abc", after its rotation at 1000.
abbrev pub old_token : RefreshToken
old_token = record (fresh_token 300 3) {
  is_rotated = true;
  rotated_at = some 1000;
  replacement_token_id = some 301;
}

-- Two users; the first has two devices with a session on each.
abbrev pub db_with : List RefreshToken → IdentityDb
db_with tokens = record {
  users = user_row 1 ∷ user_row 2 ∷ [];
  phone_identities = [];
  user_profiles = [];
  usernames = [];
  privacy_settings = [];
  devices = device_row 10 1 ∷ device_row 11 1 ∷ device_row 20 2 ∷ [];
  sessions = session_row 100 1 10 ∷ session_row 101 1 11 ∷ [];
  refresh_token_families = family ∷ [];
  refresh_tokens = tokens;
  otp_challenges = [];
  otp_delivery_attempts = [];
  security_events = [];
  registration_lock_credentials = [];
  registration_lock_attempts = [];
  audit_events = [];
}

abbrev pub rotated_db : IdentityDb
rotated_db = db_with (old_token ∷ fresh_token 301 4 ∷ [])

abbrev pub unrotated_db : IdentityDb
unrotated_db = db_with (fresh_token 300 3 ∷ [])

abbrev pub full_db : TransportDb → Db
full_db t = record { identity = unrotated_db; transport = t }

abbrev pub rotation_at : ℕ → RotationDraws
rotation_at now = record {
  checked_at = now;
  seen_at = now;
  now = now;
  signed_at = now;
  db_now = now;
  claimed_session_id = 900;
  reported_session_id = 901;
  token_uuid = 7;
  token_entropy = "entropy";
  token_id = 302;
  event_id = 500;
}

abbrev pub login_at : ℕ → SessionDraws
login_at now = record {
  session_id = 102;
  family_id = 201;
  token_uuid = 7;
  token_entropy = "entropy";
  token_id = 303;
  now = now;
  signed_at = now;
}
