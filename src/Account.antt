-- ===== src/Account.antt =====
-- services/api/src/identity/account.service.ts
pub mod Registration
pub mod Queries
pub mod Views
use text.Mathlib.Text.{◌==◌ as str_eq}
use guff_suff.Prelude.{
  ℕ, String, Bool, true, false, Option, none, some, List, [], ◌∷◌, not, ◌==◌, if◌then◌else◌, any,
  select,
}
use guff_suff.Errors.{
  unverified_challenge, bad_phone_number, phone_taken, username_taken, settings_not_found,
}
use guff_suff.Action.{Action, ◌>>=◌, ◌>>◌, pure, throw, atomically}
use guff_suff.Environment.{Environment, env_or}
use guff_suff.Schema.Identity.{
  User, AccountState, PhoneIdentity, UserProfile, Username, PrivacySettings, Device, Platform,
  android, ios, web, desktop, OtpChallenge, SecurityEvent, AuditEvent, JsonValue, Severity,
  IdentityDb,
}
use guff_suff.Schema.Constraints.{insert_security_event, insert_audit_event}
use guff_suff.Schema.AccountConstraints.{
  insert_user, insert_phone, insert_profile, insert_username, insert_device, insert_privacy,
}
use guff_suff.Phone.{normalize_to_e164, encrypt_phone_number}
use guff_suff.Session.{TokenPair, SessionDraws, create_session}

-- `termsAccepted` and `privacyAccepted` are read nowhere.
pub record RegisterParams : Type 0 where
  pub challenge_id : ℕ
  pub phone_number : String
  pub display_name : String
  pub username : String
  pub installation_id : String
  pub device_name : String
  pub platform : Platform
  pub app_version : String
  pub os_version : String
  pub locale : Option String
  pub timezone : Option String

pub record RegisterDraws : Type 0 where
  pub user_id : ℕ
  pub phone_id : ℕ
  pub iv : List ℕ
  pub username_id : ℕ
  pub device_id : ℕ
  pub event_id : ℕ
  pub audit_id : ℕ
  pub correlation_id : ℕ
  pub now : ℕ
  pub session : SessionDraws

pub record Registered : Type 0 where
  pub user_id : ℕ
  pub username : String
  pub display_name : String
  pub device_id : ℕ
  pub tokens : TokenPair

abbrev platform_text : Platform → String
platform_text android = "android"
platform_text ios = "ios"
platform_text web = "web"
platform_text desktop = "desktop"

abbrev pub new_user : RegisterParams → RegisterDraws → User
new_user p d = record {
  id = d.user_id;
  account_state = AccountState.active;
  terms_accepted_at = d.now;
  privacy_accepted_at = d.now;
  locale = env_or p.locale "ne";
  timezone = env_or p.timezone "Asia/Kathmandu";
  created_at = d.now;
  updated_at = d.now;
}

abbrev pub new_profile : RegisterParams → RegisterDraws → UserProfile
new_profile p d = record {
  user_id = d.user_id;
  display_name = p.display_name;
  avatar_object_key = none;
  bio = none;
  profile_visibility = "contacts_only";
  created_at = d.now;
  updated_at = d.now;
}

abbrev pub new_device : RegisterParams → RegisterDraws → Device
new_device p d = record {
  id = d.device_id;
  user_id = d.user_id;
  installation_id = p.installation_id;
  device_name = p.device_name;
  platform = p.platform;
  app_version = p.app_version;
  os_version = p.os_version;
  notification_token_status = "disabled";
  is_revoked = false;
  revoked_at = none;
  revoked_reason = none;
  created_at = d.now;
  last_seen_at = d.now;
}

abbrev pub new_privacy : RegisterDraws → PrivacySettings
new_privacy d = record {
  user_id = d.user_id;
  last_seen_visibility = "contacts_only";
  online_status_visibility = "contacts_only";
  profile_photo_visibility = "contacts_only";
  phone_number_visibility = "nobody";
  read_receipts = true;
  phone_discoverability = false;
  security_notifications = true;
  notification_previews = true;
  updated_at = d.now;
}

abbrev pub registration_event : RegisterParams → RegisterDraws → SecurityEvent
registration_event p d = record {
  id = d.event_id;
  user_id = d.user_id;
  device_id = some d.device_id;
  event_type = "account_registered";
  severity = Severity.low;
  user_description_key = "sec_event.registration_complete";
  device_context_json =
      ("deviceName", JsonValue.text p.device_name)
      ∷ ("platform", JsonValue.text (platform_text p.platform))
      ∷ [];
  internal_metadata_json = [];
  is_read = false;
  created_at = d.now;
}

abbrev pub registration_audit : String → RegisterDraws → AuditEvent
registration_audit canonical d = record {
  id = d.audit_id;
  actor_type = "user";
  actor_id = d.user_id;
  action = "account_registered";
  target_type = "user";
  target_id = d.user_id;
  reason = some "Registration completed";
  correlation_id = d.correlation_id;
  request_id = d.correlation_id;
  outcome = "success";
  after_state_json =
      ("userId", JsonValue.id d.user_id) ∷ ("username", JsonValue.text canonical) ∷ [];
  created_at = d.now;
}

abbrev pub phone_registered : ℕ → IdentityDb → Bool
phone_registered phone db = any (λ r. r.phone_blind_index == phone) db.phone_identities

abbrev pub username_registered : String → IdentityDb → Bool
username_registered canonical db = any (λ r. str_eq r.username_canonical canonical) db.usernames

module _ (env : Environment) where
  abbrev pub canonical_username : RegisterParams → String
  canonical_username p = env.to_lower_case p.username

  abbrev pub new_phone : ℕ → String → RegisterDraws → PhoneIdentity
  new_phone blind_index e164 d = record {
    id = d.phone_id;
    user_id = d.user_id;
    phone_encrypted = encrypt_phone_number env e164 d.iv;
    phone_blind_index = blind_index;
    is_primary = true;
    verified_at = d.now;
    created_at = d.now;
    updated_at = d.now;
  }

  abbrev pub new_username : RegisterParams → RegisterDraws → Username
  new_username p d = record {
    id = d.username_id;
    user_id = d.user_id;
    username_canonical = canonical_username p;
    username_display = p.username;
    assigned_at = d.now;
    cooldown_until = d.now;
  }

  insert_account : ℕ → String → RegisterParams → RegisterDraws → Action IdentityDb (Unit {0})
  insert_account blind_index e164 p d = do
    insert_user (new_user p d)
    insert_phone env (new_phone blind_index e164 d)
    insert_profile env (new_profile p d)
    insert_username env (new_username p d)
    insert_device env (new_device p d)
    insert_privacy env (new_privacy d)
    insert_security_event env (registration_event p d)
    insert_audit_event (registration_audit (canonical_username p) d)

  check_free : ℕ → String → RegisterParams → RegisterDraws → Action IdentityDb (Unit {0})
  unfolding insert_account
  check_free blind_index e164 p d db =
      if phone_registered blind_index db
      then throw phone_taken db
      else if username_registered (canonical_username p) db
      then throw username_taken db
      else insert_account blind_index e164 p d db

  with_phone : ℕ → Option String → RegisterParams → RegisterDraws → Action IdentityDb (Unit {0})
  unfolding check_free
  with_phone blind_index none p d = throw bad_phone_number
  with_phone blind_index (some e164) p d = check_free blind_index e164 p d

  with_challenge : RegisterParams → RegisterDraws → List OtpChallenge → Action IdentityDb (Unit {0})
  unfolding with_phone
  with_challenge p d [] db = throw unverified_challenge db
  with_challenge p d (c ∷ rest) db =
      if not c.is_verified
      then throw unverified_challenge db
      else with_phone c.phone_blind_index (normalize_to_e164 env p.phone_number "NP") p d db

  unfoldable pub registration_body : RegisterParams → RegisterDraws → Action IdentityDb (Unit {0})
  unfolding with_challenge
  registration_body p d db =
      with_challenge p d (select (λ c. c.id == p.challenge_id) db.otp_challenges) db

  -- The tokens are issued after the COMMIT.
  unfoldable pub register_account : RegisterParams → RegisterDraws → Action IdentityDb Registered
  register_account p d = do
    atomically (registration_body p d)
    pair ← create_session env d.user_id d.device_id d.session
    pure (record {
      user_id = d.user_id;
      username = canonical_username p;
      display_name = p.display_name;
      device_id = d.device_id;
      tokens = pair;
    })

  unfoldable pub is_username_available : String → IdentityDb → Bool
  is_username_available username db = not (username_registered (env.to_lower_case username) db)

first_settings : List PrivacySettings → Action IdentityDb PrivacySettings
first_settings [] = throw settings_not_found
first_settings (s ∷ rest) = pure s

unfoldable pub get_privacy_settings : ℕ → Action IdentityDb PrivacySettings
unfolding first_settings
get_privacy_settings user_id db =
    first_settings (select (λ s. s.user_id == user_id) db.privacy_settings) db
