-- ===== src/Schema/Identity.antt =====
-- packages/database/migrations/001_create_identity_schema.sql
use guff_suff.Prelude.{ℕ, String, Bool, Option, List}

pub data AccountState : Type 0 where
  pending_profile active restricted suspended deletion_pending deleted : AccountState

pub record User : Type 0 where
  pub id : ℕ
  pub account_state : AccountState
  pub terms_accepted_at : ℕ
  pub privacy_accepted_at : ℕ
  pub locale : String
  pub timezone : String
  pub created_at : ℕ
  pub updated_at : ℕ

pub record PhoneIdentity : Type 0 where
  pub id : ℕ
  pub user_id : ℕ
  pub phone_encrypted : List ℕ
  pub phone_blind_index : ℕ
  pub is_primary : Bool
  pub verified_at : ℕ
  pub created_at : ℕ
  pub updated_at : ℕ

pub record UserProfile : Type 0 where
  pub user_id : ℕ
  pub display_name : String
  pub avatar_object_key : Option String
  pub bio : Option String
  pub profile_visibility : String
  pub created_at : ℕ
  pub updated_at : ℕ

pub record Username : Type 0 where
  pub id : ℕ
  pub user_id : ℕ
  pub username_canonical : String
  pub username_display : String
  pub assigned_at : ℕ
  pub cooldown_until : ℕ

pub record PrivacySettings : Type 0 where
  pub user_id : ℕ
  pub last_seen_visibility : String
  pub online_status_visibility : String
  pub profile_photo_visibility : String
  pub phone_number_visibility : String
  pub read_receipts : Bool
  pub phone_discoverability : Bool
  pub security_notifications : Bool
  pub notification_previews : Bool
  pub updated_at : ℕ

pub data Platform : Type 0 where
  android ios web desktop : Platform

pub record Device : Type 0 where
  pub id : ℕ
  pub user_id : ℕ
  pub installation_id : String
  pub device_name : String
  pub platform : Platform
  pub app_version : String
  pub os_version : String
  pub notification_token_status : String
  pub is_revoked : Bool
  pub revoked_at : Option ℕ
  pub revoked_reason : Option String
  pub created_at : ℕ
  pub last_seen_at : ℕ

pub record Session : Type 0 where
  pub id : ℕ
  pub user_id : ℕ
  pub device_id : ℕ
  pub session_version : ℕ
  pub created_at : ℕ
  pub expires_at : ℕ
  pub revoked_at : Option ℕ

pub record RefreshTokenFamily : Type 0 where
  pub id : ℕ
  pub user_id : ℕ
  pub device_id : ℕ
  pub is_compromised : Bool
  pub created_at : ℕ
  pub updated_at : ℕ

pub record RefreshToken : Type 0 where
  pub id : ℕ
  pub family_id : ℕ
  pub token_verifier_hash : ℕ
  pub parent_token_id : Option ℕ
  pub replacement_token_id : Option ℕ
  pub expires_at : ℕ
  pub is_rotated : Bool
  pub rotated_at : Option ℕ
  pub is_revoked : Bool
  pub revoked_at : Option ℕ
  pub created_at : ℕ

pub record OtpChallenge : Type 0 where
  pub id : ℕ
  pub phone_blind_index : ℕ
  pub verifier_hash : List ℕ
  pub attempts_count : ℕ
  pub max_attempts : ℕ
  pub expires_at : ℕ
  pub resend_available_at : ℕ
  pub is_verified : Bool
  pub created_at : ℕ

pub record OtpDeliveryAttempt : Type 0 where
  pub id : ℕ
  pub challenge_id : ℕ
  pub provider_name : String
  pub provider_request_id : Option String
  pub status : String
  pub cost_amount : ℕ
  pub cost_currency : String
  pub error_code : Option String
  pub created_at : ℕ

-- A value in a JSONB column: the program writes flat objects of identifiers and texts.
pub data JsonValue : Type 0 where
  id : ℕ → JsonValue
  text : String → JsonValue

pub data Severity : Type 0 where
  low medium high critical : Severity

pub record SecurityEvent : Type 0 where
  pub id : ℕ
  pub user_id : ℕ
  pub device_id : Option ℕ
  pub event_type : String
  pub severity : Severity
  pub user_description_key : String
  pub device_context_json : List (String × JsonValue)
  pub internal_metadata_json : List (String × JsonValue)
  pub is_read : Bool
  pub created_at : ℕ

pub record RegistrationLockCredential : Type 0 where
  pub user_id : ℕ
  pub pin_argon2_hash : String
  pub enabled_at : ℕ
  pub updated_at : ℕ

pub record RegistrationLockAttempt : Type 0 where
  pub id : ℕ
  pub user_id : ℕ
  pub is_successful : Bool
  pub ip_address : Option String
  pub created_at : ℕ

pub record AuditEvent : Type 0 where
  pub id : ℕ
  pub actor_type : String
  pub actor_id : ℕ
  pub action : String
  pub target_type : String
  pub target_id : ℕ
  pub reason : Option String
  pub correlation_id : ℕ
  pub request_id : ℕ
  pub outcome : String
  pub after_state_json : List (String × JsonValue)
  pub created_at : ℕ

pub record IdentityDb : Type 0 where
  pub users : List User
  pub phone_identities : List PhoneIdentity
  pub user_profiles : List UserProfile
  pub usernames : List Username
  pub privacy_settings : List PrivacySettings
  pub devices : List Device
  pub sessions : List Session
  pub refresh_token_families : List RefreshTokenFamily
  pub refresh_tokens : List RefreshToken
  pub otp_challenges : List OtpChallenge
  pub otp_delivery_attempts : List OtpDeliveryAttempt
  pub security_events : List SecurityEvent
  pub registration_lock_credentials : List RegistrationLockCredential
  pub registration_lock_attempts : List RegistrationLockAttempt
  pub audit_events : List AuditEvent
