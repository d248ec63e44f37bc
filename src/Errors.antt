-- ===== src/Errors.antt =====
-- What the services throw: one constructor for each message of an `Error` or an HTTP exception in
-- services/api/src, two for the statements that the database itself refuses, and two
-- for a body that a schema refuses and a method that a value does not have.
use guff_suff.Prelude.{ℕ}

pub data Error : Type 0 where
  -- raised by the database
  constraint_violation parameter_mismatch : Error
  -- identity/session.service.ts
  unknown_refresh_token invalid_refresh_token refresh_token_reuse : Error
  -- identity/otp.service.ts and otp.provider.ts
  unknown_challenge already_verified challenge_expired attempts_exceeded : Error
  no_sms_provider simulator_forbidden : Error
  cooldown_active : ℕ → Error
  -- identity/registration-lock.service.ts
  malformed_pin pin_locked_out pin_not_set incorrect_pin : Error
  -- identity/device.service.ts
  device_not_found : Error
  -- identity/account.service.ts
  unverified_challenge phone_taken username_taken profile_not_found settings_not_found : Error
  bad_phone_number : Error
  -- identity/jwt-auth.guard.ts
  missing_authorization invalid_token session_not_found session_revoked account_restricted : Error
  session_version_mismatch : Error
  -- a ZodError, and a TypeError
  invalid_body type_error : Error
  -- transport
  sender_device_invalid conversation_denied payload_too_large idempotency_conflict : Error
  ack_unauthorized envelope_not_found status_denied self_conversation recipient_not_found : Error
