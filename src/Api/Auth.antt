-- ===== src/Api/Auth.antt =====
-- services/api/src/identity/auth.controller.ts and usernames.controller.ts
use guff_suff.Prelude.{
  ℕ, String, Bool, Option, none, some, List, [], ◌∷◌, ◌==◌, select, if◌then◌else◌,
}
use guff_suff.Errors.{bad_phone_number, type_error, unverified_challenge, constraint_violation}
use guff_suff.Action.{Action, ◌>>=◌, pure, throw, gets, atomically}
use guff_suff.Environment.{Environment}
use guff_suff.Json.{Json, Body, field, is_falsy}
use guff_suff.Schema.Identity.{OtpChallenge, IdentityDb, Platform, android}
use guff_suff.Contracts.{
  otp_request_schema, otp_verify_schema, register_account_schema, RegisterAccount,
  token_refresh_schema, check_username_schema, platform_named,
}
use guff_suff.Phone.{normalize_to_e164, generate_blind_index}
use guff_suff.Otp.{OtpWorld, OtpDraws, OtpIssued, request_otp_challenge, verify_otp_text}
use guff_suff.Session.{
  TokenPair, RotationDraws, rotate_refresh_token, revoke_session, revoke_all_sessions_for_user,
}
use guff_suff.Account.{
  RegisterParams, RegisterDraws, Registered, register_account, registration_body,
  is_username_available,
}
use guff_suff.Guard.{RequestUser}
use guff_suff.Api.{parsed}

-- value || fallback, as a text column gets it
abbrev text_or : Environment → String → Json → String
text_or env fallback (Json.string s) = if is_falsy (Json.string s) then fallback else s
text_or env fallback value = if is_falsy value then fallback else env.query_text value

-- value || "android", missing where the CHECK constraint on `platform` fails
abbrev platform_or_android : Environment → Json → Option Platform
platform_or_android env value = platform_named (text_or env "android" value)

-- body.phoneNumber || "+9779800000000", missing where it has no method `trim`
unfoldable pub phone_or_default : Json → Option String
phone_or_default (Json.string s) = some (if is_falsy (Json.string s) then "+9779800000000" else s)
phone_or_default value = if is_falsy value then some "+9779800000000" else none

abbrev register_params : Environment → RegisterAccount → String → Platform → Body → RegisterParams
register_params env v phone platform body = record {
  challenge_id = v.challenge_id;
  phone_number = phone;
  display_name = v.display_name;
  username = v.username;
  installation_id = text_or env "inst_default" (field "installationId" body);
  device_name = text_or env "Mobile Device" (field "deviceName" body);
  platform = platform;
  app_version = text_or env "1.0.0" (field "appVersion" body);
  os_version = text_or env "Android 14" (field "osVersion" body);
  locale = some v.locale;
  timezone = some v.timezone;
}

module _ (env : Environment) where
  with_number : OtpDraws → Option String → Action OtpWorld OtpIssued
  with_number d none = throw bad_phone_number
  with_number d (some e164) = request_otp_challenge env (generate_blind_index env e164) d

  unfoldable pub request_otp : Body → OtpDraws → Action OtpWorld OtpIssued
  unfolding with_number
  request_otp body d =
      parsed (otp_request_schema body)
        (λ phone_number. with_number d (normalize_to_e164 env phone_number "NP"))

  -- The challenge, where the answer has `success: true`.
  unfoldable pub verify_otp : Body → ℕ → Action IdentityDb (Option ℕ)
  verify_otp body now = parsed (otp_verify_schema env body) (λ validated. do
    is_success ← verify_otp_text env validated.0 validated.1 validated.2 now
    pure (if is_success then some validated.1 else none))

  -- A platform that the CHECK constraint refuses ends the transaction at the device, when the
  -- challenge, the phone number and the username have passed; no later statement matters then.
  register_on :
      RegisterAccount
      → String
      → Body
      → RegisterDraws
      → Option Platform
      → Action IdentityDb Registered
  register_on v phone body d none = do
    atomically (
        registration_body env (register_params env v phone android body) d >>= λ _.
        throw constraint_violation)
  register_on v phone body d (some platform) =
      register_account env (register_params env v phone platform body) d

  -- The TypeError comes after the check of the challenge.
  call_trim : List OtpChallenge → Action IdentityDb Registered
  call_trim [] db = throw unverified_challenge db
  call_trim (c ∷ rest) db =
      if c.is_verified then throw type_error db else throw unverified_challenge db

  with_phone_text :
      RegisterAccount → Body → RegisterDraws → Option String → Action IdentityDb Registered
  unfolding register_on call_trim
  with_phone_text v body d none =
      gets (λ db. select (λ c. c.id == v.challenge_id) db.otp_challenges) >>= call_trim
  with_phone_text v body d (some phone) =
      register_on v phone body d (platform_or_android env (field "platform" body))

  unfoldable pub register : Body → RegisterDraws → Action IdentityDb Registered
  unfolding with_phone_text
  register body d =
      parsed (register_account_schema env body)
        (λ v. with_phone_text v body d (phone_or_default (field "phoneNumber" body)))

  unfoldable pub refresh_token : Body → RotationDraws → Action IdentityDb TokenPair
  refresh_token body d =
      parsed (token_refresh_schema body) (λ token. rotate_refresh_token env token d)

  unfoldable pub check_username : Body → Action IdentityDb (String × Bool)
  check_username body =
      parsed (check_username_schema body)
        (λ username. gets (λ db. (username, is_username_available env username db)))

unfoldable pub logout : RequestUser → ℕ → Action IdentityDb (Unit {0})
logout user db_now = revoke_session user.session_id db_now

unfoldable pub logout_all : RequestUser → ℕ → Action IdentityDb (Unit {0})
logout_all user db_now = revoke_all_sessions_for_user user.user_id db_now
