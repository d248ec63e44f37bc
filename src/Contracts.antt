-- ===== src/Contracts.antt =====
-- packages/contracts/src/index.ts: the schemas by which the handlers check a request body. A schema
-- is a function to the parsed value, missing where `parse` throws.
pub mod Transport
use Prim.Native.Char.{code}
use text.Mathlib.Text.{◌==◌ as str_eq}
use guff_suff.Prelude.{
  ℕ, ◌+◌, String, Bool, Option, none, some, ◌&&◌, ltb, leb, ◌==◌, if◌then◌else◌, any, not, length,
}
use guff_suff.Environment.{Environment}
use guff_suff.Json.{Json, Body, field}
use guff_suff.Schema.Identity.{Platform, android, ios, web, desktop}
use guff_suff.Schema.AccountConstraints.{is_canonical_username}
use guff_suff.RegistrationLock.{is_pin, codes, is_digit}

infixl 5 ◌>>=◌ ◌>>◌
abbrev pub ◌>>=◌ {ℓ κ} : {A : Type ℓ} {B : Type κ} → Option A → (A → Option B) → Option B
none >>= f = none
some x >>= f = f x

abbrev pub ◌>>◌ {κ} : {B : Type κ} → Option (Unit {0}) → Option B → Option B
m >> k = m >>= λ _. k

abbrev pub pure {ℓ} : {A : Type ℓ} → A → Option A
pure x = some x

abbrev keep {ℓ} : {A : Type ℓ} → Bool → A → Option A
keep b x = if b then some x else none

-- The length of a JavaScript string: a character beyond the first plane counts twice.
unfoldable pub utf16_length : String → ℕ
utf16_length String.[] = 0
utf16_length (String.◌∷◌ c s) = (if leb 65536 (code c) then 2 else 1) + utf16_length s

-- z.string()
abbrev pub string_schema : Json → Option String
string_schema (Json.string s) = some s
string_schema _ = none

-- .min(low).max(high)
unfoldable pub string_between : ℕ → ℕ → Json → Option String
string_between low high value = do
  s ← string_schema value
  keep (leb low (utf16_length s) && leb (utf16_length s) high) s

-- .default(fallback)
abbrev string_or : String → Json → Option String
string_or fallback Json.missing = some fallback
string_or fallback value = string_schema value

-- z.literal(true)
abbrev accepted : Json → Option (Unit {0})
accepted (Json.flag b) = keep b tt
accepted _ = none

-- z.number().int().positive()
abbrev pub positive : Json → Option ℕ
positive (Json.natural n) = keep (ltb 0 n) n
positive _ = none

-- z.record(z.unknown())
abbrev record_of_unknown : Json → Option (Unit {0})
record_of_unknown Json.object = some tt
record_of_unknown _ = none

-- UsernameRegex is the pattern of the CHECK constraint on `username_canonical`.
unfoldable pub username_schema : Json → Option String
username_schema value = do s ← string_schema value; keep (is_canonical_username s) s

-- z.enum([...])
unfoldable pub platform_named : String → Option Platform
platform_named s =
    if str_eq s "android"
    then some android
    else if str_eq s "ios"
    then some ios
    else if str_eq s "web"
    then some web
    else if str_eq s "desktop"
    then some desktop
    else none

abbrev platform_schema : Json → Option Platform
platform_schema value = string_schema value >>= platform_named

-- OtpRequestSchema; only the phone number is used.
unfoldable pub otp_request_schema : Body → Option String
otp_request_schema body = do
  phone_number ← string_between 5 30 (field "phoneNumber" body)
  installation_id ← string_between 1 128 (field "installationId" body)
  device_name ← string_between 1 100 (field "deviceName" body)
  platform ← platform_schema (field "platform" body)
  app_version ← string_between 1 32 (field "appVersion" body)
  os_version ← string_between 1 32 (field "osVersion" body)
  pure phone_number

-- /^\d{6}$/
unfoldable pub is_otp_code : String → Bool
is_otp_code s = (length (codes s) == 6) && not (any (λ c. not (is_digit c)) (codes s))

abbrev otp_code_schema : Json → Option String
otp_code_schema value = do s ← string_between 6 6 value; keep (is_otp_code s) s

-- Both PIN schemas.
unfoldable pub pin_schema : Body → Option String
pin_schema body = do pin ← string_between 6 12 (field "pin" body); keep (is_pin pin) pin

-- TokenRefreshSchema
unfoldable pub token_refresh_schema : Body → Option String
token_refresh_schema body = do
  token ← string_schema (field "refreshToken" body)
  keep (leb 1 (utf16_length token)) token

-- CheckUsernameSchema
unfoldable pub check_username_schema : Body → Option String
check_username_schema body = username_schema (field "username" body)

pub record RegisterAccount : Type 0 where
  pub challenge_id : ℕ
  pub display_name : String
  pub username : String
  pub locale : String
  pub timezone : String

module _ (env : Environment) where
  abbrev pub uuid : Json → Option ℕ
  uuid value = string_schema value >>= env.parse_uuid

  -- OtpVerifySchema: the challenge, as the text given and as what it denotes, and the code.
  unfoldable pub otp_verify_schema : Body → Option (String × ℕ × String)
  otp_verify_schema body = do
    text ← string_schema (field "challengeId" body)
    challenge_id ← env.parse_uuid text
    otp_code ← otp_code_schema (field "otpCode" body)
    pure (text, challenge_id, otp_code)

  unfoldable pub register_account_schema : Body → Option RegisterAccount
  register_account_schema body = do
    challenge_id ← uuid (field "challengeId" body)
    display_name ← string_between 2 50 (field "displayName" body)
    username ← username_schema (field "username" body)
    locale ← string_or "ne" (field "locale" body)
    timezone ← string_or "Asia/Kathmandu" (field "timezone" body)
    accepted (field "termsAccepted" body)
    accepted (field "privacyAccepted" body)
    pure (record {
      challenge_id = challenge_id;
      display_name = display_name;
      username = username;
      locale = locale;
      timezone = timezone;
    })

  -- RealtimeEventEnvelopeSchema: the identifiers that the gateway answers with.
  unfoldable pub realtime_event_envelope_schema : Body → Option (ℕ × ℕ)
  realtime_event_envelope_schema body = do
    event_id ← uuid (field "eventId" body)
    event_type ← string_schema (field "eventType" body)
    correlation_id ← uuid (field "correlationId" body)
    timestamp ← positive (field "timestamp" body)
    payload ← record_of_unknown (field "payload" body)
    pure (event_id, correlation_id)
