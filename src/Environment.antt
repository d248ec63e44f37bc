-- ===== src/Environment.antt =====
-- What the services take from outside the repository: Node's crypto, jsonwebtoken, argon2, uuid and
-- the settings of the process and of the database server.
use text.Mathlib.Text.{◌==◌}
use guff_suff.Prelude.{ℕ, String, Bool, Option, none, some, List, if◌then◌else◌}
use guff_suff.Json.{Json}

-- The claims of an access token.
pub record Claims : Type 0 where
  pub session_id : ℕ
  pub user_id : ℕ
  pub device_id : ℕ
  pub session_version : ℕ

-- The options of `jwt.sign` and `jwt.verify`.
pub record JwtOptions : Type 0 where
  pub issuer : String
  pub audience : String

-- A parsed number of libphonenumber-js: `isValid()` and `number`.
pub record PhoneNumber : Type 0 where
  pub is_valid : Bool
  pub number : String

pub record Environment : Type 0 where
  -- Whether the server checks FOREIGN KEY constraints after each statement, as PostgreSQL does with
  -- the constraints of the migrations, none of which is DEFERRABLE.
  pub references_checked : Bool
  -- process.env
  pub node_env : Option String
  pub jwt_access_secret : Option String
  pub otp_verifier_pepper_v1 : Option String
  pub registration_lock_pepper : Option String
  pub phone_encryption_secret : Option String
  pub phone_hmac_pepper : Option String
  -- createHash("sha256").update(text).digest("hex"), and the same of bytes
  pub sha256 : String → ℕ
  pub sha256_bytes : List ℕ → ℕ
  -- createHmac("sha256", key).update(text).digest("hex"), as bytes
  pub hmac_sha256 : String → String → List ℕ
  -- Buffer.from(text, "base64")
  pub base64_bytes : String → List ℕ
  -- parsePhoneNumberWithError(text, country), missing where it throws
  pub parse_phone_number : String → String → Option PhoneNumber
  -- AES-256-GCM with a key, which is a digest, and an initialisation vector: the ciphertext and the
  -- tag of a text, and the text that a tag and a ciphertext authenticate
  pub aes_256_gcm : ℕ → List ℕ → String → List ℕ × List ℕ
  pub aes_256_gcm_open : ℕ → List ℕ → List ℕ → List ℕ → Option String
  -- text.toLowerCase(), by the Unicode tables of the engine
  pub to_lower_case : String → String
  -- z.string().uuid() and PostgreSQL's uuid: the UUID that a text writes
  pub parse_uuid : String → Option ℕ
  -- z.string().datetime() and PostgreSQL's timestamptz: the time that a text writes
  pub parse_datetime : String → Option ℕ
  -- the text that node-postgres sends for a value that is not a string, not null and not undefined
  pub query_text : Json → String
  -- the text of a UUID
  pub uuid_text : ℕ → String
  -- jwt.sign(claims, secret, {expiresIn, ...}) at a time in milliseconds; jwt.verify at a time
  pub jwt_sign : Claims → String → ℕ → JwtOptions → ℕ → String
  pub jwt_verify : String → String → JwtOptions → ℕ → Option Claims
  -- argon2.hash(text) with the salt that it draws, and argon2.verify(hash, text)
  pub argon2_hash : String → String → String
  pub argon2_verify : String → String → Bool

-- `process.env.NAME || fallback`: an empty setting counts as a missing one.
abbrev pub env_or : Option String → String → String
env_or none fallback = fallback
env_or (some value) fallback = if value == "" then fallback else value
