-- ===== src/Configuration.antt =====
-- packages/shared-config/src/index.ts. The configuration is read from the settings of the process, each
-- of which is a text or missing.
pub mod Deployed
use text.Mathlib.Text.{◌==◌ as str_eq}
use guff_suff.Prelude.{
  ℕ, String, Bool, true, false, Option, none, some, List, [], ◌∷◌, ◌&&◌, ◌||◌, not, leb,
  if◌then◌else◌,
}
use guff_suff.Text.{includes}
use guff_suff.Contracts.{◌>>=◌, ◌>>◌, utf16_length}

pub data NodeEnv : Type 0 where
  development staging production test : NodeEnv

pub data LogLevel : Type 0 where
  trace debug info warn error fatal : LogLevel

-- process.env
pub record RawEnv : Type 0 where
  pub node_env : Option String
  pub port : Option String
  pub database_url : Option String
  pub redis_url : Option String
  pub s3_endpoint : Option String
  pub s3_bucket : Option String
  pub jwt_secret : Option String
  pub cors_origin : Option String
  pub allow_mock_crypto : Option String
  pub allow_dev_otp : Option String
  pub log_level : Option String

-- zod and JavaScript: `z.string().url()`, `Number(text)` where it is a number, and `toLowerCase`.
pub record Coercions (Number : Type 0) : Type 0 where
  pub is_url : String → Bool
  pub number : String → Option Number
  pub default_port : Number
  pub to_lower_case : String → String

pub record EnvironmentConfig (Number : Type 0) : Type 0 where
  pub node_env : NodeEnv
  pub port : Number
  pub database_url : String
  pub redis_url : String
  pub s3_endpoint : String
  pub s3_bucket : String
  pub jwt_secret : String
  pub cors_origin : String
  pub allow_mock_crypto : Bool
  pub allow_dev_otp : Bool
  pub log_level : LogLevel

unfoldable pub is_local : String → Bool
is_local url = includes url "localhost" || includes url "127.0.0.1"

unfoldable pub node_env_named : String → Option NodeEnv
node_env_named s =
    if str_eq s "development"
    then some development
    else if str_eq s "staging"
    then some staging
    else if str_eq s "production"
    then some production
    else if str_eq s "test"
    then some test
    else none

abbrev level_named : String → Option LogLevel
level_named s =
    if str_eq s "trace"
    then some trace
    else if str_eq s "debug"
    then some debug
    else if str_eq s "info"
    then some info
    else if str_eq s "warn"
    then some warn
    else if str_eq s "error"
    then some error
    else if str_eq s "fatal"
    then some fatal
    else none

-- .default(info)
unfoldable pub log_level_schema : Option String → Option LogLevel
log_level_schema none = some info
log_level_schema (some s) = level_named s

abbrev keep : (String → Bool) → String → Option String
keep p s = if p s then some s else none

abbrev pub is_verbose : LogLevel → Bool
is_verbose debug = true
is_verbose trace = true
is_verbose _ = false

module _ {Number : Type 0} (js : Coercions Number) where
  -- booleanSchema.default(false)
  unfoldable pub boolean_schema : Option String → Bool
  boolean_schema none = false
  boolean_schema (some s) = str_eq (js.to_lower_case s) "true" || str_eq s "1"

  abbrev port_schema : Option String → Option Number
  port_schema none = some js.default_port
  port_schema (some s) = js.number s

  -- The object schema, before `superRefine`.
  unfoldable pub parse_fields : RawEnv → Option (EnvironmentConfig Number)
  parse_fields raw = do
    node_env ← raw.node_env >>= node_env_named
    port ← port_schema raw.port
    database_url ← raw.database_url >>= keep js.is_url
    redis_url ← raw.redis_url >>= keep js.is_url
    s3_endpoint ← raw.s3_endpoint >>= keep js.is_url
    s3_bucket ← raw.s3_bucket >>= keep (λ s. leb 1 (utf16_length s))
    jwt_secret ← raw.jwt_secret >>= keep (λ s. leb 32 (utf16_length s))
    cors_origin ← raw.cors_origin >>= keep (λ s. leb 1 (utf16_length s))
    log_level ← log_level_schema raw.log_level
    some (record {
      node_env = node_env;
      port = port;
      database_url = database_url;
      redis_url = redis_url;
      s3_endpoint = s3_endpoint;
      s3_bucket = s3_bucket;
      jwt_secret = jwt_secret;
      cors_origin = cors_origin;
      allow_mock_crypto = boolean_schema raw.allow_mock_crypto;
      allow_dev_otp = boolean_schema raw.allow_dev_otp;
      log_level = log_level;
    })

  abbrev deployment_issue : EnvironmentConfig Number → Bool
  deployment_issue c = str_eq c.cors_origin "*" || (c.allow_mock_crypto || c.allow_dev_otp)

  abbrev production_issue : EnvironmentConfig Number → Bool
  production_issue c = is_verbose c.log_level || (is_local c.database_url || is_local c.redis_url)

  -- Whether `superRefine` adds an issue.
  abbrev has_issue : NodeEnv → EnvironmentConfig Number → Bool
  has_issue production c = deployment_issue c || production_issue c
  has_issue staging c = deployment_issue c
  has_issue _ c = false

  refined : EnvironmentConfig Number → Option (EnvironmentConfig Number)
  refined c = if has_issue c.node_env c then none else some c

  -- Missing where the source throws.
  unfoldable pub validate_environment_config : RawEnv → Option (EnvironmentConfig Number)
  unfolding refined
  validate_environment_config raw = parse_fields raw >>= refined
