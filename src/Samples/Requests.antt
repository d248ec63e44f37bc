-- ===== src/Samples/Requests.antt =====
-- Requests on guarded routes, migrations, connections and configurations.
use guff_suff.Prelude.{
  ℕ, ◌≡◌, ◌≤◌, ◌↔◌, ◌⊎◌, refl, String, true, false, Option, some, none, [], ◌∷◌, List, any, select,
  In,
}
use guff_suff.Errors.{Error}
use guff_suff.Action.{Action, returned, threw, final}
use guff_suff.Environment.{Environment}
use guff_suff.Contracts.{utf16_length}
use guff_suff.Schema.Identity.{IdentityDb}
use guff_suff.Guard.{RequestUser, can_activate, bearer_token, session_rows}
use guff_suff.Api.Guarded.{Request, respond}
use guff_suff.Api.Credentials.{CredentialsApart}
use guff_suff.Api.Isolation.{Apart, respond-Apart}
use guff_suff.Api.Isolation.Runs.{Incoming, IsUntouched, acts, run-IsUntouched}
use guff_suff.Api.Isolation.Runs
use guff_suff.Text.{includes, ends_with, starts_with}
use guff_suff.Migrate.{Migrated, run_migrations, run_files, sort_names, insert_name, before}
use guff_suff.Migrate.Repeat.{run_migrations_idempotent}
use guff_suff.Realtime.{Handshake, Call, join, user_room, handle_connection}
use guff_suff.Realtime.Rooms.{Admits, handle_connection_iff}
use guff_suff.Configuration.{
  RawEnv, EnvironmentConfig, Coercions, staging, production, parse_fields, node_env_named,
  log_level_schema, boolean_schema, is_local, LogLevel, validate_environment_config,
}
use guff_suff.Configuration.Deployed.{Deployable, Remote, validate-Deployable}
use guff_suff.Samples.{env_with, claims_for, unrotated_db}

abbrev env : Environment
env = env_with true (claims_for 100 1 10)

abbrev header : Option (List String)
header = some ("Bearer" ∷ "token" ∷ [])

abbrev revocation : Request
revocation =
    Request.revoke 10
      (record { event_id = 501; audit_id = 600; correlation_id = 700; db_now = 3000 })

respond-Apart_example :
    ((db' : IdentityDb) (e : Error)
      → can_activate env header 2000 unrotated_db ≡ threw db' e
      → respond env header 2000 revocation unrotated_db ≡ threw unrotated_db e)
    × ((db' : IdentityDb) (user : RequestUser)
        → can_activate env header 2000 unrotated_db ≡ returned db' user
        → Apart user.user_id unrotated_db (final (respond env header 2000 revocation unrotated_db))
          × CredentialsApart user.user_id unrotated_db
              (final (respond env header 2000 revocation unrotated_db)))
unfolding any
respond-Apart_example = respond-Apart env header 2000 revocation unrotated_db (record {
  session_ids = (refl, (refl, tt));
  family_ids = (refl, tt);
  sessions =
      ((λ e. refl, (λ e. refl, (λ e. cc, tt))), ((λ e. refl, (λ e. refl, (λ e. cc, tt))), tt));
  families = ((λ e. refl, (λ e. refl, (λ e. cc, tt))), tt);
})

abbrev incoming : List Incoming
incoming =
    record { header = header; now = 2000; request = revocation }
    ∷ record { header = none; now = 3000; request = Request.get_events }
    ∷ []

-- The requests of the first user, seen by the second.
run-IsUntouched_example : IsUntouched 2 unrotated_db (Runs.run env unrotated_db incoming)
unfolding acts can_activate bearer_token session_rows guff_suff.Prelude.join select any
run-IsUntouched_example = run-IsUntouched env 2 unrotated_db incoming refl

-- A server that keeps the statements that it gets, the last one first.
abbrev keep_statement : String → Action (List String) (Unit {0})
keep_statement sql stored = returned (sql ∷ stored) tt

abbrev names : List String
names = "002_b.sql" ∷ "readme.md" ∷ "001_a.sql" ∷ []

abbrev migrated : Migrated (List String)
migrated = record {
  versions = "002_b.sql" ∷ "001_a.sql" ∷ [];
  stored = "002_b.sql" ∷ "001_a.sql" ∷ [];
}

run_migrations_idempotent_example :
    run_migrations keep_statement (λ file. file) names migrated ≡ returned migrated tt
unfolding run_migrations run_files sort_names insert_name before ends_with select any
run_migrations_idempotent_example =
    run_migrations_idempotent keep_statement (λ file. file) names
      (record { versions = []; stored = [] }) migrated refl

abbrev handshake : Handshake
handshake = record { token = some "x"; device_id = some "d"; user_id = some "u" }

handle_connection_iff_example :
    In {A = Call ℕ} (join (user_room "u")) (handle_connection handshake)
    ↔ (Admits handshake × (handshake.user_id ≡ some "u"))
handle_connection_iff_example = handle_connection_iff ℕ handshake "u"

abbrev js : Coercions ℕ
js = record {
  is_url = λ s. true;
  number = λ s. some 8080;
  default_port = 3000;
  to_lower_case = λ s. s;
}

abbrev raw : RawEnv
raw = record {
  node_env = some "production";
  port = none;
  database_url = some "postgres://db/guffsuff";
  redis_url = some "redis://cache";
  s3_endpoint = some "https://s3";
  s3_bucket = some "bucket";
  jwt_secret = some "0123456789abcdef0123456789abcdef";
  cors_origin = some "https://guffsuff.example";
  allow_mock_crypto = none;
  allow_dev_otp = some "0";
  log_level = none;
}

abbrev config : EnvironmentConfig ℕ
config = record {
  node_env = production;
  port = 3000;
  database_url = "postgres://db/guffsuff";
  redis_url = "redis://cache";
  s3_endpoint = "https://s3";
  s3_bucket = "bucket";
  jwt_secret = "0123456789abcdef0123456789abcdef";
  cors_origin = "https://guffsuff.example";
  allow_mock_crypto = false;
  allow_dev_otp = false;
  log_level = LogLevel.info;
}

validate-Deployable_example :
    (32 ≤ utf16_length config.jwt_secret)
    × ((config.node_env ≡ staging) ⊎ (config.node_env ≡ production) → Deployable config)
    × (config.node_env ≡ production → Remote config)
unfolding validate_environment_config parse_fields node_env_named utf16_length log_level_schema
    boolean_schema is_local includes starts_with
validate-Deployable_example = validate-Deployable js raw {c = config} refl
