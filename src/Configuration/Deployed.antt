-- ===== src/Configuration/Deployed.antt =====
-- What the configuration of a deployed process is known to be.
use text.Mathlib.Text.{◌==◌ as str_eq}
use guff_suff.Prelude.{◌≡◌, refl, ◌≤◌, ◌⊎◌, inl, inr, false, Option, none, some, arith}
use guff_suff.Contracts.{utf16_length}
use guff_suff.Configuration.{
  RawEnv, Coercions, EnvironmentConfig, staging, production, is_local, is_verbose,
  validate_environment_config, parse_fields, refined, has_issue,
}

-- What a configuration that is accepted in staging or production has, and in production alone.
abbrev pub Deployable : {Number : Type 0} → EnvironmentConfig Number → Type 0
Deployable c =
    (str_eq c.cors_origin "*" ≡ false) × (c.allow_mock_crypto ≡ false) × (c.allow_dev_otp ≡ false)

abbrev pub Remote : {Number : Type 0} → EnvironmentConfig Number → Type 0
Remote c =
    (is_verbose c.log_level ≡ false)
    × (is_local c.database_url ≡ false)
    × (is_local c.redis_url ≡ false)

module _ {Number : Type 0} (js : Coercions Number) where
  from_fields :
      (o : Option (EnvironmentConfig Number)) (raw : RawEnv) {c : EnvironmentConfig Number}
      → parse_fields js raw ≡ o
      → validate_environment_config js raw ≡ some c
      → (parse_fields js raw ≡ some c) × (has_issue js c.node_env c ≡ false)
  unfolding validate_environment_config refined
  from_fields none raw e h = ground arith
  from_fields (some x) raw e h = ground arith

  secret_length :
      (raw : RawEnv) {c : EnvironmentConfig Number}
      → parse_fields js raw ≡ some c
      → 32 ≤ utf16_length c.jwt_secret
  unfolding parse_fields
  secret_length raw h = ground arith

  -- A configuration that is accepted has a JWT secret of at least 32 units; in staging and production
  -- its origin is not the wildcard and it allows neither mock cryptography nor development codes; in
  -- production it does not log at the levels debug and trace, and neither URL names the local host.
  pub validate-Deployable :
      (raw : RawEnv) {c : EnvironmentConfig Number}
      → validate_environment_config js raw ≡ some c
      → (32 ≤ utf16_length c.jwt_secret)
        × ((c.node_env ≡ staging) ⊎ (c.node_env ≡ production) → Deployable c)
        × (c.node_env ≡ production → Remote c)
  validate-Deployable raw {c} h =
      let f = from_fields _ raw refl h in
      (
        secret_length raw f.0,
        λ e. elim e [ inl s ↦ ground (arith, f.1) | inr p ↦ ground (arith, f.1) ],
        λ p. ground (arith, f.1),
      )
