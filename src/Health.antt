-- ===== src/Health.antt =====
-- services/api/src/health/health.controller.ts. What the probes of the external systems answer is an
-- argument; the version and the time of an answer are left out.
use text.Mathlib.Text.{◌==◌ as str_eq}
use guff_suff.Prelude.{◌≡◌, String, Bool, false, Option, none, some, ◌&&◌, if◌then◌else◌, arith}

-- Missing where one of the calls of a probe throws; `database` is whether none of them does.
pub record Probes : Type 0 where
  pub database : Bool
  pub pong : Option String
  pub storage : Option Bool

pub data Status : Type 0 where
  up down : Status

pub record Dependencies : Type 0 where
  pub database : Status
  pub redis : Status
  pub storage : Status

-- The answer, and the exception with status 503.
pub data Readiness : Type 0 where
  ready not_ready : Dependencies → Readiness

abbrev status_of : Bool → Status
status_of b = if b then up else down

abbrev redis_up : Option String → Bool
redis_up none = false
redis_up (some pong) = str_eq pong "PONG"

abbrev storage_up : Option Bool → Bool
storage_up none = false
storage_up (some healthy) = healthy

abbrev dependencies : Probes → Dependencies
dependencies p = record {
  database = status_of p.database;
  redis = status_of (redis_up p.pong);
  storage = status_of (storage_up p.storage);
}

unfoldable pub get_readiness : Probes → Readiness
get_readiness p =
    if p.database && redis_up p.pong then ready (dependencies p) else not_ready (dependencies p)

-- A server that answers that it is ready reports its database and its Redis to be up.
ready-up :
    (p : Probes) (d : Dependencies) → get_readiness p ≡ ready d → (d.database ≡ up) × (d.redis ≡ up)
unfolding get_readiness
ready-up p d h = (ground arith, ground arith)
