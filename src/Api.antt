-- ===== src/Api.antt =====
-- The controllers of services/api/src/identity: how a request reaches the services. The identifier in
-- a path is a UUID, and a body is an object.
pub mod Auth
pub mod Guarded
pub mod Credentials
pub mod Isolation
pub mod Validation
pub mod Transport
use guff_suff.Prelude.{ℕ, String, Option, none, some, List}
use guff_suff.Errors.{invalid_body}
use guff_suff.Action.{Action, ◌>>=◌, throw}
use guff_suff.Environment.{Environment}
use guff_suff.Schema.Identity.{IdentityDb}
use guff_suff.Guard.{RequestUser, can_activate}

-- Schema.parse(body), and what the handler does with the value
abbrev pub parsed {ℓ κ μ} :
    {S : Type ℓ} {A : Type κ} {B : Type μ} → Option A → (A → Action S B) → Action S B
parsed none k = throw invalid_body
parsed (some x) k = k x

-- @UseGuards(JwtAuthGuard)
abbrev pub guarded {ℓ} :
    {A : Type ℓ}
    → Environment
    → Option (List String)
    → ℕ
    → (RequestUser → Action IdentityDb A)
    → Action IdentityDb A
guarded env header now handler = can_activate env header now >>= handler
