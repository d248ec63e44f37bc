-- ===== src/Guard.antt =====
-- services/api/src/identity/jwt-auth.guard.ts. The Authorization header is given as the pieces into
-- which `split(" ")` cuts it: it starts with "Bearer " exactly when the first of at least two
-- pieces is "Bearer".
pub mod Denial
pub mod Login
pub mod Reads
pub mod Refresh
use text.Mathlib.Text.{◌==◌ as str_eq}
use guff_suff.Prelude.{
  ℕ, String, Bool, true, false, Option, none, some, List, [], ◌∷◌, not, ◌&&◌, ◌||◌, ◌==◌,
  if◌then◌else◌, select, join, is_some,
}
use guff_suff.Errors.{
  missing_authorization, invalid_token, session_not_found, session_revoked, account_restricted,
  session_version_mismatch,
}
use guff_suff.Action.{Action, pure, throw}
use guff_suff.Environment.{Environment, Claims}
use guff_suff.Schema.Identity.{
  AccountState, pending_profile, active, User, Device, Session, IdentityDb,
}
use guff_suff.Session.{verify_access_token}

-- request.user
pub record RequestUser : Type 0 where
  pub user_id : ℕ
  pub device_id : ℕ
  pub session_id : ℕ

unfoldable pub bearer_token : Option (List String) → Option String
bearer_token none = none
bearer_token (some []) = none
bearer_token (some (scheme ∷ [])) = none
bearer_token (some (scheme ∷ token ∷ rest)) = if str_eq scheme "Bearer" then some token else none

abbrev pub may_log_in : AccountState → Bool
may_log_in active = true
may_log_in pending_profile = true
may_log_in _ = false

-- The session of the claims, with its device and its user.
unfoldable pub session_rows : Claims → IdentityDb → List ((Session × Device) × User)
session_rows c db =
    join (λ p u. p.0.user_id == u.id)
      (join (λ s d. s.device_id == d.id)
        (select
          (λ s.
            (s.id == c.session_id) && ((s.user_id == c.user_id) && (s.device_id == c.device_id)))
          db.sessions)
        db.devices)
      db.users

pub check_session : Claims → List ((Session × Device) × User) → Action IdentityDb RequestUser
check_session c [] = throw session_not_found
check_session c (((s, d), u) ∷ rest) =
    if is_some s.revoked_at || d.is_revoked
    then throw session_revoked
    else if not (may_log_in u.account_state)
    then throw account_restricted
    else if not (s.session_version == c.session_version)
    then throw session_version_mismatch
    else pure (record { user_id = c.user_id; device_id = c.device_id; session_id = c.session_id })

check_claims : Option Claims → Action IdentityDb RequestUser
check_claims none db = throw invalid_token db
check_claims (some c) db = check_session c (session_rows c db) db

check_header : Environment → ℕ → Option String → Action IdentityDb RequestUser
check_header env now none = throw missing_authorization
check_header env now (some token) = check_claims (verify_access_token env token now)

unfoldable pub can_activate : Environment → Option (List String) → ℕ → Action IdentityDb RequestUser
unfolding check_header check_claims check_session
can_activate env header now = check_header env now (bearer_token header)
