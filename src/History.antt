-- ===== src/History.antt =====
-- Sequences of calls of the identity services, and what no sequence undoes. A call that throws
-- leaves what it had committed.
pub mod Families
pub mod Rotation
pub mod Devices
pub mod Consistency
use guff_suff.Prelude.{
  ℕ, ◌≡◌, ◌≢◌, ◌⊎◌, ◌+◌, ◌≤◌, ◌<◌, String, true, false, Option, List, [], ◌∷◌, get_or, All, ◌==◌,
  update, any, any-update,
}
use guff_suff.Errors.{invalid_refresh_token, refresh_token_reuse}
use guff_suff.Action.{returned, threw, final}
use guff_suff.Environment.{Environment}
use guff_suff.Schema.Identity.{RefreshTokenFamily, RefreshToken, IdentityDb}
use guff_suff.Session.{
  SessionDraws, RotationDraws, create_session, rotate_refresh_token, revoke_session,
  revoke_all_sessions_for_user, find_token,
}
use guff_suff.Device.{DeviceDraws, rename_device, revoke_device}

pub data Call : Type 0 where
  creates : ℕ → ℕ → SessionDraws → Call
  rotates : String → RotationDraws → Call
  logs_out logs_out_all : ℕ → ℕ → Call
  renames : ℕ → ℕ → String → DeviceDraws → Call
  revokes : ℕ → ℕ → String → DeviceDraws → Call

unfoldable pub step : Environment → IdentityDb → Call → IdentityDb
step env db (creates user device d) = final (create_session env user device d db)
step env db (rotates raw d) = final (rotate_refresh_token env raw d db)
step env db (logs_out session now) = final (revoke_session session now db)
step env db (logs_out_all user now) = final (revoke_all_sessions_for_user user now db)
step env db (renames user device name d) = final (rename_device user device name d db)
step env db (revokes user device reason d) = final (revoke_device env user device reason d db)

unfoldable pub run : Environment → IdentityDb → List Call → IdentityDb
unfolding step
run env db [] = db
run env db (c ∷ cs) = run env (step env db c) cs

-- What each call keeps, every history keeps.
pub run_keeps {ℓ} :
    (env : Environment) (P : IdentityDb → Type ℓ)
    → ((db : IdentityDb) (c : Call) → P db → P (step env db c))
    → (db : IdentityDb) (cs : List Call) → P db
    → P (run env db cs)
unfolding run
run_keeps env P keep db [] h = h
run_keeps env P keep db (c ∷ cs) h = run_keeps env P keep (step env db c) cs (keep db c h)
