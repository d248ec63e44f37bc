-- ===== src/History/Families.antt =====
-- A compromised family of refresh tokens, over any history.
use guff_suff.Prelude.{ℕ, ◌≡◌, ◌⊎◌, ◌+◌, ◌≤◌, ◌<◌, String, true, false, List, ◌∷◌, get_or}
use guff_suff.Errors.{invalid_refresh_token}
use guff_suff.Action.{threw}
use guff_suff.Environment.{Environment}
use guff_suff.Schema.Identity.{RefreshTokenFamily, RefreshToken, IdentityDb}
use guff_suff.Schema.Constraints.{security_event_violates}
use guff_suff.Session.{
  RotationDraws, rotate_refresh_token, find_token, live_replacement, reuse_event, compromise,
}
use guff_suff.Session.Families.{
  IsDead, IsDead-flag, create_session-IsDead, rotate-IsDead_kept, revoke_all-IsDead,
  revoke_session-IsDead, rotate-IsDead,
}
use guff_suff.Session.Reuse.{rotate-reuse}
use guff_suff.Device.{revoke_credentials, mark_revoked}
use guff_suff.Device.Cases.{rename_device_cases, revoke_device_cases}
use guff_suff.History.{
  Call, creates, rotates, logs_out, logs_out_all, renames, revokes, step, run, run_keeps,
}

module _ (env : Environment) (i : ℕ) where
  abbrev Dead : IdentityDb → Type 0
  Dead db = IsDead i db.refresh_token_families

  step-IsDead : (db : IdentityDb) (c : Call) → Dead db → Dead (step env db c)
  unfolding step revoke_credentials mark_revoked
  step-IsDead db (creates user device d) h = create_session-IsDead env i user device d db h
  step-IsDead db (rotates raw d) h = rotate-IsDead_kept env i raw d db h
  step-IsDead db (logs_out session now) h = revoke_session-IsDead i session now db h
  step-IsDead db (logs_out_all user now) h = revoke_all-IsDead i user now db h
  step-IsDead db (renames user device name d) h = rename_device_cases Dead user device d db name h h
  step-IsDead db (revokes user device reason d) h =
      revoke_device_cases Dead user device d db env reason h (λ name. IsDead-flag i _ d.db_now _ h)

  pub run-IsDead : (db : IdentityDb) (cs : List Call) → Dead db → Dead (run env db cs)
  run-IsDead = run_keeps env Dead step-IsDead

-- A rotated token of a family that is not compromised, itself neither revoked nor expired, is
-- presented outside the grace window or with no live replacement, and the row of the security event
-- is one that the database accepts. Then, whatever calls follow, a token that is found in the same
-- family is never rotated again: each attempt throws and changes nothing.
pub reuse-run-refused :
    (env : Environment) (raw : String) (d : RotationDraws) (db : IdentityDb) {t : RefreshToken}
    {f : RefreshTokenFamily} {rest : List (RefreshToken × RefreshTokenFamily)}
    → find_token (env.sha256 raw) db ≡ (t, f) ∷ rest
    → f.is_compromised ≡ false
    → t.is_revoked ≡ false
    → d.checked_at ≤ t.expires_at
    → t.is_rotated ≡ true
    → (get_or t.rotated_at 0 + 10000 < d.seen_at)
      ⊎ (live_replacement t.replacement_token_id db ≡ false)
    → security_event_violates env (reuse_event t f d) (compromise t f d.db_now db) ≡ false
    → (cs : List Call) (raw' : String) (d' : RotationDraws) {t' : RefreshToken}
      {f' : RefreshTokenFamily} {rest' : List (RefreshToken × RefreshTokenFamily)}
    → let db' = run env (step env db (rotates raw d)) cs in
      find_token (env.sha256 raw') db' ≡ (t', f') ∷ rest'
      → t'.family_id ≡ t.family_id
      → rotate_refresh_token env raw' d' db' ≡ threw db' invalid_refresh_token
unfolding step
reuse-run-refused env raw d db {t} {f} found alive live early was late recorded cs raw' d' {t'}
      found' same =
    let alert = rotate-reuse env raw d db found alive live early was late recorded in
    rotate-IsDead env raw' d' _ found'
      (rw same (run-IsDead env t.family_id _ cs (rw alert.0 alert.1.family)))
