-- ===== src/History/Rotation.antt =====
-- Whether a refresh token is ever rotated.
use guff_suff.Prelude.{
  ℕ, ◌≡◌, refl, inl, inr, String, Bool, true, false, List, [], ◌∷◌, arith, ◌==◌, any-update, update,
  All, Anything, All-Anything, All-select, All-update, All-join,
}
use guff_suff.Errors.{Error, unknown_refresh_token, constraint_violation, invalid_refresh_token}
use guff_suff.Action.{threw}
use guff_suff.Environment.{Environment}
use guff_suff.Schema.Identity.{RefreshTokenFamily, RefreshToken, IdentityDb}
use guff_suff.Schema.Constraints.{replacement_violates, token_violates}
use guff_suff.Session.{
  RotationDraws, rotate_refresh_token, find_token, compromise, revoke_session,
  revoke_all_sessions_for_user, token_revoked_at, linked_to,
}
use guff_suff.Session.Cases.{create_session_cases, rotate_cases}
use guff_suff.Session.Rotation.{rotate-references_checked}
use guff_suff.Device.{revoke_credentials, mark_revoked}
use guff_suff.Device.Cases.{rename_device_cases, revoke_device_cases}
use guff_suff.History.{
  Call, creates, rotates, logs_out, logs_out_all, renames, revokes, step, run, run_keeps,
}

abbrev pub NoneRotated : IdentityDb → Type 0
NoneRotated db = All (λ t. t.is_rotated ≡ false) db.refresh_tokens

module _ (env : Environment) (checked : env.references_checked ≡ true) where
  -- The UPDATE and the INSERT of a rotation are never both accepted.
  mark_or_insert :
      (t r : RefreshToken) (d : RotationDraws) (db : IdentityDb)
      → r.id ≡ d.token_id
      → replacement_violates env d.token_id db ≡ false
      → token_violates env r (record db {
        refresh_tokens = update (λ x. x.id == t.id) (linked_to d) db.refresh_tokens;
      })
        ≡ false
      → ⊥
  unfolding replacement_violates token_violates
  mark_or_insert t r d db same marked inserted = ground (
    arith,
    any-update (λ x. x.id == d.token_id) (λ x. x.id == t.id) (linked_to d) (λ x. refl)
        db.refresh_tokens,
  )

  revoke-NoneRotated :
      (p : RefreshToken → Bool) (now : ℕ) (db : IdentityDb)
      → NoneRotated db
      → All (λ t. t.is_rotated ≡ false) (update p (token_revoked_at now) db.refresh_tokens)
  revoke-NoneRotated p now db h =
      All-update _ p (token_revoked_at now) (λ t _ k. k) db.refresh_tokens h

  step-NoneRotated : (db : IdentityDb) (c : Call) → NoneRotated db → NoneRotated (step env db c)
  unfolding step revoke_credentials mark_revoked compromise revoke_session
      revoke_all_sessions_for_user
  step-NoneRotated db (creates user device d) h =
      create_session_cases env NoneRotated user device d db h (λ _ _ _. (refl, h))
  step-NoneRotated db (rotates raw d) h =
      rotate_cases env NoneRotated raw d db h (λ t f. revoke-NoneRotated _ d.db_now db h)
        (λ t f marked inserted. absurd (mark_or_insert t _ d db refl marked inserted))
  step-NoneRotated db (logs_out session now) h = h
  step-NoneRotated db (logs_out_all user now) h = revoke-NoneRotated _ now db h
  step-NoneRotated db (renames user device name d) h =
      rename_device_cases NoneRotated user device d db name h h
  step-NoneRotated db (revokes user device reason d) h =
      revoke_device_cases NoneRotated user device d db env reason h
        (λ name. revoke-NoneRotated _ d.db_now db h)

  refuse :
      (raw : String) (d : RotationDraws) (db : IdentityDb)
      (rows : List (RefreshToken × RefreshTokenFamily))
      → find_token (env.sha256 raw) db ≡ rows
      → All (λ p. p.0.is_rotated ≡ false) rows
      → (e : Error) × (rotate_refresh_token env raw d db ≡ threw db e)
  unfolding rotate_refresh_token
  refuse raw d db [] found h = (unknown_refresh_token, ground arith)
  refuse raw d db ((t, f) ∷ rest) found h =
      elim (rotate-references_checked env raw d db checked found h.0) [
        | inl e ↦ (constraint_violation, e)
        | inr e ↦ (invalid_refresh_token, e)
      ]

  rotate-NoneRotated :
      (raw : String) (d : RotationDraws) (db : IdentityDb)
      → NoneRotated db
      → (e : Error) × (rotate_refresh_token env raw d db ≡ threw db e)
  unfolding find_token
  rotate-NoneRotated raw d db h = refuse raw d db _ refl (
      All-join _ (λ t. t.is_rotated ≡ false) Anything _ (λ t f _ k _. k) _ _
        (All-select _ _ db.refresh_tokens h) (All-Anything db.refresh_token_families))

-- On a database that checks the REFERENCES of the migrations, `rotateRefreshToken` never succeeds:
-- started with no rotated token, and whatever calls of the session and device services were made
-- before, it throws and changes nothing.
pub run-rotate_refused :
    (env : Environment) (db : IdentityDb)
    → env.references_checked ≡ true
    → NoneRotated db
    → (cs : List Call) (raw : String) (d : RotationDraws)
    → (e : Error) × (rotate_refresh_token env raw d (run env db cs) ≡ threw (run env db cs) e)
run-rotate_refused env db checked h cs raw d =
    rotate-NoneRotated env checked raw d (run env db cs)
      (run_keeps env NoneRotated (step-NoneRotated env checked) db cs h)
