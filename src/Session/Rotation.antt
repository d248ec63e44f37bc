-- ===== src/Session/Rotation.antt =====
-- What one call of `rotateRefreshToken` does, branch by branch.
use guff_suff.Prelude.{
  ◌+◌, ◌≤◌, ◌≡◌, refl, ◌≢◌, ◌⊎◌, String, true, false, List, ◌∷◌, arith, ◌==◌, any-update, get_or,
}
use guff_suff.Errors.{Error, refresh_token_reuse, invalid_refresh_token, constraint_violation}
use guff_suff.Action.{returned, threw, rolled_back}
use guff_suff.Environment.{Environment}
use guff_suff.Schema.Identity.{RefreshTokenFamily, RefreshToken, IdentityDb}
use guff_suff.Schema.Constraints.{token_violates, replacement_violates}
use guff_suff.Session.{
  RotationDraws, find_token, replace_token, rotate_refresh_token, live_replacement, linked_to,
  rotated_pair,
}

module _ (env : Environment) where
  -- An error other than the reuse alert leaves the database as it was.
  pub rotate-threw :
      (raw : String) (d : RotationDraws) {db db' : IdentityDb} {e : Error}
      → rotate_refresh_token env raw d db ≡ threw db' e
      → e ≢ refresh_token_reuse
      → db' ≡ db
  unfolding rotate_refresh_token
  rotate-threw raw d {db} {db'} {e} h ne = ground arith

  -- After the UPDATE was accepted, the row that it names is there, and the INSERT is refused.
  replace_token-references_checked :
      (t : RefreshToken) (f : RefreshTokenFamily) (d : RotationDraws) (db : IdentityDb)
      → env.references_checked ≡ true
      → rolled_back db (replace_token env t f d db) ≡ threw db constraint_violation
  unfolding replace_token replacement_violates token_violates
  replace_token-references_checked t f d db c = ground (
    arith,
    any-update (λ r. r.id == d.token_id) (λ r. r.id == t.id) (linked_to d) (λ r. refl)
        db.refresh_tokens,
  )

  -- While the database checks references, a token that was never rotated cannot be rotated: the
  -- UPDATE names a replacement that is not there yet. The call throws and changes nothing.
  pub rotate-references_checked :
      (raw : String) (d : RotationDraws) (db : IdentityDb) {t : RefreshToken}
      {f : RefreshTokenFamily} {rest : List (RefreshToken × RefreshTokenFamily)}
      → env.references_checked ≡ true
      → find_token (env.sha256 raw) db ≡ (t, f) ∷ rest
      → t.is_rotated ≡ false
      → (rotate_refresh_token env raw d db ≡ threw db constraint_violation)
        ⊎ (rotate_refresh_token env raw d db ≡ threw db invalid_refresh_token)
  unfolding rotate_refresh_token
  rotate-references_checked raw d db {t} {f} {rest} c found fresh =
      ground (arith, replace_token-references_checked t f d db c)

  -- Within ten seconds of its rotation, while its replacement is not revoked, a rotated token is
  -- accepted again: nothing changes, and the token returned is the presented one.
  pub rotate-in_grace :
      (raw : String) (d : RotationDraws) (db : IdentityDb) {t : RefreshToken}
      {f : RefreshTokenFamily} {rest : List (RefreshToken × RefreshTokenFamily)}
      → find_token (env.sha256 raw) db ≡ (t, f) ∷ rest
      → f.is_compromised ≡ false
      → t.is_revoked ≡ false
      → d.checked_at ≤ t.expires_at
      → t.is_rotated ≡ true
      → d.seen_at ≤ get_or t.rotated_at 0 + 10000
      → live_replacement t.replacement_token_id db ≡ true
      → rotate_refresh_token env raw d db ≡ returned db (rotated_pair env raw f d)
  unfolding rotate_refresh_token
  rotate-in_grace raw d db found alive live early was recent replaced = ground arith
