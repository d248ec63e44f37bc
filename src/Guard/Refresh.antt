-- ===== src/Guard/Refresh.antt =====
-- The access tokens that a refresh issues, at the guard.
use guff_suff.Prelude.{
  ℕ, ◌≡◌, String, Bool, false, List, [], ◌∷◌, ◌&&◌, arith, ◌==◌, any, any-imp, select-eq_nil, join,
  Bool-cases, inl, inr,
}
use guff_suff.Errors.{session_not_found}
use guff_suff.Action.{returned, threw}
use guff_suff.Environment.{Environment, Claims}
use guff_suff.Schema.Identity.{Session, RefreshToken, RefreshTokenFamily, IdentityDb}
use guff_suff.Session.{
  TokenPair, RotationDraws, find_token, report_reuse, generate_access_token, rotate_refresh_token,
}
use guff_suff.Guard.{session_rows, check_session, can_activate}
use guff_suff.Guard.Login.{bearer, Verifies, can_activate-bearer}

abbrev pub refreshed_claims : RefreshTokenFamily → RotationDraws → Claims
refreshed_claims f d = record {
  session_id = d.claimed_session_id;
  user_id = f.user_id;
  device_id = f.device_id;
  session_version = 1;
}

session_rows-unknown :
    (c : Claims) (db : IdentityDb)
    → any (λ s. s.id == c.session_id) db.sessions ≡ false
    → session_rows c db ≡ []
unfolding session_rows join
session_rows-unknown c db unknown = rw (select-eq_nil claimed db.sessions none_claimed)
  where
    claimed : Session → Bool
    claimed s = (s.id == c.session_id) && ((s.user_id == c.user_id) && (s.device_id == c.device_id))

    none_claimed : any claimed db.sessions ≡ false
    none_claimed = elim (Bool-cases (any claimed db.sessions)) [
      | inl some_ ↦
          cc (any-imp claimed (λ s. s.id == c.session_id) (λ s h. ground arith) db.sessions some_)
      | inr e ↦ e
    ]

module _ (env : Environment) (raw : String) (d : RotationDraws) (db : IdentityDb) {t : RefreshToken}
    {f : RefreshTokenFamily} {rest : List (RefreshToken × RefreshTokenFamily)}
    (found : find_token (env.sha256 raw) db ≡ (t, f) ∷ rest) {db' : IdentityDb} {pair : TokenPair}
    (done : rotate_refresh_token env raw d db ≡ returned db' pair) where
  refreshed_token : pair.access_token ≡ generate_access_token env (refreshed_claims f d) d.signed_at
  unfolding rotate_refresh_token report_reuse
  refreshed_token = ground arith

  -- The access token of a refresh names a session that is drawn anew and stored nowhere. Unless that
  -- identifier happens to be one of a stored session, the guard refuses the token (if it verifies to
  -- the claims that were signed): no session is found for it, though the refresh succeeded.
  pub rotate-session_unknown :
      (now : ℕ)
      → any (λ s. s.id == d.claimed_session_id) db'.sessions ≡ false
      → Verifies env (refreshed_claims f d) d.signed_at now
      → can_activate env (bearer pair.access_token) now db' ≡ threw db' session_not_found
  unfolding check_session
  rotate-session_unknown now unknown law = rw refreshed_token (
      rw (can_activate-bearer env (refreshed_claims f d) d.signed_at now db' law)
        (rw (session_rows-unknown (refreshed_claims f d) db' unknown)))
