-- ===== src/Session/Cases.antt =====
-- What the methods of session.service.ts leave in the database, as a rule for each method: a
-- property of the state holds after the call if it holds in each state that the call can leave.
use guff_suff.Prelude.{ℕ, ◌≡◌, refl, String, false, List, [], ◌∷◌, arith, update, ◌==◌}
use guff_suff.Action.{Outcome, returned, threw, continue, final, rolled_back}
use guff_suff.Environment.{Environment}
use guff_suff.Schema.Identity.{RefreshTokenFamily, RefreshToken, IdentityDb}
use guff_suff.Schema.Constraints.{
  session_violates, family_violates, token_violates, replacement_violates,
}
use guff_suff.Session.{
  SessionDraws, RotationDraws, create_session, rotate_refresh_token, find_token, compromise,
  report_reuse, check_token, reuse_event, replacement_of, linked_to, created_session,
  created_family, created_token, RotationEnd, in_grace, reuse_detected, rotated, finish,
}

-- What follows the COMMIT of a rotation writes nothing.
pub final-finish :
    (env : Environment) (raw : String) (d : RotationDraws) (o : Outcome IdentityDb RotationEnd)
    → final (continue o (finish env raw d)) ≡ final o
unfolding finish
final-finish env raw d (returned s (in_grace f)) = refl
final-finish env raw d (returned s reuse_detected) = refl
final-finish env raw d (returned s (rotated f)) = refl
final-finish env raw d (threw s e) = refl

abbrev pub after_create : Environment → ℕ → ℕ → SessionDraws → IdentityDb → IdentityDb
after_create env user device d db = record db {
  sessions = created_session user device d ∷ db.sessions;
  refresh_token_families = created_family user device d ∷ db.refresh_token_families;
  refresh_tokens = created_token env d ∷ db.refresh_tokens;
}

abbrev pub after_reuse : RefreshToken → RefreshTokenFamily → RotationDraws → IdentityDb → IdentityDb
after_reuse t f d db = record (compromise t f d.db_now db) {
  security_events = reuse_event t f d ∷ (compromise t f d.db_now db).security_events;
}

abbrev pub after_mark : RefreshToken → RotationDraws → IdentityDb → IdentityDb
after_mark t d db = record db {
  refresh_tokens = update (λ r. r.id == t.id) (linked_to d) db.refresh_tokens;
}

abbrev pub after_rotation : Environment → RefreshToken → RotationDraws → IdentityDb → IdentityDb
after_rotation env t d db = record db {
  refresh_tokens =
      replacement_of env t d ∷ update (λ r. r.id == t.id) (linked_to d) db.refresh_tokens;
}

module _ {ℓ} (env : Environment) (P : IdentityDb → Type ℓ) where
  pub create_session_cases :
      (user device : ℕ) (d : SessionDraws) (db : IdentityDb)
      → P db
      → (session_violates env (created_session user device d) db ≡ false
          → family_violates env
              (created_family user device d)
              (record db { sessions = created_session user device d ∷ db.sessions })
            ≡ false
          → token_violates env (created_token env d) (record db {
            sessions = created_session user device d ∷ db.sessions;
            refresh_token_families = created_family user device d ∷ db.refresh_token_families;
          })
            ≡ false
          → P (after_create env user device d db))
      → P (final (create_session env user device d db))
  unfolding create_session
  create_session_cases user device d db failed done = ground arith

  check_token_cases :
      (d : RotationDraws) (rows : List (RefreshToken × RefreshTokenFamily)) (db : IdentityDb)
      → P db
      → ((t : RefreshToken) (f : RefreshTokenFamily) → P (after_reuse t f d db))
      → ((t : RefreshToken) (f : RefreshTokenFamily)
          → replacement_violates env d.token_id db ≡ false
          → token_violates env (replacement_of env t d) (after_mark t d db) ≡ false
          → P (after_rotation env t d db))
      → P (final (rolled_back db (check_token env d rows db)))
  unfolding check_token report_reuse
  check_token_cases d [] db failed reused done = failed
  check_token_cases d ((t, f) ∷ rest) db failed reused done = ground (arith, reused t f, done t f)

  pub rotate_cases :
      (raw : String) (d : RotationDraws) (db : IdentityDb)
      → P db
      → ((t : RefreshToken) (f : RefreshTokenFamily) → P (after_reuse t f d db))
      → ((t : RefreshToken) (f : RefreshTokenFamily)
          → replacement_violates env d.token_id db ≡ false
          → token_violates env (replacement_of env t d) (after_mark t d db) ≡ false
          → P (after_rotation env t d db))
      → P (final (rotate_refresh_token env raw d db))
  unfolding rotate_refresh_token
  rotate_cases raw d db failed reused done =
      rw (final-finish env raw d _)
        (check_token_cases d (find_token (env.sha256 raw) db) db failed reused done)
