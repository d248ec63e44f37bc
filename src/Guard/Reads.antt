-- ===== src/Guard/Reads.antt =====
-- The guard reads the database and does not write it.
use guff_suff.Prelude.{ℕ, ◌≡◌, refl, String, Option, none, some, List, [], ◌∷◌, arith}
use guff_suff.Action.{final}
use guff_suff.Environment.{Environment, Claims}
use guff_suff.Schema.Identity.{User, Device, Session, IdentityDb}
use guff_suff.Session.{verify_access_token}
use guff_suff.Guard.{
  check_session, check_claims, check_header, bearer_token, session_rows, can_activate,
}

module _ (env : Environment) (header : Option (List String)) (now : ℕ) where
  rows-kept :
      (c : Claims) (rows : List ((Session × Device) × User)) (db : IdentityDb)
      → final (check_session c rows db) ≡ db
  unfolding check_session
  rows-kept c [] db = refl
  rows-kept c (((s, d), u) ∷ rest) db = ground arith

  claims-kept : (c : Option Claims) (db : IdentityDb) → final (check_claims c db) ≡ db
  unfolding check_claims
  claims-kept none db = refl
  claims-kept (some c) db = rows-kept c (session_rows c db) db

  header-kept :
      (token : Option String) (db : IdentityDb) → final (check_header env now token db) ≡ db
  unfolding check_header
  header-kept none db = refl
  header-kept (some token) db = claims-kept (verify_access_token env token now) db

  pub guard-kept : (db : IdentityDb) → final (can_activate env header now db) ≡ db
  unfolding can_activate
  guard-kept db = header-kept (bearer_token header) db
