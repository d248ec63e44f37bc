-- ===== src/Session/Found.antt =====
-- The row that a rotation finds, and what a rotation leaves when its checks have passed.
use guff_suff.Prelude.{
  ℕ, ◌≡◌, refl, subst, String, false, List, [], ◌∷◌, arith, ==_iff, All, All-join, Anything,
  All-Anything, In, All-In,
}
use guff_suff.Action.{final, rolled_back}
use guff_suff.Environment.{Environment}
use guff_suff.Schema.Identity.{RefreshTokenFamily, RefreshToken, IdentityDb}
use guff_suff.Session.{RotationDraws, rotate_refresh_token, find_token, check_token, report_reuse}
use guff_suff.Session.Cases.{after_reuse, after_rotation, final-finish}

-- The family that the query finds is a row, and it is the family of the token.
pub found-family :
    (hash : ℕ) (db : IdentityDb) {t : RefreshToken} {f : RefreshTokenFamily}
    {rest : List (RefreshToken × RefreshTokenFamily)}
    → find_token hash db ≡ (t, f) ∷ rest
    → In f db.refresh_token_families × (t.family_id ≡ f.id)
found-family hash db found = (subst (All OfFamily) found all_rows).0
  where
    OfFamily : (p : RefreshToken × RefreshTokenFamily) → Type 0
    OfFamily p = In p.1 db.refresh_token_families × (p.0.family_id ≡ p.1.id)

    all_rows : All OfFamily (find_token hash db)
    all_rows =
        unfold find_token in
        All-join OfFamily Anything (λ f. In f db.refresh_token_families) _
          (λ t f e _ i. (i, (==_iff t.family_id f.id).0 e)) _ _ (All-Anything _)
          (All-In db.refresh_token_families db.refresh_token_families (λ x i. i))

module _ {ℓ} (env : Environment) (P : IdentityDb → Type ℓ) (raw : String) (d : RotationDraws)
    (db : IdentityDb) (failed : P db) where
  check_token_found :
      (rows : List (RefreshToken × RefreshTokenFamily))
      → ((t : RefreshToken) (f : RefreshTokenFamily)
            (rest : List (RefreshToken × RefreshTokenFamily))
          → rows ≡ (t, f) ∷ rest
          → P (after_reuse t f d db))
      → ((t : RefreshToken) (f : RefreshTokenFamily)
            (rest : List (RefreshToken × RefreshTokenFamily))
          → rows ≡ (t, f) ∷ rest
          → f.is_compromised ≡ false
          → P (after_rotation env t d db))
      → P (final (rolled_back db (check_token env d rows db)))
  unfolding check_token report_reuse
  check_token_found [] reused done = failed
  check_token_found ((t, f) ∷ rest) reused done =
      ground (arith, reused t f rest refl, done t f rest refl)

  -- A property of the state holds after a rotation if it holds in each state that a rotation of the
  -- found token can leave.
  pub rotate_found_cases :
      ((t : RefreshToken) (f : RefreshTokenFamily) (rest : List (RefreshToken × RefreshTokenFamily))
        → find_token (env.sha256 raw) db ≡ (t, f) ∷ rest
        → P (after_reuse t f d db))
      → ((t : RefreshToken) (f : RefreshTokenFamily)
            (rest : List (RefreshToken × RefreshTokenFamily))
          → find_token (env.sha256 raw) db ≡ (t, f) ∷ rest
          → f.is_compromised ≡ false
          → P (after_rotation env t d db))
      → P (final (rotate_refresh_token env raw d db))
  unfolding rotate_refresh_token
  rotate_found_cases reused done =
      rw (final-finish env raw d _) (check_token_found (find_token (env.sha256 raw) db) reused done)
