-- ===== src/Session/Families.antt =====
-- What the methods of session.service.ts can do to the families of refresh tokens: add one under a
-- new identifier, or mark some as compromised. No method takes a mark back or deletes a family.
use guff_suff.Prelude.{
  ℕ, ◌≡◌, refl, ap, subst, String, Bool, true, false, List, ◌∷◌, arith, ◌==◌, ==_iff, ==_refl,
  ||-eq-false, any, any-update, update, All, Anything, All-Anything, All-update, All-join,
}
use guff_suff.Errors.{invalid_refresh_token}
use guff_suff.Action.{threw, final}
use guff_suff.Environment.{Environment}
use guff_suff.Schema.Identity.{RefreshTokenFamily, RefreshToken, IdentityDb}
use guff_suff.Schema.Constraints.{family_violates}
use guff_suff.Session.{
  SessionDraws, RotationDraws, create_session, rotate_refresh_token, revoke_session,
  revoke_all_sessions_for_user, find_token, compromise, created_family, flagged_at,
}
use guff_suff.Session.Cases.{create_session_cases, rotate_cases}

-- The family `i` is known, and every row of it is compromised.
pub record IsDead (i : ℕ) (families : List RefreshTokenFamily) : Type 0 where
  pub known : any (λ f. f.id == i) families ≡ true
  pub compromised : All (λ f. (f.id == i) ≡ true → f.is_compromised ≡ true) families

IsDead-cons :
    (i : ℕ) (f : RefreshTokenFamily) (families : List RefreshTokenFamily)
    → any (λ r. r.id == f.id) families ≡ false
    → IsDead i families
    → IsDead i (f ∷ families)
unfolding any
IsDead-cons i f families new dead = record {
  known = ground (arith, dead.known);
  compromised = (
    λ h. cc (ap (λ (j : ℕ). any (λ r. r.id == j) families) ((==_iff f.id i).0 h), dead.known),
    dead.compromised,
  );
}

pub IsDead-flag :
    (i : ℕ) (p : RefreshTokenFamily → Bool) (now : ℕ) (families : List RefreshTokenFamily)
    → IsDead i families
    → IsDead i (update p (flagged_at now) families)
IsDead-flag i p now families dead = record {
  known = rw (any-update (λ f. f.id == i) p (flagged_at now) (λ f. refl) families) dead.known;
  compromised = All-update _ p (flagged_at now) (λ f _ _ _. refl) families dead.compromised;
}

module _ (env : Environment) (i : ℕ) where
  pub create_session-IsDead :
      (user device : ℕ) (d : SessionDraws) (db : IdentityDb)
      → IsDead i db.refresh_token_families
      → IsDead i (final (create_session env user device d db)).refresh_token_families
  unfolding family_violates
  create_session-IsDead user device d db dead =
      create_session_cases env (λ s. IsDead i s.refresh_token_families) user device d db dead
        λ _ new _.
          IsDead-cons i (created_family user device d) db.refresh_token_families
            (||-eq-false _ _ new).0 dead

  pub rotate-IsDead_kept :
      (raw : String) (d : RotationDraws) (db : IdentityDb)
      → IsDead i db.refresh_token_families
      → IsDead i (final (rotate_refresh_token env raw d db)).refresh_token_families
  unfolding compromise
  rotate-IsDead_kept raw d db dead =
      rotate_cases env (λ s. IsDead i s.refresh_token_families) raw d db dead
        (λ t f. IsDead-flag i _ d.db_now _ dead) (λ t f _ _. dead)

pub revoke_all-IsDead :
    (i user now : ℕ) (db : IdentityDb)
    → IsDead i db.refresh_token_families
    → IsDead i (final (revoke_all_sessions_for_user user now db)).refresh_token_families
unfolding revoke_all_sessions_for_user
revoke_all-IsDead i user now db dead = IsDead-flag i _ now _ dead

pub revoke_session-IsDead :
    (i session now : ℕ) (db : IdentityDb)
    → IsDead i db.refresh_token_families
    → IsDead i (final (revoke_session session now db)).refresh_token_families
unfolding revoke_session
revoke_session-IsDead i session now db dead = dead

-- No token of a dead family is rotated: the call throws and changes nothing.
pub rotate-IsDead :
    (env : Environment) (raw : String) (d : RotationDraws) (db : IdentityDb) {t : RefreshToken}
    {f : RefreshTokenFamily} {rest : List (RefreshToken × RefreshTokenFamily)}
    → find_token (env.sha256 raw) db ≡ (t, f) ∷ rest
    → IsDead t.family_id db.refresh_token_families
    → rotate_refresh_token env raw d db ≡ threw db invalid_refresh_token
unfolding rotate_refresh_token
rotate-IsDead env raw d db {t} {f} {rest} found dead = ground (arith, marked)
  where
    marks : (p : RefreshToken × RefreshTokenFamily) → Type 0
    marks p = (p.0.family_id == t.family_id) ≡ true → p.1.is_compromised ≡ true

    all_marked : All marks (find_token (env.sha256 raw) db)
    all_marked =
        unfold find_token in
        All-join marks Anything (λ g. (g.id == t.family_id) ≡ true → g.is_compromised ≡ true)
          (λ rt rf. rt.family_id == rf.id) (λ x y e _ h k. h (ground arith)) _ _ (All-Anything _)
          dead.compromised

    marked : f.is_compromised ≡ true
    marked = (subst (All marks) found all_marked).0 (==_refl t.family_id)
