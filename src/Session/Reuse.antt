-- ===== src/Session/Reuse.antt =====
-- What follows when a rotated refresh token is presented outside the grace window.
use guff_suff.Prelude.{
  ℕ, ◌+◌, ◌≤◌, ◌<◌, ◌≡◌, refl, subst, sym, ◌⊎◌, String, true, false, List, [], ◌∷◌, ◌&&◌, arith,
  ◌==◌, ==_iff, ==_refl, any, any-update, All, Anything, All-Anything, All-join, All-update_intro,
  get_or, is_some,
}
use guff_suff.Errors.{refresh_token_reuse}
use guff_suff.Action.{threw, returned}
use guff_suff.Environment.{Environment}
use guff_suff.Schema.Identity.{RefreshTokenFamily, RefreshToken, IdentityDb}
use guff_suff.Schema.Constraints.{security_event_violates}
use guff_suff.Session.{
  RotationDraws, rotate_refresh_token, find_token, compromise, flagged_at, token_revoked_at,
  session_revoked_at, report_reuse, reuse_event, live_replacement, rotated_pair,
}
use guff_suff.Session.Cases.{after_reuse}
use guff_suff.Session.Families.{IsDead}

All-any_self :
    (xs ys : List RefreshTokenFamily)
    → ((i : ℕ) → any (λ g. g.id == i) xs ≡ true → any (λ g. g.id == i) ys ≡ true)
    → All (λ f. any (λ g. g.id == f.id) ys ≡ true) xs
unfolding any
All-any_self [] ys h = tt
All-any_self (x ∷ xs) ys h =
    (h x.id (ground (arith, ==_refl x.id)), All-any_self xs ys (λ i k. h i (ground arith)))

-- The family of a token that the query finds is there.
found-family_exists :
    (hash : ℕ) (db : IdentityDb) {t : RefreshToken} {f : RefreshTokenFamily}
    {rest : List (RefreshToken × RefreshTokenFamily)}
    → find_token hash db ≡ (t, f) ∷ rest
    → any (λ g. g.id == t.family_id) db.refresh_token_families ≡ true
found-family_exists hash db {t} {f} {rest} found = (subst (All present) found all_present).0
  where
    families : List RefreshTokenFamily
    families = db.refresh_token_families

    present : (p : RefreshToken × RefreshTokenFamily) → Type 0
    present p = any (λ g. g.id == p.0.family_id) families ≡ true

    all_present : All present (find_token hash db)
    all_present =
        unfold find_token in
        All-join present Anything (λ f. any (λ g. g.id == f.id) families ≡ true)
          (λ rt rf. rt.family_id == rf.id)
          (λ x y e _ h.
            subst (λ (i : ℕ). any (λ g. g.id == i) families ≡ true)
              (sym ((==_iff x.family_id y.id).0 e)) h)
          _ _ (All-Anything _) (All-any_self families families (λ i k. k))

-- The family, its tokens and the sessions of its device are all invalid.
pub record IsTerminated (t : RefreshToken) (f : RefreshTokenFamily) (db : IdentityDb) : Type 0 where
  pub family : IsDead t.family_id db.refresh_token_families
  pub tokens :
      All (λ rt. (rt.family_id == t.family_id) ≡ true → rt.is_revoked ≡ true) db.refresh_tokens
  pub sessions :
      All
        (λ s.
          ((s.user_id == f.user_id) && (s.device_id == f.device_id)) ≡ true
          → is_some s.revoked_at ≡ true)
        db.sessions

compromise-IsTerminated :
    (t : RefreshToken) (f : RefreshTokenFamily) (now : ℕ) (db : IdentityDb)
    → any (λ g. g.id == t.family_id) db.refresh_token_families ≡ true
    → IsTerminated t f (compromise t f now db)
unfolding compromise
compromise-IsTerminated t f now db known = record {
  family = record {
    known =
        rw
          (any-update (λ g. g.id == t.family_id) _ (flagged_at now) (λ g. refl)
            db.refresh_token_families)
          known;
    compromised =
        All-update_intro _ _ (flagged_at now) (λ g _ _. refl) (λ g no is. cc)
          db.refresh_token_families;
  };
  tokens =
      All-update_intro _ _ (token_revoked_at now) (λ r _ _. refl) (λ r no is. cc) db.refresh_tokens;
  sessions =
      All-update_intro _ _ (session_revoked_at now) (λ s _ _. refl) (λ s no is. cc) db.sessions;
}

module _ (env : Environment) (raw : String) (d : RotationDraws) (db : IdentityDb) {t : RefreshToken}
    {f : RefreshTokenFamily} {rest : List (RefreshToken × RefreshTokenFamily)}
    (found : find_token (env.sha256 raw) db ≡ (t, f) ∷ rest) (alive : f.is_compromised ≡ false)
    (live : t.is_revoked ≡ false) (early : d.checked_at ≤ t.expires_at)
    (was_rotated : t.is_rotated ≡ true) where
  -- A rotated token, itself neither revoked nor expired and of a family that is not compromised,
  -- raises the alert when it is presented more than ten seconds after its rotation, or when its
  -- replacement is revoked or gone. The call throws and yet commits: the family is
  -- compromised, its tokens and the sessions of its user and device are revoked, and a security
  -- event of high severity is recorded. The event's row must be one that the
  -- database accepts.
  pub rotate-reuse :
      (get_or t.rotated_at 0 + 10000 < d.seen_at)
        ⊎ (live_replacement t.replacement_token_id db ≡ false)
      → security_event_violates env (reuse_event t f d) (compromise t f d.db_now db) ≡ false
      → (rotate_refresh_token env raw d db ≡ threw (after_reuse t f d db) refresh_token_reuse)
        × IsTerminated t f (after_reuse t f d db)
  unfolding rotate_refresh_token report_reuse
  rotate-reuse late recorded = (
    ground arith,
    record { family = dead.family; tokens = dead.tokens; sessions = dead.sessions },
  )
    where
      dead : IsTerminated t f (compromise t f d.db_now db)
      dead = compromise-IsTerminated t f d.db_now db (found-family_exists (env.sha256 raw) db found)

  -- The token that a call within the grace window returns is no new one: it is the presented token,
  -- and nothing is written. Presenting it once more after the window has closed, before it expires
  -- and in the unchanged database, raises the alert (if the row of the security event is one that
  -- the database accepts).
  pub grace-reuse :
      (later : RotationDraws)
      → d.seen_at ≤ get_or t.rotated_at 0 + 10000
      → live_replacement t.replacement_token_id db ≡ true
      → get_or t.rotated_at 0 + 10000 < later.seen_at
      → later.checked_at ≤ t.expires_at
      → security_event_violates env (reuse_event t f later) (compromise t f later.db_now db) ≡ false
      → (rotate_refresh_token env raw d db ≡ returned db (rotated_pair env raw f d))
        × (rotate_refresh_token env (rotated_pair env raw f d).refresh_token later db
            ≡ threw (after_reuse t f later db) refresh_token_reuse)
  unfolding rotate_refresh_token report_reuse
  grace-reuse later recent replaced late in_time recorded = (ground arith, ground arith)
