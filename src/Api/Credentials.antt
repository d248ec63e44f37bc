-- ===== src/Api/Credentials.antt =====
-- What the requests of one user do to the sessions and refresh tokens of the others.
pub mod Requests
use guff_suff.Prelude.{
  ℕ, ◌≡◌, refl, fun_ext, sym, subst, ap, ◌∙◌, String, Bool, true, false, Option, none, some, List,
  [], ◌∷◌, arith, not, ◌&&◌, ◌==◌, ==_iff, inl, inr, Bool-cases, any, any-update, select, update,
  All, All-imp, All-In, All-In_elim, Distinct, Distinct-only, In,
}
use guff_suff.Action.{Action, Outcome, returned, threw, final, continue, pure}
use guff_suff.Environment.{Environment}
use guff_suff.Json.{Json}
use guff_suff.Schema.Identity.{IdentityDb, Session, RefreshTokenFamily, RefreshToken, Device}
use guff_suff.Session.{
  flagged_at, token_revoked_at, session_revoked_at, revoke_session, revoke_all_sessions_for_user,
}
use guff_suff.Device.{
  DeviceDraws, is_active_of, rename_device, revoke_device, revoke_credentials, mark_revoked,
}
use guff_suff.Device.Revocation.{revoke_device-unknown}
use guff_suff.Device.Cases.{rename_device_cases, revoke_device_cases}

-- Sessions and token families have distinct keys, and belong to the user of their device.
pub record IsOwned (db : IdentityDb) : Type 0 where
  pub session_ids : Distinct (λ s r. s.id == r.id) db.sessions
  pub family_ids : Distinct (λ f g. f.id == g.id) db.refresh_token_families
  pub sessions :
      All
        (λ s. All (λ d. (d.id == s.device_id) ≡ true → d.user_id ≡ s.user_id) db.devices)
        db.sessions
  pub families :
      All
        (λ f. All (λ d. (d.id == f.device_id) ≡ true → d.user_id ≡ f.user_id) db.devices)
        db.refresh_token_families

All-every : {A : Type 0} (P : A → Type 0) → ((x : A) → P x) → (xs : List A) → All P xs
All-every P h [] = tt
All-every P h (x ∷ xs) = (h x, All-every P h xs)

module _ (u : ℕ) where
  abbrev other_session : Session → Bool
  other_session s = not (s.user_id == u)

  abbrev other_family : RefreshTokenFamily → Bool
  other_family f = not (f.user_id == u)

  abbrev other_token : List RefreshTokenFamily → RefreshToken → Bool
  other_token fs t = any (λ f. (f.id == t.family_id) && other_family f) fs

  -- The sessions, token families and refresh tokens of the other users are the same rows.
  pub record CredentialsApart (db t : IdentityDb) : Type 0 where
    pub sessions : select other_session t.sessions ≡ select other_session db.sessions
    pub families :
        select other_family t.refresh_token_families ≡ select other_family db.refresh_token_families
    pub tokens :
        select (other_token t.refresh_token_families) t.refresh_tokens
        ≡ select (other_token db.refresh_token_families) db.refresh_tokens

  pub untouched-CredentialsApart :
      (db t : IdentityDb)
      → t.sessions ≡ db.sessions
      → t.refresh_token_families ≡ db.refresh_token_families
      → t.refresh_tokens ≡ db.refresh_tokens
      → CredentialsApart db t
  untouched-CredentialsApart db t s f r = record {
    sessions = ap (select other_session) s;
    families = ap (select other_family) f;
    tokens = rw (f, r) refl;
  }

  -- An update that touches no row of the others.
  select-update_others :
      {A : Type 0} (p q : A → Bool) (f : A → A)
      → ((x : A) → p (f x) ≡ p x)
      → (xs : List A) → All (λ x. q x ≡ true → p x ≡ false) xs
      → select p (update q f xs) ≡ select p xs
  unfolding select update
  select-update_others p q f same [] a = refl
  select-update_others p q f same (x ∷ xs) a =
      ground (arith, same x, a.0, select-update_others p q f same xs a.1)

  absent :
      (k : ℕ) (q : RefreshTokenFamily → Bool) (fs : List RefreshTokenFamily)
      → any (λ f. f.id == k) fs ≡ false
      → any (λ f. (f.id == k) && q f) fs ≡ false
  unfolding any
  absent k q [] h = refl
  absent k q (f ∷ fs) h = ground (arith, absent k q fs)

  -- A family of the user, by its identifier, is no family of another.
  family_clash :
      (k : ℕ) (q : RefreshTokenFamily → Bool) (fs : List RefreshTokenFamily)
      → Distinct (λ f g. f.id == g.id) fs
      → All (λ f. q f ≡ true → other_family f ≡ false) fs
      → any (λ f. (f.id == k) && q f) fs ≡ true
      → any (λ f. (f.id == k) && other_family f) fs ≡ false
  unfolding any
  family_clash k q [] d a h = refl
  family_clash k q (f ∷ fs) d a h = elim (Bool-cases (f.id == k)) [
    | inl here ↦
        let alone : any (λ g. g.id == k) fs ≡ false =
          subst (λ (j : ℕ). any (λ g. g.id == j) fs ≡ false) ((==_iff f.id k).0 here) d.0 in
        ground (arith, here, a.0, absent k q fs alone, absent k other_family fs alone)
    | inr there ↦ ground (arith, there, family_clash k q fs d.1 a.1)
  ]

  -- Flagging families by `q`, and revoking their tokens.
  flag-CredentialsApart :
      (now : ℕ) (q : RefreshTokenFamily → Bool) (fs : List RefreshTokenFamily)
      (ts : List RefreshToken)
      → ((f : RefreshTokenFamily) → q (flagged_at now f) ≡ q f)
      → Distinct (λ f g. f.id == g.id) fs
      → All (λ f. q f ≡ true → other_family f ≡ false) fs
      → let gs = update q (flagged_at now) fs in
        (select other_family gs ≡ select other_family fs)
        × (select
              (other_token gs)
              (update (λ t. any (λ f. (f.id == t.family_id) && q f) gs) (token_revoked_at now) ts)
            ≡ select (other_token fs) ts)
  flag-CredentialsApart now q fs ts same d a = (
    select-update_others other_family q (flagged_at now) (λ f. refl) fs a,
    rw
        (fun_ext λ (t : RefreshToken).
          any-update (λ f. (f.id == t.family_id) && other_family f) q (flagged_at now) (λ f. refl)
            fs)
        (select-update_others (other_token fs) _ (token_revoked_at now) (λ t. refl) ts
          (All-every
            (λ (t : RefreshToken).
              any (λ f. (f.id == t.family_id) && q f) (update q (flagged_at now) fs) ≡ true
              → other_token fs t ≡ false)
            (λ t hit. family_clash t.family_id q fs d a (
              sym (
                any-update (λ f. (f.id == t.family_id) && q f) q (flagged_at now)
                  (λ f. rw (same f) refl) fs)
              ∙ hit))
            ts)),
  )

-- A device of the user owns nothing of the others.
owner :
    (u i j k : ℕ) (ds : List Device)
    → All (λ d. (d.id == j) ≡ true → d.user_id ≡ k) ds
    → any (is_active_of u i) ds ≡ true
    → (j == i) ≡ true
    → not (k == u) ≡ false
unfolding any
owner u i j k [] a active same = ground arith
owner u i j k (d ∷ ds) a active same = ground (arith, a.0, owner u i j k ds a.1)

module _ (u : ℕ) (db : IdentityDb) (owned : IsOwned db) where
  pub revoke_all-CredentialsApart :
      (now : ℕ) → CredentialsApart u db (final (revoke_all_sessions_for_user u now db))
  unfolding revoke_all_sessions_for_user
  revoke_all-CredentialsApart now =
      let flagged =
        flag-CredentialsApart u now (λ f. f.user_id == u) db.refresh_token_families
          db.refresh_tokens (λ f. refl) owned.family_ids
          (All-every
            (λ (f : RefreshTokenFamily). (f.user_id == u) ≡ true → other_family u f ≡ false)
            (λ f is. ground arith) db.refresh_token_families) in
      record {
        sessions =
            select-update_others u (other_session u) (λ s. s.user_id == u) (session_revoked_at now)
              (λ s. refl) db.sessions
              (All-every (λ (s : Session). (s.user_id == u) ≡ true → other_session u s ≡ false)
                (λ s is. ground arith) db.sessions);
        families = flagged.0;
        tokens = flagged.1;
      }

  credentials-CredentialsApart :
      (i now : ℕ) (moved : List Device)
      → any (is_active_of u i) db.devices ≡ true
      → CredentialsApart u db (revoke_credentials i now (record db { devices = moved }))
  unfolding revoke_credentials
  credentials-CredentialsApart i now moved active =
      let flagged =
        flag-CredentialsApart u now (λ f. f.device_id == i) db.refresh_token_families
          db.refresh_tokens (λ f. refl) owned.family_ids
          (All-imp _ (λ f a hit. owner u i f.device_id f.user_id db.devices a active hit)
            db.refresh_token_families owned.families) in
      record {
        sessions =
            select-update_others u (other_session u) (λ s. s.device_id == i)
              (session_revoked_at now) (λ s. refl) db.sessions
              (All-imp _ (λ s a hit. owner u i s.device_id s.user_id db.devices a active hit)
                db.sessions owned.sessions);
        families = flagged.0;
        tokens = flagged.1;
      }

  pub revoke_device-CredentialsApart :
      (env : Environment) (i : ℕ) (reason : String) (d : DeviceDraws)
      → CredentialsApart u db (final (revoke_device env u i reason d db))
  unfolding mark_revoked
  revoke_device-CredentialsApart env i reason d =
      elim (Bool-cases (any (is_active_of u i) db.devices)) [
        | inl active ↦
            revoke_device_cases (CredentialsApart u db) u i d db env reason
              (untouched-CredentialsApart u db db refl refl refl)
              (λ name.
                let c = credentials-CredentialsApart i d.db_now _ active in
                record { sessions = c.sessions; families = c.families; tokens = c.tokens })
        | inr none_active ↦
            rw (revoke_device-unknown env u i reason d db none_active)
              (untouched-CredentialsApart u db db refl refl refl)
      ]

  -- A logout, of a session whose row is the user's.
  pub revoke_session-CredentialsApart :
      (session now : ℕ)
      → All (λ s. (s.id == session) ≡ true → s.user_id ≡ u) db.sessions
      → CredentialsApart u db (final (revoke_session session now db))
  unfolding revoke_session
  revoke_session-CredentialsApart session now mine = record {
    sessions =
        select-update_others u (other_session u) (λ s. s.id == session) (session_revoked_at now)
          (λ s. refl) db.sessions (All-imp _ (λ s m hit. ground (arith, m hit)) db.sessions mine);
    families = refl;
    tokens = refl;
  }
