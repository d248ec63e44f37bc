-- ===== src/Guard/Login.antt =====
-- The access tokens that the session service issues, at the guard.
use guff_suff.Prelude.{
  ℕ, ◌≡◌, refl, subst, String, Bool, true, false, Option, some, List, [], ◌∷◌, ◌&&◌, arith, ◌==◌,
  ==_refl, any-imp, select, select-All, select_of_any, join-cons, All,
}
use guff_suff.Action.{returned}
use guff_suff.Environment.{Environment, Claims}
use guff_suff.Schema.Identity.{User, Device, Session, IdentityDb}
use guff_suff.Schema.Constraints.{session_violates, user_exists, device_exists}
use guff_suff.Session.{
  TokenPair, SessionDraws, create_session, generate_access_token, verify_access_token,
  created_session, created_pair,
}
use guff_suff.Session.Cases.{after_create}
use guff_suff.Guard.Denial.{session_rows-All_device, session_rows-All_user}
use guff_suff.Guard.{bearer_token, session_rows, may_log_in, check_session, can_activate}

-- The header `Authorization: Bearer <token>`.
abbrev pub bearer : String → Option (List String)
bearer token = some ("Bearer" ∷ token ∷ [])

-- Law of jsonwebtoken: a token that was signed with a secret and options verifies with them, at the
-- time `now`, to the claims that were signed.
abbrev pub Verifies : Environment → Claims → ℕ → ℕ → Type 0
Verifies env c issued now =
    verify_access_token env (generate_access_token env c issued) now ≡ some c

pub can_activate-bearer :
    (env : Environment) (c : Claims) (issued now : ℕ) (db : IdentityDb)
    → Verifies env c issued now
    → can_activate env (bearer (generate_access_token env c issued)) now db
      ≡ check_session c (session_rows c db) db
unfolding can_activate bearer_token
can_activate-bearer env c issued now db law = ground arith

module _ (env : Environment) (user device : ℕ) (d : SessionDraws) (db : IdentityDb)
    {db' : IdentityDb} {pair : TokenPair} where
  create_session_returned :
      create_session env user device d db ≡ returned db' pair
      → (session_violates env (created_session user device d) db ≡ false)
        × (db' ≡ after_create env user device d db)
        × (pair ≡ created_pair env user device d)
  unfolding create_session
  create_session_returned h = (ground arith, ground arith, ground arith)

abbrev claims_of : ℕ → ℕ → SessionDraws → Claims
claims_of user device d = record {
  session_id = d.session_id;
  user_id = user;
  device_id = device;
  session_version = 1;
}

-- The query of the guard finds the session first.
session_rows-first :
    (c : Claims) (s : Session) (ss : List Session) (db : IdentityDb)
    → db.sessions ≡ s ∷ ss
    → s.id ≡ c.session_id
    → s.user_id ≡ c.user_id
    → s.device_id ≡ c.device_id
    → device_exists db c.device_id ≡ true
    → user_exists db c.user_id ≡ true
    → (x : Device) × (u : User) × (rest : List ((Session × Device) × User)) × (session_rows c db
        ≡ ((s, x), u) ∷ rest)
      × ((x.id == c.device_id) ≡ true)
      × ((u.id == c.user_id) ≡ true)
session_rows-first c s ss db sessions id_ user_ device_ has_device has_user =
    (x.0, u.0, rows.0, rows.1, ground (arith, found_device), ground (arith, found_user))
  where
    claimed : Session → Bool
    claimed r = (r.id == c.session_id) && ((r.user_id == c.user_id) && (r.device_id == c.device_id))

    x : (r : Device) × (rs : List Device) × (select (λ r. s.device_id == r.id) db.devices ≡ r ∷ rs)
    x =
        select_of_any (λ r. s.device_id == r.id) db.devices
          (any-imp (λ r. r.id == c.device_id) (λ r. s.device_id == r.id) (λ r h. ground arith)
            db.devices has_device)

    u : (r : User) × (rs : List User) × (select (λ r. s.user_id == r.id) db.users ≡ r ∷ rs)
    u =
        select_of_any (λ r. s.user_id == r.id) db.users
          (any-imp (λ r. r.id == c.user_id) (λ r. s.user_id == r.id) (λ r h. ground arith) db.users
            has_user)

    first : select claimed db.sessions ≡ s ∷ select claimed ss
    first = rw sessions (unfold select in ground (arith, ==_refl c.session_id))

    found_device : (s.device_id == x.0.id) ≡ true
    found_device =
        (subst (All (λ r. (s.device_id == r.id) ≡ true)) x.2
          (select-All (λ r. s.device_id == r.id) db.devices)).0

    found_user : (s.user_id == u.0.id) ≡ true
    found_user =
        (subst (All (λ r. (s.user_id == r.id) ≡ true)) u.2
          (select-All (λ r. s.user_id == r.id) db.users)).0

    rows : (rest : List ((Session × Device) × User)) × (session_rows c db ≡ ((s, x.0), u.0) ∷ rest)
    rows =
        unfold session_rows in
        (
          _,
          join-cons (λ p r. p.0.user_id == r.id) _ db.users
              (join-cons (λ r y. r.device_id == y.id) _ db.devices first x.2) u.2,
        )

check_session-first :
    (env : Environment) (user device : ℕ) (d : SessionDraws) (db : IdentityDb) (ss : List Session)
    → db.sessions ≡ created_session user device d ∷ ss
    → device_exists db device ≡ true
    → user_exists db user ≡ true
    → All (λ x. (x.id == device) ≡ true → x.is_revoked ≡ false) db.devices
    → All (λ u. (u.id == user) ≡ true → may_log_in u.account_state ≡ true) db.users
    → check_session (claims_of user device d) (session_rows (claims_of user device d) db) db
      ≡ returned db (record { user_id = user; device_id = device; session_id = d.session_id })
unfolding check_session
check_session-first env user device d db ss sessions has_device has_user unrevoked active =
    let c : Claims = claims_of user device d in
    let row =
      session_rows-first c (created_session user device d) ss db sessions refl refl refl has_device
        has_user in
    let live =
      (subst (All (λ p. (p.0.1.id == device) ≡ true → p.0.1.is_revoked ≡ false)) row.3
        (session_rows-All_device _ c db unrevoked)).0 in
    let may =
      (subst (All (λ p. (p.1.id == user) ≡ true → may_log_in p.1.account_state ≡ true)) row.3
        (session_rows-All_user _ c db active)).0 in
    ground (arith, row.3, row.4, row.5, live, may)

-- The token that `createSession` issues is admitted at once, in the database that it leaves, if the
-- database checks references, the device is not revoked, and the account may log in.
pub create_session-admitted :
    (env : Environment) (user device : ℕ) (d : SessionDraws) (db : IdentityDb) {db' : IdentityDb}
    {pair : TokenPair} (now : ℕ)
    → create_session env user device d db ≡ returned db' pair
    → env.references_checked ≡ true
    → All (λ x. (x.id == device) ≡ true → x.is_revoked ≡ false) db.devices
    → All (λ u. (u.id == user) ≡ true → may_log_in u.account_state ≡ true) db.users
    → Verifies env (claims_of user device d) d.signed_at now
    → can_activate env (bearer pair.access_token) now db'
      ≡ returned db' (record { user_id = user; device_id = device; session_id = d.session_id })
unfolding session_violates
create_session-admitted env user device d db {db'} {pair} now done checked unrevoked active law =
    let made = create_session_returned env user device d db done in
    rw (made.1, made.2)
      (rw (can_activate-bearer env (claims_of user device d) d.signed_at now _ law) (
        check_session-first env user device d (after_create env user device d db) db.sessions refl
          (ground (arith, made.0)) (ground (arith, made.0)) unrevoked active))
