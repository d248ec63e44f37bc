-- ===== src/Guard/Denial.antt =====
-- Whom the guard lets through.
use guff_suff.Prelude.{
  ℕ, ◌≡◌, refl, subst, ◌≢◌, String, Bool, true, false, Option, none, some, List, [], ◌∷◌, ◌&&◌,
  arith, ◌==◌, select-All, All, Anything, All-Anything, All-join, All-select,
}
use guff_suff.Action.{returned}
use guff_suff.Environment.{Environment, Claims}
use guff_suff.Schema.Identity.{User, Device, Session, IdentityDb}
use guff_suff.Session.{verify_access_token}
use guff_suff.Guard.{
  check_session, check_claims, check_header, RequestUser, bearer_token, session_rows, may_log_in,
  can_activate,
}
use guff_suff.Device.Revocation.{IsRevoked}

-- A row of the query of the guard that the guard accepts for the claims.
pub record Admits (c : Claims) (s : Session) (d : Device) (u : User) : Type 0 where
  pub session_live : s.revoked_at ≡ none
  pub device_live : d.is_revoked ≡ false
  pub account_live : may_log_in u.account_state ≡ true
  pub version : s.session_version ≡ c.session_version

abbrev pub user_of : Claims → RequestUser
user_of c = record { user_id = c.user_id; device_id = c.device_id; session_id = c.session_id }

-- The token of the header, the claims to which it verifies, and a row that the guard accepts for them.
pub record Admission (env : Environment) (header : Option (List String)) (now : ℕ) (db : IdentityDb)
    (user : RequestUser) : Type 0 where
  pub token : String
  pub carried : bearer_token header ≡ some token
  pub claims : Claims
  pub verified : verify_access_token env token now ≡ some claims
  pub session : Session
  pub device : Device
  pub account : User
  pub others : List ((Session × Device) × User)
  pub queried : session_rows claims db ≡ ((session, device), account) ∷ others
  pub admits : Admits claims session device account
  pub named : user ≡ user_of claims

module _ (env : Environment) (header : Option (List String)) (now : ℕ) {db db' : IdentityDb}
    {user : RequestUser} where
  module _ (token : String) (carried : bearer_token header ≡ some token) where
    check_session-Admission :
        (c : Claims) (rows : List ((Session × Device) × User))
        → verify_access_token env token now ≡ some c
        → session_rows c db ≡ rows
        → check_session c rows db ≡ returned db' user
        → Admission env header now db user
    unfolding check_session
    check_session-Admission c [] verified found h = cc
    check_session-Admission c (((s, d), u) ∷ rest) verified found h = record {
      token = token;
      carried = carried;
      claims = c;
      verified = verified;
      session = s;
      device = d;
      account = u;
      others = rest;
      queried = found;
      admits = ground arith;
      named = ground arith;
    }

    check_claims-Admission :
        (c : Option Claims)
        → verify_access_token env token now ≡ c
        → check_claims c db ≡ returned db' user
        → Admission env header now db user
    unfolding check_claims
    check_claims-Admission none verified h = cc
    check_claims-Admission (some c) verified h =
        check_session-Admission c (session_rows c db) verified refl h

  check_header-Admission :
      (token : Option String)
      → bearer_token header ≡ token
      → check_header env now token db ≡ returned db' user
      → Admission env header now db user
  unfolding check_header
  check_header-Admission none carried h = cc
  check_header-Admission (some token) carried h =
      check_claims-Admission token carried (verify_access_token env token now) refl h

  -- A request that the guard lets through carries a bearer token that verifies, to claims for which the
  -- query finds a session that is not revoked and has the claimed version, a device that is not
  -- revoked, and an account that is active or waits for its profile; and it acts as the user, device
  -- and session of these claims.
  pub can_activate-Admission :
      can_activate env header now db ≡ returned db' user → Admission env header now db user
  unfolding can_activate
  can_activate-Admission h = check_header-Admission (bearer_token header) refl h

-- What the query of the guard asks of a joined row.
abbrev pub MatchesClaims : Claims → (Session × Device) × User → Type 0
MatchesClaims c ((s, d), u) =
    (s.id ≡ c.session_id)
    × (s.user_id ≡ c.user_id)
    × (s.device_id ≡ c.device_id)
    × (d.id ≡ c.device_id)
    × (u.id ≡ c.user_id)

abbrev claimed : Claims → Session → Bool
claimed c s = (s.id == c.session_id) && ((s.user_id == c.user_id) && (s.device_id == c.device_id))

pub session_rows-MatchesClaims :
    (c : Claims) (db : IdentityDb) → All (MatchesClaims c) (session_rows c db)
unfolding session_rows
session_rows-MatchesClaims c db =
    All-join (MatchesClaims c) (λ p. (claimed c p.0 ≡ true) × (p.0.device_id ≡ p.1.id)) Anything _
      (λ p u e q _. ground arith) _ _
      (All-join _ (λ s. claimed c s ≡ true) Anything _ (λ s d e q _. ground arith) _ _
        (select-All (claimed c) db.sessions) (All-Anything db.devices))
      (All-Anything db.users)

-- A property of all devices holds of the devices that the guard finds.
pub session_rows-All_device :
    (P : Device → Type 0) (c : Claims) (db : IdentityDb)
    → All P db.devices
    → All (λ p. P p.0.1) (session_rows c db)
unfolding session_rows
session_rows-All_device P c db a =
    All-join _ (λ p. P p.1) Anything _ (λ p u e q _. q) _ _
      (All-join _ Anything P _ (λ s d e _ q. q) _ _ (All-Anything _) a) (All-Anything db.users)

pub session_rows-All_session :
    (P : Session → Type 0) (c : Claims) (db : IdentityDb)
    → All P db.sessions
    → All (λ p. P p.0.0) (session_rows c db)
unfolding session_rows
session_rows-All_session P c db a =
    All-join _ (λ p. P p.0) Anything _ (λ p u e q _. q) _ _
      (All-join _ P Anything _ (λ s d e q _. q) _ _ (All-select P (claimed c) db.sessions a)
        (All-Anything db.devices))
      (All-Anything db.users)

pub session_rows-All_user :
    (P : User → Type 0) (c : Claims) (db : IdentityDb)
    → All P db.users
    → All (λ p. P p.1) (session_rows c db)
unfolding session_rows
session_rows-All_user P c db a = All-join _ Anything P _ (λ p u e _ q. q) _ _ (All-Anything _) a

-- No request is let through for a revoked device.
pub can_activate-IsRevoked :
    (env : Environment) (header : Option (List String)) (now i : ℕ) (db : IdentityDb)
    {db' : IdentityDb} {user : RequestUser}
    → IsRevoked i db.devices
    → can_activate env header now db ≡ returned db' user
    → user.device_id ≢ i
can_activate-IsRevoked env header now i db {db'} {user} revoked h same =
    ground (arith, a.admits.device_live, a.named, matches, marked)
  where
    a : Admission env header now db user
    a = can_activate-Admission env header now h

    matches : MatchesClaims a.claims ((a.session, a.device), a.account)
    matches =
        (subst (All (MatchesClaims a.claims)) a.queried (session_rows-MatchesClaims a.claims db)).0

    marked : (a.device.id == i) ≡ true → a.device.is_revoked ≡ true
    marked =
        (subst (All (λ p. (p.0.1.id == i) ≡ true → p.0.1.is_revoked ≡ true)) a.queried
          (session_rows-All_device _ a.claims db revoked.marked)).0
