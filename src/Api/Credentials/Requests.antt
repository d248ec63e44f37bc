-- ===== src/Api/Credentials/Requests.antt =====
-- Each request on the guarded routes, and the credentials of the other users.
use guff_suff.Prelude.{
  ℕ, ◌≡◌, refl, subst, String, true, Option, none, some, List, arith, ◌==◌, ap, ◌∙◌, sym, All,
  All-imp, All-In, Distinct-only,
}
use guff_suff.Action.{Action, Outcome, returned, threw, final, continue, pure}
use guff_suff.Environment.{Environment}
use guff_suff.Json.{Json}
use guff_suff.Schema.Identity.{IdentityDb, Session}
use guff_suff.Device.{DeviceDraws, rename_device, revoke_device}
use guff_suff.Device.Cases.{rename_device_cases}
use guff_suff.RegistrationLock.{LockDraws, set_pin, verify_pin, disable_pin}
use guff_suff.Account.{get_privacy_settings}
use guff_suff.Account.Queries.{get_profile}
use guff_suff.Guard.{RequestUser, can_activate}
use guff_suff.Guard.Denial.{
  can_activate-Admission, MatchesClaims, session_rows-MatchesClaims, session_rows-All_session,
}
use guff_suff.Contracts.{pin_schema}
use guff_suff.Api.{parsed}
use guff_suff.Api.Auth.{logout, logout_all}
use guff_suff.Api.Guarded.{
  Request, Reply, handle, rename_request, set_pin_request, verify_pin_request, disable_pin_request,
}
use guff_suff.Api.Credentials.{
  IsOwned, CredentialsApart, untouched-CredentialsApart, revoke_all-CredentialsApart,
  revoke_device-CredentialsApart, revoke_session-CredentialsApart,
}

-- The rows of the session that a request acts in are the user's.
abbrev pub IsMine : RequestUser → IdentityDb → Type 0
IsMine user db = All (λ s. (s.id == user.session_id) ≡ true → s.user_id ≡ user.user_id) db.sessions

-- A user that the guard lets through acts in a session of its own.
pub can_activate-IsMine :
    (env : Environment) (header : Option (List String)) (now : ℕ) (db : IdentityDb)
    {db' : IdentityDb} {user : RequestUser}
    → IsOwned db
    → can_activate env header now db ≡ returned db' user
    → IsMine user db
can_activate-IsMine env header now db {db'} {user} owned done =
    let a = can_activate-Admission env header now done in
    let only : All (λ s. All (λ r. (r.id == s.id) ≡ true → r ≡ s) db.sessions) db.sessions =
      All-imp _
        (λ s i.
          Distinct-only (λ s r. s.id == r.id) (λ x y. ground arith) db.sessions s owned.session_ids
            i)
        db.sessions (All-In db.sessions db.sessions (λ x i. i)) in
    let its : All (λ r. (r.id == a.session.id) ≡ true → r ≡ a.session) db.sessions =
      (subst (All (λ p. All (λ r. (r.id == p.0.0.id) ≡ true → r ≡ p.0.0) db.sessions)) a.queried
        (session_rows-All_session _ a.claims db only)).0 in
    let m : MatchesClaims a.claims ((a.session, a.device), a.account) =
      (subst (All (MatchesClaims a.claims)) a.queried (session_rows-MatchesClaims a.claims db)).0 in
    rw a.named (
      All-imp _
        (λ r same is.
          ap (λ (s : Session). s.user_id)
            (same (subst (λ (j : ℕ). (r.id == j) ≡ true) (sym m.0) is))
          ∙ m.1)
        db.sessions its)

module _ (env : Environment) (user : RequestUser) (db : IdentityDb) where
  abbrev Apart : IdentityDb → Type 0
  Apart t = CredentialsApart user.user_id db t

  unchanged : Apart db
  unchanged = untouched-CredentialsApart user.user_id db db refl refl refl

  pure-Apart :
      {A B : Type 0} (o : Outcome IdentityDb A) (f : A → B)
      → Apart (final o)
      → Apart (final (continue o (λ a. pure (f a))))
  pure-Apart (returned t a) f h = h
  pure-Apart (threw t e) f h = h

  parsed-Apart :
      {A B : Type 0} (o : Option A) (k : A → Action IdentityDb B)
      → ((x : A) → Apart (final (k x db)))
      → Apart (final (parsed o k db))
  parsed-Apart none k h = unchanged
  parsed-Apart (some x) k h = h x

  set_pin-Apart : (pin : String) (d : LockDraws) → Apart (final (set_pin env user.user_id pin d db))
  unfolding set_pin
  set_pin-Apart pin d =
      untouched-CredentialsApart user.user_id db _ (ground arith) (ground arith) (ground arith)

  verify_pin-Apart :
      (pin : String) (ip : Option String) (d : LockDraws)
      → Apart (final (verify_pin env user.user_id pin ip d db))
  unfolding verify_pin
  verify_pin-Apart pin ip d =
      untouched-CredentialsApart user.user_id db _ (ground arith) (ground arith) (ground arith)

  disable_pin-Apart :
      (pin : String) (d : LockDraws) → Apart (final (disable_pin env user.user_id pin d db))
  unfolding disable_pin
  disable_pin-Apart pin d =
      untouched-CredentialsApart user.user_id db _ (ground arith) (ground arith) (ground arith)

  rename-Apart :
      (i : ℕ) (name : String) (d : DeviceDraws)
      → Apart (final (rename_device user.user_id i name d db))
  rename-Apart i name d =
      rename_device_cases Apart user.user_id i d db name
        (untouched-CredentialsApart user.user_id db _ refl refl refl)
        (untouched-CredentialsApart user.user_id db _ refl refl refl)

  rename_request-Apart :
      (i : ℕ) (name : Json) (d : DeviceDraws) → Apart (final (rename_request env user i name d db))
  unfolding rename_request
  rename_request-Apart i Json.missing d =
      untouched-CredentialsApart user.user_id db _ (ground arith) (ground arith) (ground arith)
  rename_request-Apart i Json.null d =
      untouched-CredentialsApart user.user_id db _ (ground arith) (ground arith) (ground arith)
  rename_request-Apart i Json.object d = rename-Apart i _ d
  rename_request-Apart i Json.array d = rename-Apart i _ d
  rename_request-Apart i Json.other_number d = rename-Apart i _ d
  rename_request-Apart i (Json.flag b) d = rename-Apart i _ d
  rename_request-Apart i (Json.natural n) d = rename-Apart i _ d
  rename_request-Apart i (Json.string s) d = rename-Apart i s d

  reads-Apart :
      Apart (final (get_profile user.user_id db))
      × Apart (final (get_privacy_settings user.user_id db))
  unfolding get_profile get_privacy_settings
  reads-Apart = (
    untouched-CredentialsApart user.user_id db _ (ground arith) (ground arith) (ground arith),
    untouched-CredentialsApart user.user_id db _ (ground arith) (ground arith) (ground arith),
  )

  pub handle-CredentialsApart :
      (request : Request) → IsOwned db → IsMine user db → Apart (final (handle env user request db))
  unfolding handle set_pin_request verify_pin_request disable_pin_request logout logout_all
  handle-CredentialsApart Request.get_account_profile owned mine =
      pure-Apart (get_profile user.user_id db) Reply.profile reads-Apart.0
  handle-CredentialsApart Request.get_privacy owned mine =
      pure-Apart (get_privacy_settings user.user_id db) Reply.privacy reads-Apart.1
  handle-CredentialsApart Request.get_events owned mine = unchanged
  handle-CredentialsApart Request.list owned mine = unchanged
  handle-CredentialsApart (Request.log_out now) owned mine =
      pure-Apart (logout user now db) (λ _. Reply.success)
        (revoke_session-CredentialsApart user.user_id db owned user.session_id now mine)
  handle-CredentialsApart (Request.log_out_all now) owned mine =
      pure-Apart (logout_all user now db) (λ _. Reply.success)
        (revoke_all-CredentialsApart user.user_id db owned now)
  handle-CredentialsApart (Request.rename i name d) owned mine =
      pure-Apart (rename_request env user i name d db) Reply.renamed (rename_request-Apart i name d)
  handle-CredentialsApart (Request.revoke i d) owned mine =
      pure-Apart (revoke_device env user.user_id i _ d db) Reply.revoked
        (revoke_device-CredentialsApart user.user_id db owned env i _ d)
  handle-CredentialsApart (Request.set_lock body d) owned mine =
      pure-Apart (set_pin_request env user body d db) (λ _. Reply.success)
        (parsed-Apart (pin_schema body) _ (λ pin. set_pin-Apart pin d))
  handle-CredentialsApart (Request.verify_lock body ip d) owned mine =
      pure-Apart (verify_pin_request env user body ip d db) Reply.verified
        (parsed-Apart (pin_schema body) _ (λ pin. verify_pin-Apart pin ip d))
  handle-CredentialsApart (Request.disable_lock body d) owned mine =
      pure-Apart (disable_pin_request env user body d db) (λ _. Reply.success)
        (parsed-Apart (pin_schema body) _ (λ pin. disable_pin-Apart pin d))
