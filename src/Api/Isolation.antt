-- ===== src/Api/Isolation.antt =====
-- What the requests of one user leave alone.
pub mod Runs
use guff_suff.Prelude.{
  ℕ, ◌≡◌, refl, sym, ap, ◌∙◌, String, Bool, true, false, Option, none, some, List, [], ◌∷◌, arith,
  not, ◌==◌, inl, inr, Bool-cases, ==_refl, select, update, remove,
}
use guff_suff.Action.{Action, Outcome, returned, threw, final, continue, pure}
use guff_suff.Environment.{Environment}
use guff_suff.Json.{Json}
use guff_suff.Schema.Identity.{IdentityDb, Device}
use guff_suff.Session.{revoke_session, revoke_all_sessions_for_user}
use guff_suff.Device.{
  DeviceDraws, is_active_of, renamed_at, rename_device, revoke_device, mark_revoked,
  revoke_credentials, device_revoked_at,
}
use guff_suff.RegistrationLock.{peppered_pin, hash_pin, LockDraws, set_pin, verify_pin, disable_pin}
use guff_suff.Account.{get_privacy_settings}
use guff_suff.Account.Queries.{get_profile}
use guff_suff.Errors.{Error}
use guff_suff.Guard.Reads.{guard-kept}
use guff_suff.Guard.{RequestUser, can_activate}
use guff_suff.Api.{parsed}
use guff_suff.Api.Auth.{logout, logout_all}
use guff_suff.Contracts.{pin_schema}
use guff_suff.Api.Credentials.{IsOwned, CredentialsApart}
use guff_suff.Api.Credentials.Requests.{can_activate-IsMine, handle-CredentialsApart}
use guff_suff.Api.Guarded.{
  Request, Reply, handle, rename_request, set_pin_request, verify_pin_request, disable_pin_request,
  respond,
}

module _ {ℓ} {A : Type ℓ} (p q : A → Bool) where
  select-update_apart :
      (f : A → A)
      → ((x : A) → q x ≡ true → (p x ≡ false) × (p (f x) ≡ false))
      → (xs : List A) → select p (update q f xs) ≡ select p xs
  unfolding select update
  select-update_apart f h [] = refl
  select-update_apart f h (x ∷ xs) = elim (Bool-cases (q x)) [
    | inl hit ↦ rw (hit, (h x hit).0, (h x hit).1, select-update_apart f h xs) refl
    | inr miss ↦ rw (miss, select-update_apart f h xs) refl
  ]

  select-remove_apart :
      ((x : A) → q x ≡ true → p x ≡ false) → (xs : List A) → select p (remove q xs) ≡ select p xs
  unfolding select remove
  select-remove_apart h [] = refl
  select-remove_apart h (x ∷ xs) = elim (Bool-cases (q x)) [
    | inl hit ↦ rw (hit, h x hit, select-remove_apart h xs) refl
    | inr miss ↦ rw (miss, select-remove_apart h xs) refl
  ]

-- The rows of the other users are the same in the tables of devices, security events and registration
-- locks, and all rows are in those of accounts and profiles.
unfoldable pub Apart : ℕ → IdentityDb → IdentityDb → Type 0
Apart u db db' =
    (db'.users ≡ db.users)
    × (db'.phone_identities ≡ db.phone_identities)
    × (db'.user_profiles ≡ db.user_profiles)
    × (db'.usernames ≡ db.usernames)
    × (db'.privacy_settings ≡ db.privacy_settings)
    × (select (λ d. not (d.user_id == u)) db'.devices
        ≡ select (λ d. not (d.user_id == u)) db.devices)
    × (select (λ e. not (e.user_id == u)) db'.security_events
        ≡ select (λ e. not (e.user_id == u)) db.security_events)
    × (select (λ c. not (c.user_id == u)) db'.registration_lock_credentials
        ≡ select (λ c. not (c.user_id == u)) db.registration_lock_credentials)
    × (select (λ a. not (a.user_id == u)) db'.registration_lock_attempts
        ≡ select (λ a. not (a.user_id == u)) db.registration_lock_attempts)

module _ (env : Environment) (u : ℕ) where
  device_apart :
      (i : ℕ) (f : Device → Device)
      → ((d : Device) → (f d).user_id ≡ d.user_id)
      → (ds : List Device)
      → select (λ d. not (d.user_id == u)) (update (is_active_of u i) f ds)
        ≡ select (λ d. not (d.user_id == u)) ds
  device_apart i f kept =
      select-update_apart (λ d. not (d.user_id == u)) (is_active_of u i) f
        (λ d h. (ground arith, ground (arith, kept d)))

  rename_device-Apart :
      (i : ℕ) (name : String) (d : DeviceDraws) (db : IdentityDb)
      → Apart u db (final (rename_device u i name d db))
  unfolding Apart rename_device
  rename_device-Apart i name d db =
      ground (arith, device_apart i (renamed_at name d.db_now) (λ r. refl) db.devices)

  revoke_device-Apart :
      (i : ℕ) (reason : String) (d : DeviceDraws) (db : IdentityDb)
      → Apart u db (final (revoke_device env u i reason d db))
  unfolding Apart revoke_device mark_revoked revoke_credentials select
  revoke_device-Apart i reason d db =
      ground (
        arith,
        ==_refl u,
        device_apart i (device_revoked_at reason d.db_now) (λ r. refl) db.devices,
      )

  set_pin-Apart :
      (pin : String) (d : LockDraws) (db : IdentityDb) → Apart u db (final (set_pin env u pin d db))
  unfolding Apart set_pin hash_pin select
  set_pin-Apart pin d db =
      ground (arith, ==_refl u, stored (env.argon2_hash (peppered_pin env pin) d.salt))
    where
      stored :
          (hash : String)
          → select
              (λ c. not (c.user_id == u))
              (update
                (λ c. c.user_id == u)
                (λ c. record c { pin_argon2_hash = hash; updated_at = d.now })
                db.registration_lock_credentials)
            ≡ select (λ c. not (c.user_id == u)) db.registration_lock_credentials
      stored hash =
          select-update_apart (λ c. not (c.user_id == u)) (λ c. c.user_id == u) _
            (λ c h. (ground arith, ground arith)) db.registration_lock_credentials

  verify_pin-Apart :
      (pin : String) (ip : Option String) (d : LockDraws) (db : IdentityDb)
      → Apart u db (final (verify_pin env u pin ip d db))
  unfolding Apart verify_pin select
  verify_pin-Apart pin ip d db = ground (arith, ==_refl u)

  disable_pin-Apart :
      (pin : String) (d : LockDraws) (db : IdentityDb)
      → Apart u db (final (disable_pin env u pin d db))
  unfolding Apart disable_pin verify_pin select
  disable_pin-Apart pin d db = ground (
    arith,
    ==_refl u,
    select-remove_apart (λ c. not (c.user_id == u)) (λ c. c.user_id == u) (λ c h. ground arith)
        db.registration_lock_credentials,
  )

  Apart-refl : (db : IdentityDb) → Apart u db db
  unfolding Apart
  Apart-refl db = (refl, refl, refl, refl, refl, refl, refl, refl, refl)

  Apart-parsed :
      {A B : Type 0} (o : Option A) (k : A → Action IdentityDb B) (db : IdentityDb)
      → ((x : A) → Apart u db (final (k x db)))
      → Apart u db (final (parsed o k db))
  Apart-parsed none k db h = Apart-refl db
  Apart-parsed (some x) k db h = h x

  Apart-pure :
      {A B : Type 0} (o : Outcome IdentityDb A) (f : A → B) (db : IdentityDb)
      → Apart u db (final o)
      → Apart u db (final (continue o (λ a. pure (f a))))
  Apart-pure (returned t a) f db h = h
  Apart-pure (threw t e) f db h = h

module _ (env : Environment) (user : RequestUser) where
  rename_request-Apart :
      (i : ℕ) (name : Json) (d : DeviceDraws) (db : IdentityDb)
      → Apart user.user_id db (final (rename_request env user i name d db))
  unfolding rename_request Apart
  rename_request-Apart i Json.missing d db = ground arith
  rename_request-Apart i Json.null d db = ground arith
  rename_request-Apart i Json.object d db = rename_device-Apart env user.user_id i _ d db
  rename_request-Apart i Json.array d db = rename_device-Apart env user.user_id i _ d db
  rename_request-Apart i Json.other_number d db = rename_device-Apart env user.user_id i _ d db
  rename_request-Apart i (Json.flag b) d db = rename_device-Apart env user.user_id i _ d db
  rename_request-Apart i (Json.natural n) d db = rename_device-Apart env user.user_id i _ d db
  rename_request-Apart i (Json.string s) d db = rename_device-Apart env user.user_id i s d db

  reads-Apart :
      (db : IdentityDb)
      → Apart user.user_id db (final (get_profile user.user_id db))
        × Apart user.user_id db (final (get_privacy_settings user.user_id db))
  unfolding get_profile get_privacy_settings Apart
  reads-Apart db = (ground arith, ground arith)

  logout-Apart :
      (now : ℕ) (db : IdentityDb)
      → Apart user.user_id db (final (logout user now db))
        × Apart user.user_id db (final (logout_all user now db))
  unfolding logout logout_all revoke_session revoke_all_sessions_for_user Apart
  logout-Apart now db = (ground arith, ground arith)

  -- Whatever an authenticated user asks for, and however the request ends, the devices, security
  -- events, registration locks and lock attempts of all other users, and the account and profile rows
  -- of everyone, are as they were.
  pub handle-Apart :
      (request : Request) (db : IdentityDb)
      → Apart user.user_id db (final (handle env user request db))
  unfolding handle set_pin_request verify_pin_request disable_pin_request
  handle-Apart Request.get_account_profile db =
      Apart-pure env user.user_id (get_profile user.user_id db) Reply.profile db (reads-Apart db).0
  handle-Apart Request.get_privacy db =
      Apart-pure env user.user_id (get_privacy_settings user.user_id db) Reply.privacy db
        (reads-Apart db).1
  handle-Apart Request.get_events db = Apart-refl env user.user_id db
  handle-Apart Request.list db = Apart-refl env user.user_id db
  handle-Apart (Request.log_out db_now) db =
      Apart-pure env user.user_id (logout user db_now db) (λ _. Reply.success) db
        (logout-Apart db_now db).0
  handle-Apart (Request.log_out_all db_now) db =
      Apart-pure env user.user_id (logout_all user db_now db) (λ _. Reply.success) db
        (logout-Apart db_now db).1
  handle-Apart (Request.rename i name d) db =
      Apart-pure env user.user_id (rename_request env user i name d db) Reply.renamed db
        (rename_request-Apart i name d db)
  handle-Apart (Request.revoke i d) db =
      Apart-pure env user.user_id (revoke_device env user.user_id i _ d db) Reply.revoked db
        (revoke_device-Apart env user.user_id i _ d db)
  handle-Apart (Request.set_lock body d) db =
      Apart-pure env user.user_id (set_pin_request env user body d db) (λ _. Reply.success) db
        (Apart-parsed env user.user_id (pin_schema body) _ db
          (λ pin. set_pin-Apart env user.user_id pin d db))
  handle-Apart (Request.verify_lock body ip d) db =
      Apart-pure env user.user_id (verify_pin_request env user body ip d db) Reply.verified db (
        Apart-parsed env user.user_id (pin_schema body) _ db
          (λ pin. verify_pin-Apart env user.user_id pin ip d db))
  handle-Apart (Request.disable_lock body d) db =
      Apart-pure env user.user_id (disable_pin_request env user body d db) (λ _. Reply.success) db
        (Apart-parsed env user.user_id (pin_schema body) _ db
          (λ pin. disable_pin-Apart env user.user_id pin d db))

module _ (env : Environment) (header : Option (List String)) (now : ℕ) where
  pub respond_rows :
      (request : Request) (db : IdentityDb)
      → ((db' : IdentityDb) (e : Error)
          → can_activate env header now db ≡ threw db' e
          → respond env header now request db ≡ threw db e)
        × ((db' : IdentityDb) (user : RequestUser)
            → can_activate env header now db ≡ returned db' user
            → Apart user.user_id db (final (respond env header now request db)))
  unfolding respond
  respond_rows request db = (
    λ db' e h. ground (arith, guard-kept env header now db),
    λ db' user h.
        let same = ap final (sym h) ∙ guard-kept env header now db in
        rw (h, same) (handle-Apart env user request db),
  )

  -- A request on a guarded route of the identity services that the guard refuses ends with the error of
  -- the guard and changes nothing. One that it lets through leaves the devices, security events,
  -- registration locks, lock attempts, sessions, token families and refresh tokens of everyone but
  -- the user of the token alone, and all rows of accounts, phone numbers, profiles, usernames and
  -- privacy settings. (Sessions and families have distinct keys and belong to their device's user.)
  pub respond-Apart :
      (request : Request) (db : IdentityDb)
      → IsOwned db
      → ((db' : IdentityDb) (e : Error)
          → can_activate env header now db ≡ threw db' e
          → respond env header now request db ≡ threw db e)
        × ((db' : IdentityDb) (user : RequestUser)
            → can_activate env header now db ≡ returned db' user
            → Apart user.user_id db (final (respond env header now request db))
              × CredentialsApart user.user_id db (final (respond env header now request db)))
  unfolding respond
  respond-Apart request db owned = (
    (respond_rows request db).0,
    λ db' user h.
        let same = ap final (sym h) ∙ guard-kept env header now db in
        let mine = can_activate-IsMine env header now db owned h in
        (
          (respond_rows request db).1 db' user h,
          rw (h, same) (handle-CredentialsApart env user db request owned mine),
        ),
  )
