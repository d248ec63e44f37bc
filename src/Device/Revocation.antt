-- ===== src/Device/Revocation.antt =====
-- What `revokeDevice` achieves when it succeeds, and that it does nothing when it fails.
use guff_suff.Prelude.{
  ℕ, ◌≡◌, refl, String, true, false, List, [], ◌∷◌, ◌&&◌, arith, ◌==◌, any, select, any-update,
  any-select_cons, any-imp, select-eq_nil, All, All-update_from, All-update_intro, is_some,
}
use guff_suff.Errors.{device_not_found}
use guff_suff.Action.{returned, threw}
use guff_suff.Environment.{Environment}
use guff_suff.Schema.Identity.{Device, IdentityDb}
use guff_suff.Session.{flagged_at, token_revoked_at, session_revoked_at}
use guff_suff.Device.{
  DeviceDraws, is_active_of, mark_revoked, revoke_credentials, revoke_device, revoke_event,
  revoke_audit, device_revoked_at,
}

-- The device `i` is known, and revoked.
pub record IsRevoked (i : ℕ) (devices : List Device) : Type 0 where
  pub known : any (λ r. r.id == i) devices ≡ true
  pub marked : All (λ r. (r.id == i) ≡ true → r.is_revoked ≡ true) devices

-- Nothing that was issued to the device is valid.
pub record IsLockedOut (i : ℕ) (db : IdentityDb) : Type 0 where
  pub device : IsRevoked i db.devices
  pub sessions : All (λ s. (s.device_id == i) ≡ true → is_some s.revoked_at ≡ true) db.sessions
  pub families :
      All (λ f. (f.device_id == i) ≡ true → f.is_compromised ≡ true) db.refresh_token_families
  pub tokens :
      All
        (λ t.
          any (λ f. (f.id == t.family_id) && (f.device_id == i)) db.refresh_token_families ≡ true
          → t.is_revoked ≡ true)
        db.refresh_tokens

module _ (user i : ℕ) (reason : String) (now : ℕ) where
  mark_revoked-IsRevoked :
      (db : IdentityDb)
      → All (λ r. (r.id == i) ≡ true → r.user_id ≡ user) db.devices
      → any (is_active_of user i) db.devices ≡ true
      → IsRevoked i (mark_revoked user i reason now db).devices
  unfolding mark_revoked
  mark_revoked-IsRevoked db owned active = record {
    known =
        rw
          (any-update (λ r. r.id == i) (is_active_of user i) (device_revoked_at reason now)
            (λ r. refl) db.devices)
          (any-imp (is_active_of user i) (λ r. r.id == i) (λ r h. ground arith) db.devices active);
    marked =
        All-update_from _ (is_active_of user i) (device_revoked_at reason now) (λ r _ _ _. refl)
          (λ r no' own is. ground arith) db.devices owned;
  }

  revoke_credentials-IsLockedOut :
      (db : IdentityDb) → IsRevoked i db.devices → IsLockedOut i (revoke_credentials i now db)
  unfolding revoke_credentials
  revoke_credentials-IsLockedOut db revoked = record {
    device = revoked;
    sessions =
        All-update_intro _ _ (session_revoked_at now) (λ s _ _. refl) (λ s no' is. cc) db.sessions;
    families =
        All-update_intro _ _ (flagged_at now) (λ f _ _. refl) (λ f no' is. cc)
          db.refresh_token_families;
    tokens =
        All-update_intro _ _ (token_revoked_at now) (λ t _ _. refl) (λ t no' is. cc)
          db.refresh_tokens;
  }

module _ (user i : ℕ) (reason : String) (d : DeviceDraws) where
  abbrev pub after_revoke : String → IdentityDb → IdentityDb
  after_revoke name db =
      let s = revoke_credentials i d.db_now (mark_revoked user i reason d.db_now db) in
      record s {
        security_events = revoke_event user i name reason d ∷ s.security_events;
        audit_events = revoke_audit user i reason d ∷ s.audit_events;
      }

module _ (env : Environment) (user i : ℕ) (reason : String) (d : DeviceDraws) where
  pub revoke_device_returned :
      (rows : List Device) (db : IdentityDb) {db' : IdentityDb} {r : ℕ}
      → select (is_active_of user i) db.devices ≡ rows
      → revoke_device env user i reason d db ≡ returned db' r
      → (row : Device) × (rest : List Device) × (rows ≡ row ∷ rest)
        × (db' ≡ after_revoke user i reason d row.device_name db)
  unfolding revoke_device
  revoke_device_returned [] db found done = ground arith
  revoke_device_returned (row ∷ rest) db found done = (row, rest, refl, ground arith)

  -- A revocation that succeeds, of a device whose identifier no other user has, leaves nothing valid
  -- that was issued to the device: the device, its sessions, the families of its refresh tokens
  -- and those tokens are all marked.
  pub revoke_device-IsLockedOut :
      (db : IdentityDb) {db' : IdentityDb} {r : ℕ}
      → All (λ x. (x.id == i) ≡ true → x.user_id ≡ user) db.devices
      → revoke_device env user i reason d db ≡ returned db' r
      → IsLockedOut i db'
  unfolding revoke_device
  revoke_device-IsLockedOut db {db'} {r} owned done = rw e.3 (record {
    device = locked.device;
    sessions = locked.sessions;
    families = locked.families;
    tokens = locked.tokens;
  })
    where
      e :
          (row : Device) × (rest : List Device) × (select (is_active_of user i) db.devices
            ≡ row ∷ rest)
          × (db' ≡ after_revoke user i reason d row.device_name db)
      e = revoke_device_returned (select (is_active_of user i) db.devices) db refl done

      locked :
          IsLockedOut i (revoke_credentials i d.db_now (mark_revoked user i reason d.db_now db))
      locked = revoke_credentials-IsLockedOut user i reason d.db_now _ (
          mark_revoked-IsRevoked user i reason d.db_now db owned
            (any-select_cons (is_active_of user i) db.devices e.2))

  -- A device that is not an active one of the user is not touched: the call throws and rolls back.
  pub revoke_device-unknown :
      (db : IdentityDb)
      → any (is_active_of user i) db.devices ≡ false
      → revoke_device env user i reason d db ≡ threw db device_not_found
  unfolding revoke_device
  revoke_device-unknown db none_active =
      ground (arith, select-eq_nil (is_active_of user i) db.devices none_active)
