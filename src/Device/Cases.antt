-- ===== src/Device/Cases.antt =====
-- What the methods of device.service.ts leave in the database, as a rule for each.
use guff_suff.Prelude.{ℕ, ◌≡◌, refl, String, List, [], ◌∷◌, arith, select, update}
use guff_suff.Action.{final}
use guff_suff.Environment.{Environment}
use guff_suff.Schema.Identity.{Device, AuditEvent, IdentityDb}
use guff_suff.Device.{
  DeviceDraws, is_active_of, rename_device, revoke_device, renamed_at, rename_audit,
}
use guff_suff.Device.Revocation.{after_revoke}

module _ {ℓ} (P : IdentityDb → Type ℓ) (user i : ℕ) (d : DeviceDraws) (db : IdentityDb) where
  abbrev renamed : String → List AuditEvent → IdentityDb
  renamed name audit = record db {
    devices = update (is_active_of user i) (renamed_at name d.db_now) db.devices;
    audit_events = audit;
  }

  rename_rows :
      (name : String) (rows : List Device)
      → select (is_active_of user i) db.devices ≡ rows
      → P (renamed name db.audit_events)
      → P (renamed name (rename_audit user i name d ∷ db.audit_events))
      → P (final (rename_device user i name d db))
  unfolding rename_device
  rename_rows name [] found plain audited = rw found plain
  rename_rows name (r ∷ rs) found plain audited = rw found (ground arith)

  pub rename_device_cases :
      (name : String)
      → P (renamed name db.audit_events)
      → P (renamed name (rename_audit user i name d ∷ db.audit_events))
      → P (final (rename_device user i name d db))
  rename_device_cases name = rename_rows name (select (is_active_of user i) db.devices) refl

  revoke_rows :
      (env : Environment) (reason : String) (rows : List Device)
      → select (is_active_of user i) db.devices ≡ rows
      → P db
      → ((name : String) → P (after_revoke user i reason d name db))
      → P (final (revoke_device env user i reason d db))
  unfolding revoke_device
  revoke_rows env reason [] found failed done = rw found failed
  revoke_rows env reason (r ∷ rs) found failed done = rw found (ground (arith, done r.device_name))

  pub revoke_device_cases :
      (env : Environment) (reason : String)
      → P db
      → ((name : String) → P (after_revoke user i reason d name db))
      → P (final (revoke_device env user i reason d db))
  revoke_device_cases env reason =
      revoke_rows env reason (select (is_active_of user i) db.devices) refl
