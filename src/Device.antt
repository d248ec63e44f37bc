-- ===== src/Device.antt =====
-- services/api/src/identity/device.service.ts
pub mod Revocation
pub mod Cases
use guff_suff.Prelude.{
  ℕ, String, Bool, true, false, Option, none, some, List, [], ◌∷◌, not, ◌&&◌, ◌==◌, any, select,
  update, map, sort_desc,
}
use guff_suff.Errors.{device_not_found}
use guff_suff.Action.{Action, ◌>>=◌, ◌>>◌, pure, throw, gets, modify, atomically}
use guff_suff.Environment.{Environment}
use guff_suff.Schema.Identity.{
  Device, RefreshTokenFamily, SecurityEvent, AuditEvent, JsonValue, Severity, IdentityDb,
}
use guff_suff.Schema.Constraints.{insert_security_event, insert_audit_event}
use guff_suff.Session.{flagged_at, token_revoked_at, session_revoked_at}

pub record DeviceDraws : Type 0 where
  pub event_id : ℕ
  pub audit_id : ℕ
  pub correlation_id : ℕ
  pub db_now : ℕ

pub record DeviceView : Type 0 where
  pub device : Device
  pub is_current_device : Bool

abbrev is_current : Option ℕ → Device → Bool
is_current none d = false
is_current (some i) d = d.id == i

unfoldable pub list_devices : ℕ → Option ℕ → IdentityDb → List DeviceView
list_devices user_id current db =
    map (λ d. record { device = d; is_current_device = is_current current d })
      (sort_desc (λ d. d.last_seen_at)
        (select (λ d. (d.user_id == user_id) && not d.is_revoked) db.devices))

-- WHERE id AND user_id AND is_revoked = false
abbrev pub is_active_of : ℕ → ℕ → Device → Bool
is_active_of user_id device_id d =
    (d.id == device_id) && ((d.user_id == user_id) && not d.is_revoked)

abbrev pub renamed_at : String → ℕ → Device → Device
renamed_at name now r = record r { device_name = name; last_seen_at = now }

abbrev pub rename_audit : ℕ → ℕ → String → DeviceDraws → AuditEvent
rename_audit user_id device_id name d = record {
  id = d.audit_id;
  actor_type = "user";
  actor_id = user_id;
  action = "device_renamed";
  target_type = "device";
  target_id = device_id;
  reason = some "Device renamed";
  correlation_id = d.correlation_id;
  request_id = d.correlation_id;
  outcome = "success";
  after_state_json =
      ("deviceId", JsonValue.id device_id) ∷ ("newDeviceName", JsonValue.text name) ∷ [];
  created_at = d.db_now;
}

-- The UPDATE and the INSERT are transactions of their own.
report_renamed : ℕ → ℕ → String → DeviceDraws → List Device → Action IdentityDb (ℕ × String)
report_renamed user_id device_id name d [] = throw device_not_found
report_renamed user_id device_id name d (row ∷ rest) = do
  insert_audit_event (rename_audit user_id device_id name d)
  pure (row.id, name)

unfoldable pub rename_device : ℕ → ℕ → String → DeviceDraws → Action IdentityDb (ℕ × String)
unfolding report_renamed
rename_device user_id device_id name d = do
  rows ← gets (λ db. select (is_active_of user_id device_id) db.devices)
  modify (λ db. record db {
    devices = update (is_active_of user_id device_id) (renamed_at name d.db_now) db.devices;
  })
  report_renamed user_id device_id name d rows

abbrev pub revoke_event : ℕ → ℕ → String → String → DeviceDraws → SecurityEvent
revoke_event user_id device_id name reason d = record {
  id = d.event_id;
  user_id = user_id;
  device_id = some device_id;
  event_type = "device_revoked";
  severity = Severity.medium;
  user_description_key = "sec_event.device_revoked";
  device_context_json =
      ("deviceName", JsonValue.text name) ∷ ("reason", JsonValue.text reason) ∷ [];
  internal_metadata_json = [];
  is_read = false;
  created_at = d.db_now;
}

abbrev pub revoke_audit : ℕ → ℕ → String → DeviceDraws → AuditEvent
revoke_audit user_id device_id reason d = record {
  id = d.audit_id;
  actor_type = "user";
  actor_id = user_id;
  action = "device_revoked";
  target_type = "device";
  target_id = device_id;
  reason = some reason;
  correlation_id = d.correlation_id;
  request_id = d.correlation_id;
  outcome = "success";
  after_state_json = ("deviceId", JsonValue.id device_id) ∷ ("reason", JsonValue.text reason) ∷ [];
  created_at = d.db_now;
}

-- SET is_revoked = true, revoked_at, revoked_reason
abbrev pub device_revoked_at : String → ℕ → Device → Device
device_revoked_at reason now r = record r {
  is_revoked = true;
  revoked_at = some now;
  revoked_reason = some reason;
}

unfoldable pub mark_revoked : ℕ → ℕ → String → ℕ → IdentityDb → IdentityDb
mark_revoked user_id device_id reason db_now db = record db {
  devices = update (is_active_of user_id device_id) (device_revoked_at reason db_now) db.devices;
}

abbrev pub flagged_families : ℕ → ℕ → IdentityDb → List RefreshTokenFamily
flagged_families device_id db_now db =
    update (λ rf. rf.device_id == device_id) (flagged_at db_now) db.refresh_token_families

-- The three UPDATE statements on the sessions, families and tokens of a device.
unfoldable pub revoke_credentials : ℕ → ℕ → IdentityDb → IdentityDb
revoke_credentials device_id db_now db = record db {
  sessions = update (λ s. s.device_id == device_id) (session_revoked_at db_now) db.sessions;
  refresh_token_families = flagged_families device_id db_now db;
  refresh_tokens =
      update
        (λ rt.
          any (λ rf. (rf.id == rt.family_id) && (rf.device_id == device_id))
            (flagged_families device_id db_now db))
        (token_revoked_at db_now) db.refresh_tokens;
}

module _ (env : Environment) where
  revoke_found : ℕ → ℕ → String → DeviceDraws → List Device → Action IdentityDb (Unit {0})
  revoke_found user_id device_id reason d [] = throw device_not_found
  revoke_found user_id device_id reason d (row ∷ rest) = do
    modify (revoke_credentials device_id d.db_now)
    insert_security_event env (revoke_event user_id device_id row.device_name reason d)
    insert_audit_event (revoke_audit user_id device_id reason d)

  revoke_body : ℕ → ℕ → String → DeviceDraws → Action IdentityDb (Unit {0})
  unfolding revoke_found
  revoke_body user_id device_id reason d = do
    rows ← gets (λ db. select (is_active_of user_id device_id) db.devices)
    modify (mark_revoked user_id device_id reason d.db_now)
    revoke_found user_id device_id reason d rows

  -- Returns the identifier of the revoked device.
  unfoldable pub revoke_device : ℕ → ℕ → String → DeviceDraws → Action IdentityDb ℕ
  unfolding revoke_body
  revoke_device user_id device_id reason d = do
    atomically (revoke_body user_id device_id reason d)
    pure device_id
