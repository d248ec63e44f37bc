-- ===== src/Api/Guarded.antt =====
-- account.controller.ts, devices.controller.ts and registration-lock.controller.ts of
-- services/api/src/identity, and the routes that the guard protects.
use guff_suff.Prelude.{ℕ, String, Bool, Option, some, List, [], ◌∷◌, select}
use guff_suff.Errors.{device_not_found, constraint_violation}
use guff_suff.Action.{Action, ◌>>=◌, ◌>>◌, pure, throw, gets}
use guff_suff.Environment.{Environment}
use guff_suff.Json.{Json, Body}
use guff_suff.Schema.Identity.{IdentityDb, Device, PrivacySettings}
use guff_suff.Contracts.{pin_schema}
use guff_suff.Device.{
  DeviceDraws, DeviceView, is_active_of, list_devices, rename_device, revoke_device,
}
use guff_suff.RegistrationLock.{LockDraws, set_pin, verify_pin, disable_pin}
use guff_suff.Account.{get_privacy_settings}
use guff_suff.Account.Queries.{ProfileView, SecurityEventView, get_profile, get_security_events}
use guff_suff.Guard.{RequestUser}
use guff_suff.Api.{parsed, guarded}
use guff_suff.Api.Auth.{logout, logout_all}

-- A request on a guarded route, with the times and identifiers that its handler draws.
pub data Request : Type 0 where
  get_account_profile get_privacy get_events list : Request
  log_out log_out_all : ℕ → Request
  rename : ℕ → Json → DeviceDraws → Request
  revoke : ℕ → DeviceDraws → Request
  set_lock disable_lock : Body → LockDraws → Request
  verify_lock : Body → Option String → LockDraws → Request

pub data Reply : Type 0 where
  success : Reply
  profile : ProfileView → Reply
  privacy : PrivacySettings → Reply
  events : List SecurityEventView → Reply
  devices : List DeviceView → Reply
  renamed : ℕ × String → Reply
  revoked : ℕ → Reply
  verified : Bool → Reply

-- device_name is NOT NULL, which matters where the UPDATE finds a row.
rename_to_null : List Device → Action IdentityDb (ℕ × String)
rename_to_null [] = throw device_not_found
rename_to_null (row ∷ rest) = throw constraint_violation

module _ (env : Environment) (user : RequestUser) where
  abbrev pub account_profile : Action IdentityDb ProfileView
  account_profile = get_profile user.user_id

  abbrev pub privacy_settings : Action IdentityDb PrivacySettings
  privacy_settings = get_privacy_settings user.user_id

  abbrev security_events : Action IdentityDb (List SecurityEventView)
  security_events = gets (get_security_events user.user_id)

  abbrev device_list : Action IdentityDb (List DeviceView)
  device_list = gets (list_devices user.user_id (some user.device_id))

  abbrev pub revoke_request : ℕ → DeviceDraws → Action IdentityDb ℕ
  revoke_request device_id d = revoke_device env user.user_id device_id "user_requested" d

  -- The name is not checked: UpdateDeviceSchema is used nowhere.
  unfoldable pub rename_request : ℕ → Json → DeviceDraws → Action IdentityDb (ℕ × String)
  unfolding rename_to_null
  rename_request device_id Json.missing d = do
    rows ← gets (λ db. select (is_active_of user.user_id device_id) db.devices)
    rename_to_null rows
  rename_request device_id Json.null d = do
    rows ← gets (λ db. select (is_active_of user.user_id device_id) db.devices)
    rename_to_null rows
  rename_request device_id (Json.string name) d = rename_device user.user_id device_id name d
  rename_request device_id value d = rename_device user.user_id device_id (env.query_text value) d

  unfoldable pub set_pin_request : Body → LockDraws → Action IdentityDb (Unit {0})
  set_pin_request body d = parsed (pin_schema body) (λ pin. set_pin env user.user_id pin d)

  unfoldable pub verify_pin_request : Body → Option String → LockDraws → Action IdentityDb Bool
  verify_pin_request body ip d =
      parsed (pin_schema body) (λ pin. verify_pin env user.user_id pin ip d)

  unfoldable pub disable_pin_request : Body → LockDraws → Action IdentityDb (Unit {0})
  disable_pin_request body d = parsed (pin_schema body) (λ pin. disable_pin env user.user_id pin d)

  unfoldable pub handle : Request → Action IdentityDb Reply
  handle get_account_profile = account_profile >>= λ v. pure (profile v)
  handle get_privacy = privacy_settings >>= λ p. pure (privacy p)
  handle get_events = security_events >>= λ es. pure (events es)
  handle list = device_list >>= λ ds. pure (devices ds)
  handle (log_out db_now) = logout user db_now >> pure success
  handle (log_out_all db_now) = logout_all user db_now >> pure success
  handle (rename device_id name d) = rename_request device_id name d >>= λ r. pure (renamed r)
  handle (revoke device_id d) = revoke_request device_id d >>= λ i. pure (revoked i)
  handle (set_lock body d) = set_pin_request body d >> pure success
  handle (verify_lock body ip d) = verify_pin_request body ip d >>= λ b. pure (verified b)
  handle (disable_lock body d) = disable_pin_request body d >> pure success

unfoldable pub respond : Environment → Option (List String) → ℕ → Request → Action IdentityDb Reply
respond env header now request = guarded env header now (λ user. handle env user request)
