-- ===== src/History/Devices.antt =====
-- A revoked device, over any history.
use guff_suff.Prelude.{
  ℕ, ◌≡◌, refl, ◌≢◌, String, Bool, true, Option, List, ◌==◌, any-update, update, All, All-update,
}
use guff_suff.Action.{returned}
use guff_suff.Environment.{Environment}
use guff_suff.Schema.Identity.{Device, IdentityDb}
use guff_suff.Session.{compromise, revoke_session, revoke_all_sessions_for_user}
use guff_suff.Session.Cases.{create_session_cases, rotate_cases}
use guff_suff.Device.{
  DeviceDraws, is_active_of, revoke_device, revoke_credentials, mark_revoked, renamed_at,
  device_revoked_at,
}
use guff_suff.Device.Revocation.{IsRevoked, revoke_device-IsLockedOut}
use guff_suff.Device.Cases.{rename_device_cases, revoke_device_cases}
use guff_suff.Guard.{RequestUser, can_activate}
use guff_suff.Guard.Denial.{can_activate-IsRevoked}
use guff_suff.History.{
  Call, creates, rotates, logs_out, logs_out_all, renames, revokes, step, run, run_keeps,
}

-- Updates that set neither the identifier nor the mark back.
IsRevoked-update :
    (i : ℕ) (p : Device → Bool) (f : Device → Device) (devices : List Device)
    → ((r : Device) → (f r).id ≡ r.id)
    → ((r : Device) → r.is_revoked ≡ true → (f r).is_revoked ≡ true)
    → IsRevoked i devices
    → IsRevoked i (update p f devices)
IsRevoked-update i p f devices same kept h = record {
  known = rw (any-update (λ r. r.id == i) p f (λ r. rw (same r)) devices) h.known;
  marked = All-update _ p f (λ r _ was is. kept r (was (rw (same r) at is))) devices h.marked;
}

module _ (env : Environment) (i : ℕ) where
  abbrev Revoked : IdentityDb → Type 0
  Revoked db = IsRevoked i db.devices

  pub step-IsRevoked : (db : IdentityDb) (c : Call) → Revoked db → Revoked (step env db c)
  unfolding step revoke_credentials mark_revoked compromise revoke_session
      revoke_all_sessions_for_user
  step-IsRevoked db (creates user device d) h =
      create_session_cases env Revoked user device d db h (λ _ _ _. h)
  step-IsRevoked db (rotates raw d) h =
      rotate_cases env Revoked raw d db h (λ t f. h) (λ t f _ _. h)
  step-IsRevoked db (logs_out session now) h = h
  step-IsRevoked db (logs_out_all user now) h = h
  step-IsRevoked db (renames user device name d) h =
      rename_device_cases Revoked user device d db name renamed renamed
    where
      renamed :
          IsRevoked i (update (is_active_of user device) (renamed_at name d.db_now) db.devices)
      renamed = IsRevoked-update i _ (renamed_at name d.db_now) db.devices (λ r. refl) (λ r k. k) h
  step-IsRevoked db (revokes user device reason d) h =
      revoke_device_cases Revoked user device d db env reason h λ name.
        IsRevoked-update i _ (device_revoked_at reason d.db_now) db.devices (λ r. refl)
          (λ r k. refl) h

  run-IsRevoked : (db : IdentityDb) (cs : List Call) → Revoked db → Revoked (run env db cs)
  run-IsRevoked = run_keeps env Revoked step-IsRevoked

-- Once a device, whose identifier no other user has, is revoked, the guard lets no request through
-- for it: with whatever token, at whatever time and after whatever calls of the session and device
-- services.
pub revoked-run-denied :
    (env : Environment) (user i : ℕ) (reason : String) (d : DeviceDraws) (db : IdentityDb)
    {db' : IdentityDb} {r : ℕ}
    → All (λ x. (x.id == i) ≡ true → x.user_id ≡ user) db.devices
    → revoke_device env user i reason d db ≡ returned db' r
    → (cs : List Call) (header : Option (List String)) (now : ℕ) {after : IdentityDb}
      {who : RequestUser}
    → can_activate env header now (run env db' cs) ≡ returned after who
    → who.device_id ≢ i
revoked-run-denied env user i reason d db owned done cs header now admitted =
    can_activate-IsRevoked env header now i _
      (run-IsRevoked env i _ cs
        (revoke_device-IsLockedOut env user i reason d db owned done).device)
      admitted
