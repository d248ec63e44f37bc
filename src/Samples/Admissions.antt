-- ===== src/Samples/Admissions.antt =====
-- The guard, and the revocation of a device.
use guff_suff.Prelude.{◌≡◌, refl, true, false, some, [], ◌∷◌, any, select, join}
use guff_suff.Errors.{session_not_found}
use guff_suff.Action.{returned, threw}
use guff_suff.Schema.Constraints.{session_violates, family_violates, token_violates}
use guff_suff.Session.{
  create_session, rotate_refresh_token, find_token, live_replacement, rotated_pair,
}
use guff_suff.Session.Cases.{after_create}
use guff_suff.Device.{DeviceDraws}
use guff_suff.Guard.{RequestUser, can_activate, bearer_token, session_rows}
use guff_suff.Guard.Denial.{Admission, can_activate-Admission}
use guff_suff.Guard.Login.{bearer, create_session-admitted}
use guff_suff.Guard.Refresh.{rotate-session_unknown}
use guff_suff.Samples.{env_with, claims_for, rotated_db, unrotated_db, rotation_at, login_at}

abbrev second_device : RequestUser
second_device = record { user_id = 1; device_id = 11; session_id = 101 }

can_activate-Admission_example :
    Admission
      (env_with true (claims_for 101 1 11))
      (some ("Bearer" ∷ "token" ∷ []))
      5000
      unrotated_db
      second_device
unfolding join select can_activate bearer_token session_rows
can_activate-Admission_example =
    can_activate-Admission (env_with true (claims_for 101 1 11)) (some ("Bearer" ∷ "token" ∷ []))
      5000 {db' = unrotated_db} refl

create_session-admitted_example :
    can_activate
      (env_with true (claims_for 102 1 10))
      (bearer "signed")
      5000
      (after_create (env_with true (claims_for 102 1 10)) 1 10 (login_at 4000) unrotated_db)
    ≡ returned
        (after_create (env_with true (claims_for 102 1 10)) 1 10 (login_at 4000) unrotated_db)
        (record { user_id = 1; device_id = 10; session_id = 102 })
unfolding create_session any session_violates family_violates token_violates
create_session-admitted_example =
    create_session-admitted (env_with true (claims_for 102 1 10)) 1 10 (login_at 4000) unrotated_db
      5000 refl refl (λ e. refl, (λ e. refl, (λ e. refl, tt))) (λ e. refl, (λ e. refl, tt)) refl

rotate-session_unknown_example :
    can_activate (env_with true (claims_for 900 1 10)) (bearer "signed") 5000 rotated_db
    ≡ threw rotated_db session_not_found
unfolding rotate_refresh_token find_token join select any live_replacement
rotate-session_unknown_example =
    rotate-session_unknown (env_with true (claims_for 900 1 10)) "abc" (rotation_at 5000) rotated_db
      {rest = []} refl
      {pair = rotated_pair (env_with true (claims_for 900 1 10)) "abc"
        (record {
          id = 200;
          user_id = 1;
          device_id = 10;
          is_compromised = false;
          created_at = 0;
          updated_at = 0;
        })
        (rotation_at 5000)}
      refl 5000 refl refl

abbrev revocation : DeviceDraws
revocation = record { event_id = 501; audit_id = 600; correlation_id = 700; db_now = 3000 }
