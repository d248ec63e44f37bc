-- ===== src/Api/Isolation/Runs.antt =====
-- What sequences of requests on the guarded routes do to a user for whom none of them is let through.
use guff_suff.Prelude.{
  ℕ, ◌≡◌, refl, sym, ◌∙◌, ap, String, Bool, true, false, Option, List, [], ◌∷◌, arith, ◌==◌, ◌||◌,
  select,
}
use guff_suff.Action.{Outcome, returned, threw, final}
use guff_suff.Environment.{Environment}
use guff_suff.Schema.Identity.{IdentityDb}
use guff_suff.Guard.{RequestUser, can_activate}
use guff_suff.Api.Guarded.{Request, respond}
use guff_suff.Api.Isolation.{Apart, respond_rows}

-- A request, with its header and the time at which it comes.
pub record Incoming : Type 0 where
  pub header : Option (List String)
  pub now : ℕ
  pub request : Request

abbrev pub after : Environment → Incoming → IdentityDb → IdentityDb
after env r db = final (respond env r.header r.now r.request db)

unfoldable pub run : Environment → IdentityDb → List Incoming → IdentityDb
run env db [] = db
run env db (r ∷ rs) = run env (after env r db) rs

abbrev is_for : ℕ → Outcome IdentityDb RequestUser → Bool
is_for v (returned t user) = user.user_id == v
is_for v (threw t e) = false

-- Some request of the sequence is let through for the user `v`.
unfoldable pub acts : Environment → ℕ → IdentityDb → List Incoming → Bool
acts env v db [] = false
acts env v db (r ∷ rs) =
    is_for v (can_activate env r.header r.now db) || acts env v (after env r db) rs

-- What the user sees, and what guards the account: the same rows, in the same order.
pub record IsUntouched (v : ℕ) (db t : IdentityDb) : Type 0 where
  pub users : t.users ≡ db.users
  pub phone_identities : t.phone_identities ≡ db.phone_identities
  pub profiles : t.user_profiles ≡ db.user_profiles
  pub usernames : t.usernames ≡ db.usernames
  pub privacy : t.privacy_settings ≡ db.privacy_settings
  pub devices : select (λ d. d.user_id == v) t.devices ≡ select (λ d. d.user_id == v) db.devices
  pub events :
      select (λ e. e.user_id == v) t.security_events
      ≡ select (λ e. e.user_id == v) db.security_events
  pub locks :
      select (λ c. c.user_id == v) t.registration_lock_credentials
      ≡ select (λ c. c.user_id == v) db.registration_lock_credentials
  pub attempts :
      select (λ a. a.user_id == v) t.registration_lock_attempts
      ≡ select (λ a. a.user_id == v) db.registration_lock_attempts

module _ {A : Type 0} (p q : A → Bool) (less : (x : A) → p x ≡ true → q x ≡ true) where
  select-select : (xs : List A) → select p (select q xs) ≡ select p xs
  unfolding select
  select-select [] = refl
  select-select (x ∷ xs) = ground (arith, less x, select-select xs)

  -- Rows that are the same under a condition are so under a stronger one.
  select-weaken : (xs ys : List A) → select q xs ≡ select q ys → select p xs ≡ select p ys
  select-weaken xs ys h = sym (select-select xs) ∙ ap (select p) h ∙ select-select ys

module _ (u v : ℕ) (other : (u == v) ≡ false) where
  Apart-IsUntouched : (db t : IdentityDb) → Apart u db t → IsUntouched v db t
  unfolding Apart
  Apart-IsUntouched db t a = record {
    users = a.0;
    phone_identities = a.1;
    profiles = a.2;
    usernames = a.3;
    privacy = a.4;
    devices = select-weaken _ _ (λ d is. ground (arith, other)) t.devices db.devices a.5;
    events =
        select-weaken _ _ (λ d is. ground (arith, other)) t.security_events db.security_events a.6;
    locks =
        select-weaken _ _ (λ d is. ground (arith, other)) t.registration_lock_credentials
          db.registration_lock_credentials a.7;
    attempts =
        select-weaken _ _ (λ d is. ground (arith, other)) t.registration_lock_attempts
          db.registration_lock_attempts a.8;
  }

IsUntouched-refl : (v : ℕ) (db t : IdentityDb) → t ≡ db → IsUntouched v db t
IsUntouched-refl v db t same = rw same (record {
  users = refl;
  phone_identities = refl;
  profiles = refl;
  usernames = refl;
  privacy = refl;
  devices = refl;
  events = refl;
  locks = refl;
  attempts = refl;
})

IsUntouched-trans :
    (v : ℕ) (db t s : IdentityDb) → IsUntouched v db t → IsUntouched v t s → IsUntouched v db s
IsUntouched-trans v db t s a b = record {
  users = b.users ∙ a.users;
  phone_identities = b.phone_identities ∙ a.phone_identities;
  profiles = b.profiles ∙ a.profiles;
  usernames = b.usernames ∙ a.usernames;
  privacy = b.privacy ∙ a.privacy;
  devices = b.devices ∙ a.devices;
  events = b.events ∙ a.events;
  locks = b.locks ∙ a.locks;
  attempts = b.attempts ∙ a.attempts;
}

module _ (env : Environment) (v : ℕ) where
  after-IsUntouched :
      (r : Incoming) (db : IdentityDb) (o : Outcome IdentityDb RequestUser)
      → can_activate env r.header r.now db ≡ o
      → is_for v o ≡ false
      → IsUntouched v db (after env r db)
  after-IsUntouched r db (returned t user) admitted other =
      Apart-IsUntouched user.user_id v other db _
        ((respond_rows env r.header r.now r.request db).1 t user admitted)
  after-IsUntouched r db (threw t e) refused other =
      IsUntouched-refl v db _
        (ap final ((respond_rows env r.header r.now r.request db).0 t e refused))

  -- While no request of a sequence on the guarded routes of the identity services is let through for a
  -- user, whatever is sent on these routes with whatever tokens, the devices, security events,
  -- registration lock and lock attempts of that user stay the same rows, and so do all accounts,
  -- phone numbers, profiles, usernames and privacy settings. (The open routes, such as those of
  -- registration and refresh, are not among the requests of a sequence.)
  pub run-IsUntouched :
      (db : IdentityDb) (rs : List Incoming)
      → acts env v db rs ≡ false
      → IsUntouched v db (run env db rs)
  unfolding run acts
  run-IsUntouched db [] idle = IsUntouched-refl v db db refl
  run-IsUntouched db (r ∷ rs) idle =
      IsUntouched-trans v db (after env r db) _
        (after-IsUntouched r db _ refl (ground (arith, idle)))
        (run-IsUntouched (after env r db) rs (ground (arith, idle)))
