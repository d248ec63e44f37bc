-- ===== src/Account/Queries.antt =====
-- getProfile and getSecurityEvents of services/api/src/identity/account.service.ts.
use guff_suff.Prelude.{
  ℕ, String, Bool, Option, none, some, List, [], ◌∷◌, ◌==◌, map, select, join, sort_desc, take,
}
use guff_suff.Errors.{profile_not_found}
use guff_suff.Action.{Action, pure, throw}
use guff_suff.Schema.Identity.{
  User, UserProfile, Username, AccountState, SecurityEvent, Severity, JsonValue, IdentityDb,
}

-- `username` is missing where the LEFT JOIN finds none.
pub record ProfileView : Type 0 where
  pub user_id : ℕ
  pub account_state : AccountState
  pub locale : String
  pub timezone : String
  pub display_name : String
  pub avatar_object_key : Option String
  pub bio : Option String
  pub profile_visibility : String
  pub username_canonical : Option String
  pub username_display : Option String

-- The columns that a user may see: not `internal_metadata_json`.
pub record SecurityEventView : Type 0 where
  pub id : ℕ
  pub event_type : String
  pub severity : Severity
  pub user_description_key : String
  pub device_context_json : List (String × JsonValue)
  pub is_read : Bool
  pub created_at : ℕ

unfoldable pub or_null : List Username → List (Option Username)
or_null [] = none ∷ []
or_null (n ∷ rest) = map some (n ∷ rest)

-- ... LEFT JOIN usernames
abbrev pub username_rows : User → IdentityDb → List (Option Username)
unfolding or_null
username_rows u db = or_null (select (λ n. u.id == n.user_id) db.usernames)

unfoldable pub maybe : (Username → String) → Option Username → Option String
maybe column none = none
maybe column (some n) = some (column n)

abbrev pub profile_view : User → UserProfile → Option Username → ProfileView
unfolding maybe
profile_view u p n = record {
  user_id = u.id;
  account_state = u.account_state;
  locale = u.locale;
  timezone = u.timezone;
  display_name = p.display_name;
  avatar_object_key = p.avatar_object_key;
  bio = p.bio;
  profile_visibility = p.profile_visibility;
  username_canonical = maybe (λ r. r.username_canonical) n;
  username_display = maybe (λ r. r.username_display) n;
}

with_username : User → UserProfile → List (Option Username) → Action IdentityDb ProfileView
with_username u p [] = throw profile_not_found
with_username u p (n ∷ rest) = pure (profile_view u p n)

first_profile : List (User × UserProfile) → IdentityDb → Action IdentityDb ProfileView
unfolding with_username
first_profile [] db = throw profile_not_found
first_profile ((u, p) ∷ rest) db = with_username u p (username_rows u db)

unfoldable pub get_profile : ℕ → Action IdentityDb ProfileView
unfolding first_profile
get_profile user_id db =
    first_profile
      (join (λ u p. u.id == p.user_id) (select (λ u. u.id == user_id) db.users) db.user_profiles) db
      db

abbrev pub event_view : SecurityEvent → SecurityEventView
event_view e = record {
  id = e.id;
  event_type = e.event_type;
  severity = e.severity;
  user_description_key = e.user_description_key;
  device_context_json = e.device_context_json;
  is_read = e.is_read;
  created_at = e.created_at;
}

unfoldable pub get_security_events : ℕ → IdentityDb → List SecurityEventView
get_security_events user_id db = map event_view (
    take 50 (sort_desc (λ e. e.created_at) (select (λ e. e.user_id == user_id) db.security_events)))
