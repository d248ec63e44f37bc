-- ===== src/Schema/AccountConstraints.antt =====
-- The constraints of the tables that a registration writes, as tests that refuse a row, and the
-- INSERT statements under them.
use Prim.Native.Char.{code}
use Prim.Native.String.{count}
use text.Mathlib.Text.{◌==◌ as str_eq}
use guff_suff.Prelude.{ℕ, String, Bool, true, ◌∷◌, not, ◌&&◌, ◌||◌, leb, ◌==◌, any}
use guff_suff.Action.{Action, insert}
use guff_suff.Environment.{Environment}
use guff_suff.Schema.Identity.{
  User, PhoneIdentity, UserProfile, Username, PrivacySettings, Device, IdentityDb,
}
use guff_suff.Schema.Constraints.{user_exists, device_exists}

-- [a-z0-9_]
abbrev is_username_code : ℕ → Bool
is_username_code c = (leb b'a' c && leb c b'z') || ((leb b'0' c && leb c b'9') || (c == b'_'))

all_username_codes : String → Bool
all_username_codes String.[] = true
all_username_codes (String.◌∷◌ c s) = is_username_code (code c) && all_username_codes s

-- username_canonical ~ '^[a-z0-9_]{3,20}$'
unfoldable pub is_canonical_username : String → Bool
unfolding all_username_codes
is_canonical_username s = leb 3 (count s) && (leb (count s) 20 && all_username_codes s)

unfoldable pub user_violates : User → IdentityDb → Bool
user_violates u db = user_exists db u.id

module _ (env : Environment) where
  -- `verified_at` is never NULL, so the partial index is over all rows.
  unfoldable pub phone_violates : PhoneIdentity → IdentityDb → Bool
  phone_violates p db =
      (any (λ r. r.id == p.id) db.phone_identities
        || any (λ r. r.phone_blind_index == p.phone_blind_index) db.phone_identities)
      || (env.references_checked && not (user_exists db p.user_id))

  unfoldable pub profile_violates : UserProfile → IdentityDb → Bool
  profile_violates p db =
      any (λ r. r.user_id == p.user_id) db.user_profiles
      || (env.references_checked && not (user_exists db p.user_id))

  unfoldable pub username_violates : Username → IdentityDb → Bool
  username_violates n db =
      (any (λ r. r.id == n.id) db.usernames
        || (any (λ r. str_eq r.username_canonical n.username_canonical) db.usernames
            || not (is_canonical_username n.username_canonical)))
      || (env.references_checked && not (user_exists db n.user_id))

  unfoldable pub device_violates : Device → IdentityDb → Bool
  device_violates d db =
      device_exists db d.id || (env.references_checked && not (user_exists db d.user_id))

  unfoldable pub privacy_violates : PrivacySettings → IdentityDb → Bool
  privacy_violates p db =
      any (λ r. r.user_id == p.user_id) db.privacy_settings
      || (env.references_checked && not (user_exists db p.user_id))

  abbrev pub insert_phone : PhoneIdentity → Action IdentityDb (Unit {0})
  insert_phone p =
      insert (phone_violates p) (λ db. record db { phone_identities = p ∷ db.phone_identities })

  abbrev pub insert_profile : UserProfile → Action IdentityDb (Unit {0})
  insert_profile p =
      insert (profile_violates p) (λ db. record db { user_profiles = p ∷ db.user_profiles })

  abbrev pub insert_username : Username → Action IdentityDb (Unit {0})
  insert_username n =
      insert (username_violates n) (λ db. record db { usernames = n ∷ db.usernames })

  abbrev pub insert_device : Device → Action IdentityDb (Unit {0})
  insert_device d = insert (device_violates d) (λ db. record db { devices = d ∷ db.devices })

  abbrev pub insert_privacy : PrivacySettings → Action IdentityDb (Unit {0})
  insert_privacy p =
      insert (privacy_violates p) (λ db. record db { privacy_settings = p ∷ db.privacy_settings })

abbrev pub insert_user : User → Action IdentityDb (Unit {0})
insert_user u = insert (user_violates u) (λ db. record db { users = u ∷ db.users })
