-- ===== src/Account/Views.antt =====
-- What the queries of an account show.
use guff_suff.Prelude.{
  insert_desc, ℕ, suc, zero, ◌≡◌, refl, ap, ◌∙◌, some, List, [], ◌∷◌, arith, ◌==◌, ==_refl, map,
  select, join, sort_desc, take, false, Bool-cases, inl, inr, any, leb, Bool, String,
}
use text.Mathlib.TextPositions.{eq_refl}
use guff_suff.Action.{returned}
use guff_suff.Environment.{Environment}
use guff_suff.Schema.Identity.{SecurityEvent, JsonValue, IdentityDb, User, UserProfile, Username}
use guff_suff.Session.{SessionDraws, TokenPair, create_session}
use guff_suff.Account.{
  canonical_username, RegisterParams, RegisterDraws, Registered, register_account,
  get_privacy_settings, new_user, new_profile, new_username, new_privacy, is_username_available,
}
use guff_suff.Account.Registration.{register-Committed}
use guff_suff.Account.Queries.{or_null, get_profile, get_security_events, event_view, profile_view}

-- A session leaves what these queries read.
create_session-views :
    (env : Environment) (user device : ℕ) (d : SessionDraws) (db : IdentityDb) {db' : IdentityDb}
    {pair : TokenPair}
    → create_session env user device d db ≡ returned db' pair
    → (db'.users ≡ db.users)
      × (db'.user_profiles ≡ db.user_profiles)
      × (db'.usernames ≡ db.usernames)
      × (db'.privacy_settings ≡ db.privacy_settings)
unfolding create_session
create_session-views env user device d db h = ground arith

-- The first rows answer the queries of their user.
get_profile-first :
    (i : ℕ) (db : IdentityDb) {u : User} {p : UserProfile} {n : Username} {us : List User}
    {ps : List UserProfile} {ns : List Username}
    → db.users ≡ u ∷ us
    → db.user_profiles ≡ p ∷ ps
    → db.usernames ≡ n ∷ ns
    → u.id ≡ i
    → p.user_id ≡ i
    → n.user_id ≡ i
    → get_profile i db ≡ returned db (profile_view u p (some n))
unfolding get_profile select join or_null
get_profile-first i db {u} {p} {n} hu hp hn iu ip in_ =
    rw (hu, hp, hn, iu, ==_refl i, ip, in_, ==_refl i, ==_refl i) refl

-- After a registration the profile of the new user has the display name and the username that were
-- given, the privacy settings are the default ones, and the username is taken.
pub register-views :
    (env : Environment) (p : RegisterParams) (d : RegisterDraws) (db : IdentityDb)
    {db' : IdentityDb} {r : Registered}
    → register_account env p d db ≡ returned db' r
    → (get_profile d.user_id db'
        ≡ returned db'
            (profile_view (new_user p d) (new_profile p d) (some (new_username env p d))))
      × (get_privacy_settings d.user_id db' ≡ returned db' (new_privacy d))
      × (is_username_available env p.username db' ≡ false)
unfolding get_privacy_settings is_username_available select any
register-views env p d db {db'} {r} done =
    let c = register-Committed env p d db done in
    let w = c.1.written in
    let kept = create_session-views env d.user_id d.device_id d.session c.0 c.2 in
    (
      get_profile-first d.user_id db' (kept.0 ∙ ap (λ v. v.users) w)
          (kept.1 ∙ ap (λ v. v.user_profiles) w) (kept.2 ∙ ap (λ v. v.usernames) w) refl refl refl,
      rw (kept.3 ∙ ap (λ v. v.privacy_settings) w, ==_refl d.user_id) refl,
      rw (kept.2 ∙ ap (λ v. v.usernames) w, eq_refl (canonical_username env p)) refl,
    )

module _ {ℓ} {A : Type ℓ} (f : A → A) where
  select-map :
      (p : A → Bool)
      → ((x : A) → p (f x) ≡ p x)
      → (xs : List A) → select p (map f xs) ≡ map f (select p xs)
  unfolding select
  select-map p h [] = refl
  select-map p h (x ∷ xs) = elim (Bool-cases (p x)) [
    | inl kept ↦ rw (h x, kept, select-map p h xs) refl
    | inr lost ↦ rw (h x, lost, select-map p h xs) refl
  ]

  take-map : (n : ℕ) (xs : List A) → take n (map f xs) ≡ map f (take n xs)
  take-map zero xs = refl
  take-map (suc n) [] = refl
  take-map (suc n) (x ∷ xs) = rw (take-map n xs) refl

  insert_desc-map :
      (key : A → ℕ)
      → ((x : A) → key (f x) ≡ key x)
      → (x : A) (ys : List A) → insert_desc key (f x) (map f ys) ≡ map f (insert_desc key x ys)
  unfolding insert_desc
  insert_desc-map key h x [] = refl
  insert_desc-map key h x (y ∷ ys) = elim (Bool-cases (leb (key y) (key x))) [
    | inl over ↦ rw (h x, h y, over) refl
    | inr under ↦ rw (h x, h y, under, insert_desc-map key h x ys) refl
  ]

  sort_desc-map :
      (key : A → ℕ)
      → ((x : A) → key (f x) ≡ key x)
      → (xs : List A) → sort_desc key (map f xs) ≡ map f (sort_desc key xs)
  unfolding sort_desc
  sort_desc-map key h [] = refl
  sort_desc-map key h (x ∷ xs) =
      rw (sort_desc-map key h xs) (insert_desc-map key h x (sort_desc key xs))

-- The same event with other internal metadata.
abbrev pub with_metadata :
    (SecurityEvent → List (String × JsonValue)) → SecurityEvent → SecurityEvent
with_metadata f e = record e { internal_metadata_json = f e }

map-event_view :
    (f : SecurityEvent → List (String × JsonValue)) (es : List SecurityEvent)
    → map event_view (map (with_metadata f) es) ≡ map event_view es
map-event_view f [] = refl
map-event_view f (e ∷ es) = ap (◌∷◌ (event_view e)) (map-event_view f es)

-- What a user sees of the security events does not depend on their internal metadata.
pub get_security_events-with_metadata :
    (f : SecurityEvent → List (String × JsonValue)) (i : ℕ) (db : IdentityDb)
    → get_security_events i
        (record db { security_events = map (with_metadata f) db.security_events })
      ≡ get_security_events i db
unfolding get_security_events
get_security_events-with_metadata f i db =
    rw
      (
        select-map (with_metadata f) (λ e. e.user_id == i) (λ e. refl) db.security_events,
        sort_desc-map (with_metadata f) (λ e. e.created_at) (λ e. refl)
            (select (λ e. e.user_id == i) db.security_events),
        take-map (with_metadata f) 50
            (sort_desc (λ e. e.created_at) (select (λ e. e.user_id == i) db.security_events)),
      )
      (map-event_view f _)
