-- ===== src/Account/Registration.antt =====
-- What a registration leaves, and whom it refuses.
use text.Mathlib.TextPositions.{eq_refl}
use guff_suff.Prelude.{
  ℕ, ◌≡◌, refl, ◌⊎◌, inl, inr, ◌≢◌, String, true, false, Option, some, none, List, [], ◌∷◌, arith,
  ◌==◌, ==_refl, any, select,
}
use guff_suff.Errors.{Error}
use guff_suff.Action.{Outcome, returned, threw}
use guff_suff.Environment.{Environment}
use guff_suff.Schema.Identity.{OtpChallenge, IdentityDb}
use guff_suff.Session.{TokenPair, SessionDraws, create_session}
use guff_suff.Phone.{normalize_to_e164}
use guff_suff.Account.{
  RegisterParams, RegisterDraws, Registered, registration_body, register_account, phone_registered,
  username_registered, canonical_username, new_user, new_phone, new_profile, new_username,
  new_device, new_privacy, registration_event, registration_audit,
}

module _ (env : Environment) (p : RegisterParams) (d : RegisterDraws) where
  -- The rows of a new account.
  abbrev pub with_account : ℕ → String → IdentityDb → IdentityDb
  with_account blind_index e164 db = record db {
    users = new_user p d ∷ db.users;
    phone_identities = new_phone env blind_index e164 d ∷ db.phone_identities;
    user_profiles = new_profile p d ∷ db.user_profiles;
    usernames = new_username env p d ∷ db.usernames;
    devices = new_device p d ∷ db.devices;
    privacy_settings = new_privacy d ∷ db.privacy_settings;
    security_events = registration_event p d ∷ db.security_events;
    audit_events = registration_audit (canonical_username env p) d ∷ db.audit_events;
  }

  -- What the transaction of a registration has checked, and what it leaves.
  pub record Committed (db db' : IdentityDb) : Type 0 where
    pub challenge : OtpChallenge
    pub others : List OtpChallenge
    pub e164 : String
    pub found : select (λ c. c.id == p.challenge_id) db.otp_challenges ≡ challenge ∷ others
    pub verified : challenge.is_verified ≡ true
    pub number : normalize_to_e164 env p.phone_number "NP" ≡ some e164
    pub phone_free : phone_registered challenge.phone_blind_index db ≡ false
    pub username_free : username_registered (canonical_username env p) db ≡ false
    pub written : db' ≡ with_account challenge.phone_blind_index e164 db

  pub challenge-Committed :
      (rows : List OtpChallenge) (number : Option String) (db : IdentityDb) {db' : IdentityDb}
      → select (λ c. c.id == p.challenge_id) db.otp_challenges ≡ rows
      → normalize_to_e164 env p.phone_number "NP" ≡ number
      → registration_body env p d db ≡ returned db' tt
      → Committed db db'
  unfolding registration_body
  challenge-Committed [] number db found parsed h = ground arith
  challenge-Committed (c ∷ rest) none db found parsed h = ground arith
  challenge-Committed (c ∷ rest) (some e164) db found parsed h = record {
    challenge = c;
    others = rest;
    e164 = e164;
    found = found;
    verified = ground arith;
    number = parsed;
    phone_free = ground arith;
    username_free = ground arith;
    written = ground arith;
  }

  -- The transaction, and the tokens that are issued after it.
  after_body :
      (o : Outcome IdentityDb (Unit {0})) (db : IdentityDb) {db' : IdentityDb} {r : Registered}
      → registration_body env p d db ≡ o
      → register_account env p d db ≡ returned db' r
      → (mid : IdentityDb) × (registration_body env p d db ≡ returned mid tt)
        × (create_session env d.user_id d.device_id d.session mid ≡ returned db' r.tokens)
  unfolding register_account
  after_body (returned mid tt) db body h = (mid, body, ground arith)
  after_body (threw mid e) db body h = ground arith

  -- A registration that succeeds rests on a challenge that was verified, for a phone number and a
  -- username that no account had; its transaction adds the rows of the account and nothing else, and
  -- the tokens are those of a session that is created for the new user and device.
  pub register-Committed :
      (db : IdentityDb) {db' : IdentityDb} {r : Registered}
      → register_account env p d db ≡ returned db' r
      → (mid : IdentityDb) × Committed db mid
        × (create_session env d.user_id d.device_id d.session mid ≡ returned db' r.tokens)
  register-Committed db h =
      let b = after_body _ db refl h in (b.0, challenge-Committed _ _ db refl refl b.1, b.2)

  after_throw :
      (o : Outcome IdentityDb (Unit {0})) (db : IdentityDb) {db' : IdentityDb} {e : Error}
      → registration_body env p d db ≡ o
      → register_account env p d db ≡ threw db' e
      → (db' ≡ db) ⊎ (registration_body env p d db ≡ returned db' tt)
  unfolding register_account create_session
  after_throw (returned mid tt) db body h = inr (ground arith)
  after_throw (threw mid e) db body h = inl (ground arith)

  -- A registration that throws leaves the database as it was, or, where only the session could not be
  -- created, with the whole account committed.
  pub register-threw :
      (db : IdentityDb) {db' : IdentityDb} {e : Error}
      → register_account env p d db ≡ threw db' e
      → (db' ≡ db) ⊎ Committed db db'
  register-threw db h = elim (after_throw _ db refl h) [
    | inl same ↦ inl same
    | inr done ↦ inr (challenge-Committed _ _ db refl refl done)
  ]

-- A session adds no phone number and no username.
pub create_session-accounts :
    (env : Environment) (user device : ℕ) (d : SessionDraws) (db : IdentityDb) {db' : IdentityDb}
    {pair : TokenPair}
    → create_session env user device d db ≡ returned db' pair
    → (db'.phone_identities ≡ db.phone_identities) × (db'.usernames ≡ db.usernames)
unfolding create_session
create_session-accounts env user device d db h = (ground arith, ground arith)

-- After a registration no other one succeeds, in the database that it leaves, with the same canonical
-- username or with a challenge for the same phone number.
pub register_unique :
    (env : Environment) (p : RegisterParams) (d : RegisterDraws) (db : IdentityDb)
    {c : OtpChallenge} {cs : List OtpChallenge}
    → select (λ x. x.id == p.challenge_id) db.otp_challenges ≡ c ∷ cs
    → {db' : IdentityDb} {r : Registered} → register_account env p d db ≡ returned db' r
    → (p' : RegisterParams) (d' : RegisterDraws) {c' : OtpChallenge} {cs' : List OtpChallenge}
    → select (λ x. x.id == p'.challenge_id) db'.otp_challenges ≡ c' ∷ cs'
    → (canonical_username env p' ≡ canonical_username env p)
      ⊎ (c'.phone_blind_index ≡ c.phone_blind_index)
    → {after : IdentityDb} {r' : Registered} → register_account env p' d' db' ≢ returned after r'
unfolding any
register_unique env p d db {c} {cs} found {db'} {r} done p' d' {c'} {cs'} found' clash {after} {r'}
      again =
    elim clash [
      | inl name ↦
          ground (arith, a.written, b.username_free, kept.1, eq_refl (canonical_username env p))
      | inr phone ↦
          ground
            (arith, a.written, a.found, b.found, b.phone_free, kept.0, ==_refl c.phone_blind_index)
    ]
  where
    first :
        (mid : IdentityDb) × Committed env p d db mid
        × (create_session env d.user_id d.device_id d.session mid ≡ returned db' r.tokens)
    first = register-Committed env p d db done

    a : Committed env p d db first.0
    a = first.1

    kept : (db'.phone_identities ≡ first.0.phone_identities) × (db'.usernames ≡ first.0.usernames)
    kept = create_session-accounts env d.user_id d.device_id d.session first.0 first.2

    second :
        (mid : IdentityDb) × Committed env p' d' db' mid
        × (create_session env d'.user_id d'.device_id d'.session mid ≡ returned after r'.tokens)
    second = register-Committed env p' d' db' again

    b : Committed env p' d' db' second.0
    b = second.1
