-- ===== src/System/Frame.antt =====
-- What the services leave alone of the tables of devices and of challenges.
pub mod Deliveries
use guff_suff.Prelude.{
  ℕ, ◌≡◌, refl, ◌∙◌, ap, sym, subst, inl, inr, ◌⊎◌, String, Bool, true, false, Option, none, some,
  List, [], ◌∷◌, arith, ◌==◌, any, select, update,
}
use guff_suff.Action.{Outcome, returned, Action, threw, final, continue}
use guff_suff.Environment.{Environment}
use guff_suff.Schema.{Db}
use guff_suff.Schema.Identity.{Device, OtpChallenge, RegistrationLockCredential, IdentityDb}
use guff_suff.Schema.AccountConstraints.{device_violates}
use guff_suff.Schema.Constraints.{challenge_violates}
use guff_suff.Otp.{
  OtpWorld, OtpDraws, check_cooldown, cooldown_seconds, recent_challenges, new_challenge,
  request_otp_challenge, verify_otp_challenge,
}
use guff_suff.Otp.Verify.{rows_of, after_try}
use guff_suff.Account.Registration.{challenge-Committed}
use guff_suff.Otp.Race.{Verdict, refused, compared, judge, conclude, verify-halves}
use guff_suff.Phone.{normalize_to_e164}
use guff_suff.Account.{
  RegisterParams, RegisterDraws, new_device, registration_body, register_account,
}
use guff_suff.RegistrationLock.{LockDraws, set_pin, verify_pin, disable_pin}
use guff_suff.Conversation.{ConversationDraws, get_or_create_direct_conversation}
use guff_suff.Session.{compromise, create_session, revoke_session, revoke_all_sessions_for_user}
use guff_suff.Session.Cases.{create_session_cases, rotate_cases}
use guff_suff.Device.{rename_device, revoke_device, revoke_credentials, mark_revoked}
use guff_suff.Device.Cases.{rename_device_cases, revoke_device_cases}
use guff_suff.History as History

-- Neither a device nor a challenge changes.
pub record Same (db t : IdentityDb) : Type 0 where
  pub devices : t.devices ≡ db.devices
  pub challenges : t.otp_challenges ≡ db.otp_challenges

module _ (env : Environment) where
  pub set_pin-Same :
      (user : ℕ) (pin : String) (d : LockDraws) (db : IdentityDb)
      → Same db (final (set_pin env user pin d db))
  unfolding set_pin
  set_pin-Same user pin d db = record { devices = ground arith; challenges = ground arith }

  pub verify_pin-Same :
      (user : ℕ) (pin : String) (ip : Option String) (d : LockDraws) (db : IdentityDb)
      → Same db (final (verify_pin env user pin ip d db))
  unfolding verify_pin
  verify_pin-Same user pin ip d db = record { devices = ground arith; challenges = ground arith }

  pub disable_pin-Same :
      (user : ℕ) (pin : String) (d : LockDraws) (db : IdentityDb)
      → Same db (final (disable_pin env user pin d db))
  unfolding disable_pin
  disable_pin-Same user pin d db = record { devices = ground arith; challenges = ground arith }

  -- A conversation is no device, no envelope and no delivery record.
  pub conversation_rest :
      (user recipient : ℕ) (d : ConversationDraws) (db : Db)
      → let t = final (get_or_create_direct_conversation env user recipient d db) in
        (t.identity ≡ db.identity)
        × (t.transport.message_envelopes ≡ db.transport.message_envelopes)
        × (t.transport.message_recipient_devices ≡ db.transport.message_recipient_devices)
  unfolding get_or_create_direct_conversation
  conversation_rest user recipient d db = (ground arith, ground arith, ground arith)

  -- A registration adds a device of its own, or changes nothing here.
  pub record Registering (p : RegisterParams) (d : RegisterDraws) (db t : IdentityDb) : Type 0 where
    pub devices :
        (t.devices ≡ db.devices)
        ⊎ ((t.devices ≡ new_device p d ∷ db.devices)
            × (any (λ r. r.id == d.device_id) db.devices ≡ false))
    pub challenges : t.otp_challenges ≡ db.otp_challenges

  body-device :
      (p : RegisterParams) (d : RegisterDraws) (rows : List OtpChallenge) (number : Option String)
      (db : IdentityDb) {t : IdentityDb}
      → select (λ c. c.id == p.challenge_id) db.otp_challenges ≡ rows
      → normalize_to_e164 env p.phone_number "NP" ≡ number
      → registration_body env p d db ≡ returned t tt
      → any (λ r. r.id == d.device_id) db.devices ≡ false
  unfolding registration_body device_violates
  body-device p d [] number db found parsed h = ground arith
  body-device p d (c ∷ rest) none db found parsed h = ground arith
  body-device p d (c ∷ rest) (some e164) db found parsed h = ground arith

  session-Registering :
      (p : RegisterParams) (d : RegisterDraws) (db mid : IdentityDb)
      → registration_body env p d db ≡ returned mid tt
      → Registering p d db (final (create_session env d.user_id d.device_id d.session mid))
  session-Registering p d db mid done =
      let c = challenge-Committed env p d _ _ db refl refl done in
      create_session_cases env (Registering p d db) d.user_id d.device_id d.session mid
        (record {
          devices = inr (rw c.written (refl, body-device p d _ _ db refl refl done));
          challenges = rw c.written refl;
        })
        (λ _ _ _. record {
          devices = inr (rw c.written (refl, body-device p d _ _ db refl refl done));
          challenges = rw c.written refl;
        })

  final-continue :
      {A B : Type 0} (k : A → Action IdentityDb B)
      → ((a : A) (t : IdentityDb) → final (k a t) ≡ t)
      → (o : Outcome IdentityDb A) → final (continue o k) ≡ final o
  final-continue k last (returned t a) = last a t
  final-continue k last (threw t e) = refl

  after-Registering :
      (p : RegisterParams) (d : RegisterDraws) (o : Outcome IdentityDb (Unit {0})) (db : IdentityDb)
      → registration_body env p d db ≡ o
      → Registering p d db (final (register_account env p d db))
  unfolding register_account
  after-Registering p d (returned mid tt) db body = rw body (
      subst (Registering p d db)
        (sym
          (final-continue _ (λ a t. refl) (create_session env d.user_id d.device_id d.session mid)))
        (session-Registering p d db mid body))
  after-Registering p d (threw mid e) db body =
      rw body (record { devices = inl refl; challenges = refl })

  pub register-Registering :
      (p : RegisterParams) (d : RegisterDraws) (db : IdentityDb)
      → Registering p d db (final (register_account env p d db))
  register-Registering p d db = after-Registering p d _ db refl

  -- A request of a code stores at most a challenge of its own, that is not verified.
  pub record Requested (phone : ℕ) (d : OtpDraws) (db t : IdentityDb) : Type 0 where
    pub devices : t.devices ≡ db.devices
    pub challenges :
        (t.otp_challenges ≡ db.otp_challenges)
        ⊎ ((cooldown : ℕ) × (t.otp_challenges
              ≡ new_challenge env phone cooldown d ∷ db.otp_challenges)
            × (any (λ c. c.id == d.challenge_id) db.otp_challenges ≡ false))

  requested_rows :
      (phone : ℕ) (d : OtpDraws) (w : OtpWorld) (recent : List OtpChallenge)
      → recent_challenges phone d.db_now w.identity ≡ recent
      → let t = final (request_otp_challenge env phone d w) in
        (t.identity.devices ≡ w.identity.devices)
        × ((t.identity.otp_challenges ≡ w.identity.otp_challenges)
            ⊎ ((t.identity.otp_challenges
                  ≡ new_challenge env phone (cooldown_seconds recent) d ∷ w.identity.otp_challenges)
                × (any (λ c. c.id == d.challenge_id) w.identity.otp_challenges ≡ false)))
  unfolding request_otp_challenge check_cooldown challenge_violates
  requested_rows phone d w recent found = (ground arith, ground arith)

  pub request-Requested :
      (phone : ℕ) (d : OtpDraws) (w : OtpWorld)
      → Requested phone d w.identity (final (request_otp_challenge env phone d w)).identity
  request-Requested phone d w =
      let r = requested_rows phone d w _ refl in
      record {
        devices = r.0;
        challenges = elim r.1 [ inl same ↦ inl same | inr new ↦ inr (_, new.0, new.1) ];
      }

  conclude_cases :
      (i : ℕ) (db : IdentityDb) (v : Verdict)
      → (final (conclude env i v db) ≡ db)
        ⊎ ((b : Bool) × (conclude env i v db ≡ returned (after_try env i b db) b))
  conclude_cases i db (refused e) = inl refl
  conclude_cases i db (compared b) = inr (b, refl)

  pub verify_cases :
      (i : ℕ) (code : String) (now : ℕ) (db : IdentityDb)
      → (final (verify_otp_challenge env i code now db) ≡ db)
        ⊎ ((b : Bool) × (verify_otp_challenge env i code now db
              ≡ returned (after_try env i b db) b))
  verify_cases i code now db =
      rw (verify-halves env i code now db)
        (conclude_cases i db (judge env i code now (rows_of env i db)))

  pub history-challenges :
      (db : IdentityDb) (c : History.Call)
      → (History.step env db c).otp_challenges ≡ db.otp_challenges
  unfolding History.step revoke_credentials mark_revoked compromise revoke_session
      revoke_all_sessions_for_user
  history-challenges db (History.creates user device d) =
      create_session_cases env (λ t. t.otp_challenges ≡ db.otp_challenges) user device d db refl
        (λ _ _ _. refl)
  history-challenges db (History.rotates raw d) =
      rotate_cases env (λ t. t.otp_challenges ≡ db.otp_challenges) raw d db refl (λ t f. refl)
        (λ t f _ _. refl)
  history-challenges db (History.logs_out session now) = refl
  history-challenges db (History.logs_out_all user now) = refl
  history-challenges db (History.renames user device name d) =
      rename_device_cases (λ t. t.otp_challenges ≡ db.otp_challenges) user device d db name refl
        refl
  history-challenges db (History.revokes user device reason d) =
      revoke_device_cases (λ t. t.otp_challenges ≡ db.otp_challenges) user device d db env reason
        refl (λ name. refl)
