-- ===== src/System/Verified.antt =====
-- Accounts are registered only for codes that were given back.
use guff_suff.Prelude.{
  ℕ, ◌≡◌, sym, subst, true, List, [], ◌∷◌, arith, ◌==◌, ==_iff, String, All, In, All-In,
  All-In_elim, any, ◌&&◌, ==_refl, ◌∙◌, select_sound,
}
use guff_suff.Action.{returned}
use guff_suff.Environment.{Environment}
use guff_suff.Schema.Identity.{OtpChallenge, IdentityDb}
use guff_suff.Otp.{OtpDraws, compute_verifier_hash}
use guff_suff.Account.{RegisterParams, RegisterDraws, Registered, register_account}
use guff_suff.Account.Registration.{register-Committed, create_session-accounts}
use guff_suff.System.{
  World, Call, requests_code, verifies_code, registers, sets_pin, disables_pin, verifies_pin,
  opens_conversation, of_identity, of_transport, step, run,
}
use guff_suff.System.Frame.{
  set_pin-Same, verify_pin-Same, disable_pin-Same, conversation_rest, register-Registering,
  history-challenges,
}
use guff_suff.System.Frame.Deliveries.{mailbox-identity}
use guff_suff.System.Codes.{Traced, IsTraced, request-Traced, verify-Traced}

abbrev challenges : World → List OtpChallenge
challenges w = w.db.identity.otp_challenges

module _ (env : Environment) (all : List Call) where
  run-Traced :
      (cs : List Call) (w : World)
      → All (λ c. In c all) cs
      → Traced env all (challenges w)
      → Traced env all (challenges (run env w cs))
  unfolding run step
  run-Traced [] w known t = t
  run-Traced (requests_code phone d ∷ cs) w known t =
      run-Traced cs _ known.1 (request-Traced env all phone d w known.0 t)
  run-Traced (verifies_code i code now ∷ cs) w known t =
      run-Traced cs _ known.1 (verify-Traced env all i code now w.db.identity known.0 t)
  run-Traced (registers p d ∷ cs) w known t =
      run-Traced cs _ known.1
        (subst (Traced env all) (sym (register-Registering env p d w.db.identity).challenges) t)
  run-Traced (sets_pin user pin d ∷ cs) w known t =
      run-Traced cs _ known.1
        (subst (Traced env all) (sym (set_pin-Same env user pin d w.db.identity).challenges) t)
  run-Traced (disables_pin user pin d ∷ cs) w known t =
      run-Traced cs _ known.1
        (subst (Traced env all) (sym (disable_pin-Same env user pin d w.db.identity).challenges) t)
  run-Traced (verifies_pin user pin ip d ∷ cs) w known t =
      run-Traced cs _ known.1 (
        subst (Traced env all) (sym (verify_pin-Same env user pin ip d w.db.identity).challenges) t)
  run-Traced (opens_conversation user recipient d ∷ cs) w known t = run-Traced cs _ known.1 (
      subst (λ (s : IdentityDb). Traced env all s.otp_challenges)
        (sym (conversation_rest env user recipient d w.db).0) t)
  run-Traced (of_identity c ∷ cs) w known t =
      run-Traced cs _ known.1
        (subst (Traced env all) (sym (history-challenges env w.db.identity c)) t)
  run-Traced (of_transport c ∷ cs) w known t = run-Traced cs _ known.1 (
      subst (λ (s : IdentityDb). Traced env all s.otp_challenges)
        (sym (mailbox-identity env w.db c)) t)

-- What stands behind an account: a code was requested for its phone number, and a code with the same
-- hash was given back for the same challenge.
pub record Owned (env : Environment) (cs : List Call) (p : RegisterParams) (d : RegisterDraws)
    (db : IdentityDb) : Type 0 where
  pub phone : ℕ
  pub draws : OtpDraws
  pub asked : In (requests_code phone draws) cs
  pub challenge : p.challenge_id ≡ draws.challenge_id
  pub code : String
  pub now : ℕ
  pub given : In (verifies_code p.challenge_id code now) cs
  pub hash :
      compute_verifier_hash env p.challenge_id code
      ≡ compute_verifier_hash env p.challenge_id draws.raw_otp
  pub row :
      any (λ r. (r.phone_blind_index == phone) && (r.user_id == d.user_id)) db.phone_identities
      ≡ true

-- On a server that began without challenges, a registration that succeeds gives the new user the blind
-- index of the phone number for which one of the calls before requested the code of its challenge,
-- and another of them gave back a code with the same hash for that challenge.
pub register-Owned :
    (env : Environment) (w : World) (cs : List Call) (p : RegisterParams) (d : RegisterDraws)
    → w.db.identity.otp_challenges ≡ []
    → {db' : IdentityDb} {r : Registered}
    → register_account env p d (run env w cs).db.identity ≡ returned db' r
    → Owned env cs p d db'
unfolding any
register-Owned env w cs p d none_yet {db'} {r} done =
    let db = (run env w cs).db.identity in
    let c = register-Committed env p d db done in
    let its : In c.1.challenge db.otp_challenges × ((c.1.challenge.id == p.challenge_id) ≡ true) =
      (subst (All (λ x. In x db.otp_challenges × ((x.id == p.challenge_id) ≡ true))) c.1.found
        (select_sound (λ x. x.id == p.challenge_id) db.otp_challenges)).0 in
    let same = (==_iff c.1.challenge.id p.challenge_id).0 its.1 in
    let t =
      run-Traced env cs cs w (All-In cs cs (λ x i. i))
        (rw none_yet (record { distinct = tt; each = tt })) in
    let traced = All-In_elim (IsTraced env cs) db.otp_challenges t.each its.0 in
    let a = traced.answer c.1.verified in
    let kept = create_session-accounts env d.user_id d.device_id d.session c.0 c.2 in
    record {
      phone = c.1.challenge.phone_blind_index;
      draws = traced.request.draws;
      asked = traced.request.asked;
      challenge = sym same ∙ traced.request.id;
      code = a.code;
      now = a.now;
      given = subst (λ (i : ℕ). In (verifies_code i a.code a.now) cs) same a.given;
      hash =
          subst
            (λ (i : ℕ).
              compute_verifier_hash env i a.code
              ≡ compute_verifier_hash env i traced.request.draws.raw_otp)
            same (a.right ∙ traced.request.hash);
      row =
          rw (kept.0, c.1.written)
            (ground (arith, ==_refl c.1.challenge.phone_blind_index, ==_refl d.user_id));
    }
