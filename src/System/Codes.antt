-- ===== src/System/Codes.antt =====
-- Where the challenges of the table come from.
use guff_suff.Prelude.{
  ℕ, ◌≡◌, refl, sym, subst, ap, ◌∙◌, inl, inr, String, Bool, true, false, List, [], ◌∷◌, arith,
  ◌==◌, ==_iff, All, All-and, All-update_from, In, Distinct, Distinct-update, Distinct-only,
  select_sound,
}
use guff_suff.Action.{final}
use guff_suff.Environment.{Environment}
use guff_suff.Schema.Identity.{OtpChallenge, IdentityDb}
use guff_suff.Otp.{
  OtpDraws, counted, compute_verifier_hash, timing_safe_verify, verify_otp_challenge,
  request_otp_challenge,
}
use guff_suff.Otp.Verify.{
  rows_of, after_try, Tried, refused, tested, verify-Tried, timing_safe_verify_iff,
}
use guff_suff.System.{World, Call, requests_code, verifies_code, codes_of}
use guff_suff.System.Frame.{request-Requested}

module _ (env : Environment) (all : List Call) where
  -- The call that the challenge comes from.
  pub record Request (c : OtpChallenge) : Type 0 where
    pub draws : OtpDraws
    pub asked : In (requests_code c.phone_blind_index draws) all
    pub id : c.id ≡ draws.challenge_id
    pub hash : c.verifier_hash ≡ compute_verifier_hash env c.id draws.raw_otp

  -- A call that gave a code with its hash.
  pub record Answer (c : OtpChallenge) : Type 0 where
    pub code : String
    pub now : ℕ
    pub given : In (verifies_code c.id code now) all
    pub right : compute_verifier_hash env c.id code ≡ c.verifier_hash

  pub record IsTraced (c : OtpChallenge) : Type 0 where
    pub request : Request c
    pub answer : c.is_verified ≡ true → Answer c

  pub record Traced (rows : List OtpChallenge) : Type 0 where
    pub distinct : Distinct (λ c c'. c.id == c'.id) rows
    pub each : All IsTraced rows

  counted-Request : (b : Bool) (c : OtpChallenge) → Request c → Request (counted b c)
  counted-Request true c r = record { draws = r.draws; asked = r.asked; id = r.id; hash = r.hash }
  counted-Request false c r = record { draws = r.draws; asked = r.asked; id = r.id; hash = r.hash }

  failed-IsTraced : (c : OtpChallenge) → IsTraced c → IsTraced (counted false c)
  failed-IsTraced c t = record {
    request = counted-Request false c t.request;
    answer = λ is.
        let a = t.answer is in
        record { code = a.code; now = a.now; given = a.given; right = a.right };
  }

  counted_ids : (b : Bool) (c : OtpChallenge) → (counted b c).id ≡ c.id
  counted_ids true c = refl
  counted_ids false c = refl

  pub request-Traced :
      (phone : ℕ) (d : OtpDraws) (w : World)
      → In (requests_code phone d) all
      → Traced w.db.identity.otp_challenges
      → Traced (final (request_otp_challenge env phone d (codes_of w))).identity.otp_challenges
  request-Traced phone d w called t = elim (request-Requested env phone d (codes_of w)).challenges [
    | inl same ↦ subst Traced (sym same) t
    | inr new ↦ subst Traced (sym new.1) (record {
      distinct = (new.2, t.distinct);
      each = (
        record {
          request = record { draws = d; asked = called; id = refl; hash = refl };
          answer = λ is. absurd (cc is);
        },
        t.each,
      );
    })
  ]

  after_try-Distinct :
      (i : ℕ) (b : Bool) (db : IdentityDb)
      → Traced db.otp_challenges
      → Distinct (λ c c'. c.id == c'.id) (after_try env i b db).otp_challenges
  after_try-Distinct i b db t =
      Distinct-update _ _ (counted b) (λ x y. rw (counted_ids b x) refl)
        (λ x y. rw (counted_ids b y) refl) db.otp_challenges t.distinct

  -- The row that a call compared with is the one that it marks.
  after_true-each :
      (i : ℕ) (code : String) (now : ℕ) (db : IdentityDb) (f : OtpChallenge)
      → In (verifies_code i code now) all
      → In f db.otp_challenges
      → (f.id == i) ≡ true
      → compute_verifier_hash env i code ≡ f.verifier_hash
      → Traced db.otp_challenges
      → All IsTraced (after_try env i true db).otp_challenges
  after_true-each i code now db f called row its right t =
      All-update_from _ _ (counted true)
        (λ c hit k.
          let same =
            k.1 (subst (λ (j : ℕ). (c.id == j) ≡ true) (sym ((==_iff f.id i).0 its)) hit) in
          record {
            request = counted-Request true c k.0.request;
            answer = λ _. record {
              code = code;
              now = now;
              given =
                  subst (λ (j : ℕ). In (verifies_code j code now) all) (sym ((==_iff c.id i).0 hit))
                    called;
              right =
                  ap (λ j. compute_verifier_hash env j code) ((==_iff c.id i).0 hit)
                  ∙ right
                  ∙ ap (λ (x : OtpChallenge). x.verifier_hash) (sym same);
            };
          })
        (λ c miss k. k.0) db.otp_challenges
        (All-and _ _ db.otp_challenges t.each (
          Distinct-only (λ c c'. c.id == c'.id) (λ x y. ground arith) db.otp_challenges f t.distinct
            row))

  after_try-each :
      (i : ℕ) (code : String) (now : ℕ) (db : IdentityDb) (f : OtpChallenge) (b : Bool)
      → b ≡ timing_safe_verify (compute_verifier_hash env i code) f.verifier_hash
      → In (verifies_code i code now) all
      → In f db.otp_challenges
      → (f.id == i) ≡ true
      → Traced db.otp_challenges
      → All IsTraced (after_try env i b db).otp_challenges
  after_try-each i code now db f true is called row its t =
      after_true-each i code now db f called row its
        ((timing_safe_verify_iff (compute_verifier_hash env i code) f.verifier_hash).0 (sym is)) t
  after_try-each i code now db f false is called row its t =
      All-update_from _ _ (counted false) (λ c hit k. failed-IsTraced c k) (λ c miss k. k)
        db.otp_challenges t.each

  Tried-Traced :
      (i : ℕ) (code : String) (now : ℕ) (db : IdentityDb) (f : OtpChallenge)
      → Tried env i code now db f
      → In (verifies_code i code now) all
      → In f db.otp_challenges
      → (f.id == i) ≡ true
      → Traced db.otp_challenges
      → Traced (final (verify_otp_challenge env i code now db)).otp_challenges
  Tried-Traced i code now db f (refused e threw_) called row its t = rw threw_ t
  Tried-Traced i code now db f (tested new early left result) called row its t = rw result (record {
    distinct = after_try-Distinct i _ db t;
    each = after_try-each i code now db f _ refl called row its t;
  })

  found-Traced :
      (i : ℕ) (code : String) (now : ℕ) (db : IdentityDb) (rows : List OtpChallenge)
      → rows_of env i db ≡ rows
      → In (verifies_code i code now) all
      → Traced db.otp_challenges
      → Traced (final (verify_otp_challenge env i code now db)).otp_challenges
  unfolding verify_otp_challenge
  found-Traced i code now db [] found called t = rw found t
  found-Traced i code now db (f ∷ rest) found called t =
      let first =
        (subst (All (λ x. In x db.otp_challenges × ((x.id == i) ≡ true))) found
          (select_sound (λ x. x.id == i) db.otp_challenges)).0 in
      Tried-Traced i code now db f (verify-Tried env i code now db found) called first.0 first.1 t

  pub verify-Traced :
      (i : ℕ) (code : String) (now : ℕ) (db : IdentityDb)
      → In (verifies_code i code now) all
      → Traced db.otp_challenges
      → Traced (final (verify_otp_challenge env i code now db)).otp_challenges
  verify-Traced i code now db = found-Traced i code now db _ refl
