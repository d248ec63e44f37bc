-- ===== src/Otp/Verify.antt =====
-- `verifyOtpChallenge`: when a code is accepted, and how often one can be tried.
use guff_suff.Prelude.{
  ℕ, ◌+◌, ◌≤◌, ◌<◌, ◌≡◌, refl, inl, inr, ◌↔◌, String, Bool, true, false, List, [], ◌∷◌, arith, ltb,
  leb, ◌==◌, if◌then◌else◌, Bool-cases, subst, select, select-All, All, update, select-update,
}
use guff_suff.Action.{returned, threw, final}
use guff_suff.Errors.{Error, already_verified, challenge_expired, attempts_exceeded}
use guff_suff.Environment.{Environment}
use guff_suff.Schema.Identity.{OtpChallenge, IdentityDb}
use guff_suff.Otp.{
  compute_verifier_hash, timing_safe_equal, timing_safe_verify, counted, verify_otp_challenge,
  verify_otp_text, hash_of_text,
}

timing_safe_equal_sound : (xs ys : List ℕ) → timing_safe_equal xs ys ≡ true → xs ≡ ys
unfolding timing_safe_equal
timing_safe_equal_sound [] [] h = refl
timing_safe_equal_sound [] (y ∷ ys) h = cc
timing_safe_equal_sound (x ∷ xs) [] h = cc
timing_safe_equal_sound (x ∷ xs) (y ∷ ys) h = ground (arith, timing_safe_equal_sound xs ys)

timing_safe_equal_refl : (xs : List ℕ) → timing_safe_equal xs xs ≡ true
unfolding timing_safe_equal
timing_safe_equal_refl [] = refl
timing_safe_equal_refl (x ∷ xs) = ground (arith, timing_safe_equal_refl xs)

-- The constant-time comparison is equality.
pub timing_safe_verify_iff : (xs ys : List ℕ) → (timing_safe_verify xs ys ≡ true) ↔ (xs ≡ ys)
unfolding timing_safe_verify
timing_safe_verify_iff xs ys = (
  λ h. timing_safe_equal_sound xs ys (ground arith),
  λ e. rw e (ground (arith, timing_safe_equal_refl ys)),
)

module _ (env : Environment) (i : ℕ) where
  abbrev pub rows_of : IdentityDb → List OtpChallenge
  rows_of db = select (λ r. r.id == i) db.otp_challenges

  abbrev pub after_try : Bool → IdentityDb → IdentityDb
  after_try b db = record db {
    otp_challenges = update (λ r. r.id == i) (counted b) db.otp_challenges;
  }

  abbrev matches : String → OtpChallenge → Bool
  matches code c = timing_safe_verify (compute_verifier_hash env i code) c.verifier_hash

  counted-id : (b : Bool) (r : OtpChallenge) → ((counted b r).id == i) ≡ (r.id == i)
  counted-id true r = refl
  counted-id false r = refl

  pub rows_of-after_try :
      (b : Bool) (db : IdentityDb) {c : OtpChallenge} {rest : List OtpChallenge}
      → rows_of db ≡ c ∷ rest
      → rows_of (after_try b db) ≡ counted b c ∷ update (λ r. r.id == i) (counted b) rest
  unfolding update
  rows_of-after_try b db {c} {rest} found =
      rw
        (
          select-update (λ r. r.id == i) (λ r. r.id == i) (counted b) (counted-id b)
              db.otp_challenges,
          found,
        )
        (rw
          (subst (All (λ r. (r.id == i) ≡ true)) found
            (select-All (λ r. r.id == i) db.otp_challenges)).0
          refl)

  pub counted-attempts :
      (b : Bool) (r : OtpChallenge)
      → ((counted b r).attempts_count ≡ r.attempts_count + 1)
        × ((counted b r).max_attempts ≡ r.max_attempts)
  counted-attempts true r = (refl, refl)
  counted-attempts false r = (refl, refl)

  -- What one call does to the row of the challenge.
  pub data Tried (code : String) (now : ℕ) (db : IdentityDb) (c : OtpChallenge) : Type 0 where
    refused :
        (e : Error) → verify_otp_challenge env i code now db ≡ threw db e → Tried code now db c
    tested :
        c.is_verified ≡ false
        → now ≤ c.expires_at
        → c.attempts_count < c.max_attempts
        → verify_otp_challenge env i code now db
          ≡ returned (after_try (matches code c) db) (matches code c)
        → Tried code now db c

  pub verify-Tried :
      (code : String) (now : ℕ) (db : IdentityDb) {c : OtpChallenge} {rest : List OtpChallenge}
      → rows_of db ≡ c ∷ rest
      → Tried code now db c
  unfolding verify_otp_challenge
  verify-Tried code now db {c} {rest} found = elim (Bool-cases c.is_verified) [
    | inl used ↦ refused already_verified (ground arith)
    | inr new ↦ elim (Bool-cases (ltb c.expires_at now)) [
      | inl late ↦ refused challenge_expired (ground arith)
      | inr in_time ↦ elim (Bool-cases (leb c.max_attempts c.attempts_count)) [
        | inl spent ↦ refused attempts_exceeded (ground arith)
        | inr left ↦ tested new (ground arith) (ground arith) (ground arith)
      ]
    ]
  ]

  -- The calls of a sequence that were compared with the stored hash, and those that succeeded.
  pub compared : IdentityDb → List (String × ℕ) → ℕ
  compared db [] = 0
  compared db ((code, now) ∷ tries) =
      let o = verify_otp_challenge env i code now db in
      (elim o [ returned s b ↦ 1 | threw s e ↦ 0 ]) + compared (final o) tries

  pub successes : IdentityDb → List (String × ℕ) → ℕ
  successes db [] = 0
  successes db ((code, now) ∷ tries) =
      let o = verify_otp_challenge env i code now db in
      (elim o [ returned s b ↦ (if b then 1 else 0) | threw s e ↦ 0 ]) + successes (final o) tries

  -- Of any sequence of calls on a challenge, at most as many are compared with the stored hash as
  -- the challenge has attempts left.
  pub compared-le :
      (tries : List (String × ℕ)) (db : IdentityDb) {c : OtpChallenge} {rest : List OtpChallenge}
      → rows_of db ≡ c ∷ rest
      → c.attempts_count ≤ c.max_attempts
      → c.attempts_count + compared db tries ≤ c.max_attempts
  unfolding compared
  compared-le [] db found fits = omega arith
  compared-le ((code, now) ∷ tries) db {c} {rest} found fits =
      elim (verify-Tried code now db found) [
        | refused e h ↦ rw h (omega (arith, compared-le tries db found fits))
        | tested new in_time left h ↦
            let b = matches code c in
            let used = counted-attempts b c in
            rw h (
              omega (
                arith,
                used,
                compared-le tries (after_try b db) (rows_of-after_try b db found)
                    (omega (arith, used)),
              ))
      ]

  verified-successes :
      (tries : List (String × ℕ)) (db : IdentityDb) {c : OtpChallenge} {rest : List OtpChallenge}
      → rows_of db ≡ c ∷ rest
      → c.is_verified ≡ true
      → successes db tries ≡ 0
  unfolding successes
  verified-successes [] db found done = refl
  verified-successes ((code, now) ∷ tries) db {c} found done =
      elim (verify-Tried code now db found) [
        | refused e h ↦ rw h (omega (arith, verified-successes tries db found done))
        | tested new in_time left h ↦ cc
      ]

  -- Of any sequence of calls on a challenge, at most one succeeds.
  pub successes-le :
      (tries : List (String × ℕ)) (db : IdentityDb) {c : OtpChallenge} {rest : List OtpChallenge}
      → rows_of db ≡ c ∷ rest
      → successes db tries ≤ 1
  unfolding successes
  successes-le [] db found = omega arith
  successes-le ((code, now) ∷ tries) db {c} {rest} found = elim (verify-Tried code now db found) [
    | refused e h ↦ rw h (omega (arith, successes-le tries db found))
    | tested new in_time left h ↦ elim (Bool-cases (matches code c)) [
      | inl right ↦
          rw (h, right)
            (omega (
              arith,
              verified-successes tries (after_try true db) (rows_of-after_try true db found) refl,
            ))
      | inr wrong ↦
          rw (h, wrong)
            (omega
              (arith, successes-le tries (after_try false db) (rows_of-after_try false db found)))
    ]
  ]

  -- What a code has to meet: its challenge is known, not yet verified, not expired, has an attempt left
  -- and stores the hash of the code and of the identifier as it is written.
  pub record Acceptable (text code : String) (now : ℕ) (db : IdentityDb) : Type 0 where
    pub challenge : OtpChallenge
    pub others : List OtpChallenge
    pub found : rows_of db ≡ challenge ∷ others
    pub new : challenge.is_verified ≡ false
    pub in_time : now ≤ challenge.expires_at
    pub left : challenge.attempts_count < challenge.max_attempts
    pub right : hash_of_text env text code ≡ challenge.verifier_hash

  returned-Acceptable :
      (text code : String) (now : ℕ) (db : IdentityDb) {db' : IdentityDb} (rows : List OtpChallenge)
      → rows_of db ≡ rows
      → verify_otp_text env text i code now db ≡ returned db' true
      → Acceptable text code now db
  unfolding verify_otp_text
  returned-Acceptable text code now db [] found h = absurd (ground arith)
  returned-Acceptable text code now db (c ∷ rest) found h = record {
    challenge = c;
    others = rest;
    found = found;
    new = ground arith;
    in_time = ground arith;
    left = ground arith;
    right = ground (arith, (timing_safe_verify_iff (hash_of_text env text code) c.verifier_hash).0);
  }

  Acceptable-returned :
      (text code : String) (now : ℕ) (db : IdentityDb)
      → Acceptable text code now db
      → verify_otp_text env text i code now db ≡ returned (after_try true db) true
  unfolding verify_otp_text
  Acceptable-returned text code now db a = ground (
    arith,
    a.found,
    a.new,
    a.in_time,
    a.left,
    (timing_safe_verify_iff (hash_of_text env text code) a.challenge.verifier_hash).1 a.right,
  )

  -- A call returns true, in whatever state, exactly if the challenge is known, not yet verified, not
  -- expired, has an attempt left, and stores the hash of the code that is tried, taken with the
  -- identifier as the caller writes it; it then marks the challenge as verified.
  pub verify-true_iff :
      (text code : String) (now : ℕ) (db : IdentityDb)
      → ((db' : IdentityDb)
          → verify_otp_text env text i code now db ≡ returned db' true
          → Acceptable text code now db × (db' ≡ after_try true db))
        × (Acceptable text code now db
            → verify_otp_text env text i code now db ≡ returned (after_try true db) true)
  verify-true_iff text code now db = (
    λ db' h.
        let a = returned-Acceptable text code now db (rows_of db) refl h in
        (a, cc (h, Acceptable-returned text code now db a)),
    λ a. Acceptable-returned text code now db a,
  )
