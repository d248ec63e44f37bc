-- ===== src/Otp/Race/Sharp.antt =====
-- How many codes a schedule of concurrent calls can compare.
use guff_suff.Prelude.{
  ℕ, zero, suc, ◌+◌, ◌-◌, ◌≤◌, ◌<◌, ◌≡◌, refl, subst, sym, String, true, false, List, [], ◌∷◌,
  arith, leb, length,
}
use guff_suff.Environment.{Environment}
use guff_suff.Schema.Identity.{OtpChallenge, IdentityDb}
use guff_suff.Otp.{compute_verifier_hash, timing_safe_verify, counted}
use guff_suff.Otp.Verify.{rows_of, after_try, rows_of-after_try}
use guff_suff.Otp.Race.{
  compared, judge, Half, begins, ends, Race, start, nth, without, begun, half, run, IsWithin,
}

module _ (env : Environment) (i : ℕ) (code : String) (now width : ℕ) where
  -- Calls that all begin before any ends.
  unfoldable pub flood : ℕ → List Half
  flood zero = []
  flood (suc n) = begins code now ∷ flood n

  -- Calls one after the other, and then as many at once as may be in flight.
  unfoldable pub exhaust : ℕ → List Half
  exhaust zero = flood width
  exhaust (suc n) = begins code now ∷ ends 0 ∷ exhaust n

  -- The schedule keeps to the width, and ends with so many comparisons.
  abbrev Reaches : List Half → ℕ → Race → Type 0
  Reaches hs n s = IsWithin env i width s hs × ((run env i s hs).comparisons ≡ n)

  Reaches-half :
      (h : Half) (hs : List Half) (n : ℕ) (s t : Race)
      → half env i s h ≡ t
      → leb (length t.in_flight) width ≡ true
      → Reaches hs n t
      → Reaches (h ∷ hs) n s
  unfolding run IsWithin
  Reaches-half h hs n s t to within r = (
    (
      subst (λ (v : Race). leb (length v.in_flight) width ≡ true) (sym to) within,
      subst (λ v. IsWithin env i width v hs) (sym to) r.0,
    ),
    subst (λ v. (run env i v hs).comparisons ≡ n) (sym to) r.1,
  )

  -- A challenge that a wrong code is compared with.
  record IsOpen (c : OtpChallenge) (db : IdentityDb) : Type 0 where
    pub others : List OtpChallenge
    pub found : rows_of env i db ≡ c ∷ others
    pub new : c.is_verified ≡ false
    pub early : now ≤ c.expires_at
    pub left : c.attempts_count < c.max_attempts
    pub wrong : timing_safe_verify (compute_verifier_hash env i code) c.verifier_hash ≡ false

  begins-IsOpen :
      (c : OtpChallenge) (s : Race)
      → IsOpen c s.db
      → half env i s (begins code now) ≡ begun env i (compared false) s
  unfolding half judge
  begins-IsOpen c s o = rw o.found (ground (arith, o.new, o.early, o.left, o.wrong))

  flood-Reaches :
      (k : ℕ) (c : OtpChallenge) (s : Race)
      → IsOpen c s.db
      → length s.in_flight + k ≤ width
      → Reaches (flood k) (s.comparisons + k) s
  unfolding flood run IsWithin
  flood-Reaches zero c s o fits = (tt, omega arith)
  flood-Reaches (suc k) c s o fits =
      Reaches-half (begins code now) (flood k) _ s (begun env i (compared false) s)
        (begins-IsOpen c s o) (ground arith)
        (let r = flood-Reaches k c (begun env i (compared false) s) o (omega arith) in
          (r.0, omega (arith, r.1)))

  exhaust-Reaches :
      (n k : ℕ) (c : OtpChallenge) (db : IdentityDb)
      → IsOpen c db
      → 0 < width
      → c.attempts_count + suc n ≡ c.max_attempts
      → Reaches (exhaust n) (k + n + width) (record { db = db; in_flight = []; comparisons = k })
  unfolding exhaust half nth without
  exhaust-Reaches zero k c db o some_ count =
      let r =
        flood-Reaches width c (record { db = db; in_flight = []; comparisons = k }) o
          (omega arith) in
      (r.0, omega (arith, r.1))
  exhaust-Reaches (suc n) k c db o some_ count =
      let s : Race = record { db = db; in_flight = []; comparisons = k } in
      let next : Race = record {
        db = after_try env i false db;
        in_flight = [];
        comparisons = suc k;
      } in
      let r =
        exhaust-Reaches n (suc k) (counted false c) (after_try env i false db)
          (record {
            others = _;
            found = rows_of-after_try env i false db o.found;
            new = o.new;
            early = o.early;
            left = omega (arith, count);
            wrong = o.wrong;
          })
          some_ (omega (arith, count)) in
      Reaches-half (begins code now) (ends 0 ∷ exhaust n) _ s (begun env i (compared false) s)
        (begins-IsOpen c s o) (ground arith)
        (Reaches-half (ends 0) (exhaust n) _ (begun env i (compared false) s) next refl
          (ground arith) (r.0, omega (arith, r.1)))

-- The bound of concurrent verifications is met, for every number of calls that may be in flight at a time:
-- on a challenge that is not verified, not expired and has an attempt left, and with a code that is
-- wrong, there is a schedule that keeps to that number and compares as many codes as the challenge has
-- attempts left, and one less than that number on top.
pub race-met :
    (env : Environment) (i now width : ℕ) (code : String) (db : IdentityDb) {c : OtpChallenge}
    {rest : List OtpChallenge}
    → rows_of env i db ≡ c ∷ rest
    → c.is_verified ≡ false
    → now ≤ c.expires_at
    → c.attempts_count < c.max_attempts
    → timing_safe_verify (compute_verifier_hash env i code) c.verifier_hash ≡ false
    → 0 < width
    → (hs : List Half) × IsWithin env i width (start db) hs
      × (c.attempts_count + (run env i (start db) hs).comparisons + 1 ≡ c.max_attempts + width)
race-met env i now width code db {c} {rest} found new early left wrong some_ =
    let n = c.max_attempts - suc c.attempts_count in
    let r =
      exhaust-Reaches env i code now width n 0 c db
        (record {
          others = rest;
          found = found;
          new = new;
          early = early;
          left = left;
          wrong = wrong;
        })
        some_ (omega (arith, left)) in
    (exhaust env i code now width n, r.0, omega (arith, r.1, left))
