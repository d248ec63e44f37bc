-- ===== src/Otp/Race/Bound.antt =====
-- How many codes concurrent calls compare.
use guff_suff.Prelude.{
  ℕ, zero, suc, ◌+◌, ◌≤◌, ◌<◌, ◌≡◌, refl, ◌∙◌, String, Bool, true, Option, none, some, List, [],
  ◌∷◌, arith, length, leb,
}
use guff_suff.Environment.{Environment}
use guff_suff.Schema.Identity.{OtpChallenge, IdentityDb}
use guff_suff.Otp.{counted}
use guff_suff.Otp.Verify.{rows_of, rows_of-after_try, counted-attempts}
use guff_suff.Otp.Race.{
  Verdict, refused, compared, judge, Half, begins, ends, Race, start, nth, without, begun, ended,
  half, run, IsWithin,
}

without-length :
    (k : ℕ) (bs : List Bool) {b : Bool}
    → nth k bs ≡ some b
    → suc (length (without k bs)) ≡ length bs
unfolding nth without
without-length k [] h = cc
without-length zero (b ∷ bs) h = refl
without-length (suc k) (b ∷ bs) h = omega (arith, without-length k bs h)

module _ (env : Environment) (i limit first width : ℕ) where
  -- No update is lost, and the comparisons are at most `width` - 1 beyond the limit.
  record Fits (s : Race) : Type 0 where
    pub challenge : OtpChallenge
    pub others : List OtpChallenge
    pub found : rows_of env i s.db ≡ challenge ∷ others
    pub max : challenge.max_attempts ≡ limit
    pub counts : first + s.comparisons ≡ challenge.attempts_count + length s.in_flight
    pub bound : first + s.comparisons < limit + width

  judged :
      (code : String) (now : ℕ) {rows : List OtpChallenge} {c : OtpChallenge}
      {rest : List OtpChallenge} {b : Bool}
      → rows ≡ c ∷ rest
      → judge env i code now rows ≡ compared b
      → c.attempts_count < c.max_attempts
  unfolding judge
  judged code now found h = ground arith

  begun-Fits :
      (code : String) (now : ℕ) (v : Verdict) (s : Race) (h : Fits s)
      → judge env i code now (rows_of env i s.db) ≡ v
      → leb (length (begun env i v s).in_flight) width ≡ true
      → Fits (begun env i v s)
  begun-Fits code now (refused e) s h judgement within = h
  begun-Fits code now (compared b) s h judgement within =
      let left = judged code now h.found judgement in
      record {
        challenge = h.challenge;
        others = h.others;
        found = h.found;
        max = h.max;
        counts = omega (arith, h.counts);
        bound = ground (arith, h.counts, h.max, left, within);
      }

  ended-Fits :
      (o : Option Bool) (k : ℕ) (s : Race)
      → nth k s.in_flight ≡ o
      → Fits s
      → Fits (ended env i o k s)
  ended-Fits none k s e h = h
  ended-Fits (some b) k s e h =
      let used = counted-attempts env i b h.challenge in
      record {
        challenge = counted b h.challenge;
        others = _;
        found = rows_of-after_try env i b s.db h.found;
        max = used.1 ∙ h.max;
        counts = omega (arith, h.counts, used, without-length k s.in_flight e);
        bound = h.bound;
      }

  half-Fits :
      (h : Half) (s : Race)
      → leb (length (half env i s h).in_flight) width ≡ true
      → Fits s
      → Fits (half env i s h)
  unfolding half
  half-Fits (begins code now) s within f = begun-Fits code now _ s f refl within
  half-Fits (ends k) s within f = ended-Fits _ k s refl f

  run-Fits :
      (hs : List Half) (s : Race) → IsWithin env i width s hs → Fits s → Fits (run env i s hs)
  unfolding run IsWithin
  run-Fits [] s within f = f
  run-Fits (h ∷ hs) s within f = run-Fits hs (half env i s h) within.1 (half-Fits h s within.0 f)

-- However the halves of concurrent calls on a challenge are ordered, if at most `width` of them are in
-- flight at a time, they compare at most `width` - 1 codes more than the challenge has attempts left;
-- with one at a time, no more than it has left.
pub race-le :
    (env : Environment) (i width : ℕ) (db : IdentityDb) {c : OtpChallenge}
    {rest : List OtpChallenge}
    → rows_of env i db ≡ c ∷ rest
    → c.attempts_count ≤ c.max_attempts
    → 0 < width
    → (hs : List Half) → IsWithin env i width (start db) hs
    → c.attempts_count + (run env i (start db) hs).comparisons < c.max_attempts + width
race-le env i width db {c} {rest} found fits some_ hs within =
    (run-Fits env i c.max_attempts c.attempts_count width hs (start db) within (record {
      challenge = c;
      others = rest;
      found = found;
      max = refl;
      counts = omega arith;
      bound = omega arith;
    })).bound
