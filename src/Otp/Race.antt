-- ===== src/Otp/Race.antt =====
-- Concurrent calls of `verifyOtpChallenge` (services/api/src/identity/otp.service.ts) on one challenge.
-- Its SELECT ... FOR UPDATE and its UPDATE are sent through the pool outside of a transaction, so the
-- row lock ends with the SELECT, and other calls may run between the two. A schedule is the order of
-- the two halves of the calls.
pub mod Bound
pub mod Sharp
use guff_suff.Prelude.{
  ℕ, zero, suc, ◌+◌, ◌≡◌, refl, String, Bool, true, false, Option, none, some, List, [], ◌∷◌, ltb,
  leb, if◌then◌else◌, select, ◌==◌, arith, length,
}
use guff_suff.Errors.{
  Error, unknown_challenge, already_verified, challenge_expired, attempts_exceeded,
}
use guff_suff.Action.{Outcome, returned, threw}
use guff_suff.Environment.{Environment}
use guff_suff.Schema.Identity.{OtpChallenge, IdentityDb}
use guff_suff.Otp.{compute_verifier_hash, timing_safe_verify, verify_otp_challenge}
use guff_suff.Otp.Verify.{rows_of, after_try}

-- What the first half of a call ends with.
pub data Verdict : Type 0 where
  refused : Error → Verdict
  compared : Bool → Verdict

module _ (env : Environment) (i : ℕ) where
  unfoldable pub judge : String → ℕ → List OtpChallenge → Verdict
  judge code now [] = refused unknown_challenge
  judge code now (c ∷ rest) =
      if c.is_verified
      then refused already_verified
      else if ltb c.expires_at now
      then refused challenge_expired
      else if leb c.max_attempts c.attempts_count
      then refused attempts_exceeded
      else compared (timing_safe_verify (compute_verifier_hash env i code) c.verifier_hash)

  -- The second half: the UPDATE, on the database as it is by then.
  abbrev pub conclude : Verdict → IdentityDb → Outcome IdentityDb Bool
  conclude (refused e) db = threw db e
  conclude (compared b) db = returned (after_try env i b db) b

  -- Without another call between its halves, a call is what the two do one after the other.
  pub verify-halves :
      (code : String) (now : ℕ) (db : IdentityDb)
      → verify_otp_challenge env i code now db ≡ conclude (judge code now (rows_of env i db)) db
  unfolding verify_otp_challenge judge
  verify-halves code now db = go (rows_of env i db) refl
    where
      go :
          (rows : List OtpChallenge)
          → rows_of env i db ≡ rows
          → verify_otp_challenge env i code now db ≡ conclude (judge code now rows) db
      go [] found = ground arith
      go (c ∷ rest) found = ground arith

-- One half of a call: the SELECT of a new one, or the UPDATE of one that is in flight.
pub data Half : Type 0 where
  begins : String → ℕ → Half
  ends : ℕ → Half

-- The comparisons in flight, with their results, and the number of those made so far.
pub record Race : Type 0 where
  pub db : IdentityDb
  pub in_flight : List Bool
  pub comparisons : ℕ

abbrev pub start : IdentityDb → Race
start db = record { db = db; in_flight = []; comparisons = 0 }

unfoldable pub nth : ℕ → List Bool → Option Bool
nth k [] = none
nth zero (b ∷ bs) = some b
nth (suc k) (b ∷ bs) = nth k bs

unfoldable pub without : ℕ → List Bool → List Bool
without k [] = []
without zero (b ∷ bs) = bs
without (suc k) (b ∷ bs) = b ∷ without k bs

module _ (env : Environment) (i : ℕ) where
  abbrev pub begun : Verdict → Race → Race
  begun (refused e) s = s
  begun (compared b) s = record s { in_flight = b ∷ s.in_flight; comparisons = suc s.comparisons }

  abbrev pub ended : Option Bool → ℕ → Race → Race
  ended none k s = s
  ended (some b) k s = record s { db = after_try env i b s.db; in_flight = without k s.in_flight }

  unfoldable pub half : Race → Half → Race
  half s (begins code now) = begun (judge env i code now (rows_of env i s.db)) s
  half s (ends k) = ended (nth k s.in_flight) k s

  unfoldable pub run : Race → List Half → Race
  run s [] = s
  run s (h ∷ hs) = run (half s h) hs

  -- At most `k` calls are in flight at any time.
  unfoldable pub IsWithin : ℕ → Race → List Half → Type 0
  IsWithin k s [] = Unit
  IsWithin k s (h ∷ hs) = (leb (length (half s h).in_flight) k ≡ true) × IsWithin k (half s h) hs
