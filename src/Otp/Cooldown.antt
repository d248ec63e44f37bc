-- ===== src/Otp/Cooldown.antt =====
-- `requestOtpChallenge`: the time between two codes for one phone number.
use guff_suff.Prelude.{
  ℕ, ◌+◌, ◌*◌, ◌≤◌, ◌≡◌, ◌≢◌, refl, true, List, [], ◌∷◌, arith, All, All-imp, All-select_inv,
  LeadsByKey, sort_desc-LeadsByKey, All-sort_desc_inv,
}
use guff_suff.Action.{returned}
use guff_suff.Environment.{Environment}
use guff_suff.Schema.Identity.{OtpChallenge}
use guff_suff.Otp.{
  OtpWorld, OtpDraws, OtpIssued, is_recent, recent_challenges, cooldown_seconds, check_cooldown,
  request_otp_challenge, is_deployed,
}

-- The newest row is older than the cooldown.
abbrev Waited : ℕ → List OtpChallenge → Type 0
Waited now [] = Unit
Waited now (c ∷ rest) = c.created_at + cooldown_seconds (c ∷ rest) * 1000 ≤ now

module _ (env : Environment) (phone : ℕ) (d : OtpDraws) (w : OtpWorld) where
  request-Waited :
      (rows : List OtpChallenge) {w' : OtpWorld} {r : OtpIssued}
      → recent_challenges phone d.db_now w.identity ≡ rows
      → request_otp_challenge env phone d w ≡ returned w' r
      → Waited d.now rows
  unfolding request_otp_challenge check_cooldown
  request-Waited [] found h = tt
  request-Waited (c ∷ []) found h = ground arith
  request-Waited (c ∷ c' ∷ rest) found h = ground arith

  Waited-All :
      (rows : List OtpChallenge)
      → LeadsByKey (λ c. c.created_at) rows
      → Waited d.now rows
      → All (λ c. c.created_at + 120000 ≤ d.now) rows
  Waited-All [] lead h = tt
  Waited-All (c ∷ []) lead h = (omega arith, tt)
  Waited-All (c ∷ c' ∷ rest) lead h = (
    omega arith,
    All-imp (λ x. x.created_at + 120000 ≤ d.now) {Q = λ x. x.created_at ≤ c.created_at}
        (λ x k. omega arith) (c' ∷ rest) lead,
  )

  -- A code is issued only if every challenge of the phone number in the last 24 hours is at least 120
  -- seconds old.
  pub request_otp_challenge-spaced :
      {w' : OtpWorld} {r : OtpIssued}
      → request_otp_challenge env phone d w ≡ returned w' r
      → All
          (λ c. is_recent phone d.db_now c ≡ true → c.created_at + 120000 ≤ d.now)
          w.identity.otp_challenges
  unfolding recent_challenges
  request_otp_challenge-spaced h =
      All-select_inv _ (is_recent phone d.db_now) w.identity.otp_challenges (
        All-sort_desc_inv _ _ _ (Waited-All _ (sort_desc-LeadsByKey _ _) (request-Waited _ refl h)))

  -- In staging and production no code is ever issued: every request throws, and none reaches the
  -- simulator. (The challenge that was stored before the send stays.)
  pub request_otp_challenge-deployed :
      {w' : OtpWorld} {r : OtpIssued}
      → is_deployed env ≡ true
      → request_otp_challenge env phone d w ≢ returned w' r
  unfolding request_otp_challenge
  request_otp_challenge-deployed deployed h = ground arith
