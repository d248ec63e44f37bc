-- ===== src/Otp/Delivery.antt =====
-- From the request of a code to its verification.
use guff_suff.Prelude.{ℕ, ◌≤◌, ◌+◌, ◌≡◌, refl, true, some, ◌∷◌, arith, select}
use guff_suff.Action.{returned}
use guff_suff.Environment.{Environment}
use guff_suff.Otp.{
  OtpWorld, OtpDraws, OtpIssued, request_otp_challenge, check_cooldown, get_simulator_otp,
  verify_otp_challenge, new_challenge, cooldown_seconds, recent_challenges,
}
use guff_suff.Otp.Verify.{rows_of, after_try, verify-true_iff}

module _ (env : Environment) (phone : ℕ) (d : OtpDraws) (w : OtpWorld) {w' : OtpWorld}
    {r : OtpIssued} (done : request_otp_challenge env phone d w ≡ returned w' r) where
  issued_row :
      (r.challenge_id ≡ d.challenge_id)
      × (r.expires_at ≡ d.now + 300000)
      × (get_simulator_otp d.challenge_id w' ≡ some d.raw_otp)
      × (rows_of env d.challenge_id w'.identity
          ≡ new_challenge env phone
              (cooldown_seconds (recent_challenges phone d.db_now w.identity))
              d
            ∷ rows_of env d.challenge_id w.identity)
  unfolding request_otp_challenge check_cooldown get_simulator_otp select recent_challenges
  issued_row = ground arith

  -- When a request of a code returns, the simulator holds the code of its challenge, and right after
  -- the request that code verifies at any time up to the expiry that was returned.
  pub request-verify :
      (now : ℕ)
      → now ≤ r.expires_at
      → (get_simulator_otp r.challenge_id w' ≡ some d.raw_otp)
        × (verify_otp_challenge env r.challenge_id d.raw_otp now w'.identity
            ≡ returned (after_try env r.challenge_id true w'.identity) true)
  unfolding verify_otp_challenge
  request-verify now in_time =
      let row = issued_row in
      rw row.0 (
        row.2,
        (verify-true_iff env d.challenge_id (env.uuid_text d.challenge_id) d.raw_otp now
              w'.identity).1
            (record {
              challenge = _;
              others = _;
              found = row.3;
              new = refl;
              in_time = omega (arith, row.1);
              left = omega arith;
              right = refl;
            }),
      )
