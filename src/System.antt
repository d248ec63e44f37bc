-- ===== src/System.antt =====
-- The whole server: a call of any of the services, or of a job of the worker. The session, device,
-- account, code and lock services work on the identity tables, which the conversation and envelope
-- services read.
pub mod Frame
pub mod Codes
pub mod Cutoff
pub mod Verified
pub mod Delivery
use guff_suff.Prelude.{ℕ, String, Option, List, [], ◌∷◌}
use guff_suff.Action.{final}
use guff_suff.Environment.{Environment}
use guff_suff.Schema.{Db}
use guff_suff.Schema.Identity.{IdentityDb}
use guff_suff.Otp.{
  SimulatorOtpRecord, OtpWorld, OtpDraws, request_otp_challenge, verify_otp_challenge,
}
use guff_suff.Account.{RegisterParams, RegisterDraws, register_account}
use guff_suff.RegistrationLock.{LockDraws, set_pin, verify_pin, disable_pin}
use guff_suff.Conversation.{ConversationDraws, get_or_create_direct_conversation}
use guff_suff.History
use guff_suff.Mailbox

-- The database, and the store of the simulator of codes.
pub record World : Type 0 where
  pub db : Db
  pub simulator : List SimulatorOtpRecord

pub data Call : Type 0 where
  requests_code : ℕ → OtpDraws → Call
  verifies_code : ℕ → String → ℕ → Call
  registers : RegisterParams → RegisterDraws → Call
  sets_pin disables_pin : ℕ → String → LockDraws → Call
  verifies_pin : ℕ → String → Option String → LockDraws → Call
  opens_conversation : ℕ → ℕ → ConversationDraws → Call
  of_identity : History.Call → Call
  of_transport : Mailbox.Call → Call

abbrev pub with_identity : World → IdentityDb → World
with_identity w db = record w { db = record w.db { identity = db } }

abbrev pub codes_of : World → OtpWorld
codes_of w = record { identity = w.db.identity; simulator = w.simulator }

abbrev pub with_codes : World → OtpWorld → World
with_codes w v = record { db = record w.db { identity = v.identity }; simulator = v.simulator }

unfoldable pub step : Environment → World → Call → World
step env w (requests_code phone d) =
    with_codes w (final (request_otp_challenge env phone d (codes_of w)))
step env w (verifies_code i code now) =
    with_identity w (final (verify_otp_challenge env i code now w.db.identity))
step env w (registers p d) = with_identity w (final (register_account env p d w.db.identity))
step env w (sets_pin user pin d) = with_identity w (final (set_pin env user pin d w.db.identity))
step env w (disables_pin user pin d) =
    with_identity w (final (disable_pin env user pin d w.db.identity))
step env w (verifies_pin user pin ip d) =
    with_identity w (final (verify_pin env user pin ip d w.db.identity))
step env w (opens_conversation user recipient d) = record w {
  db = final (get_or_create_direct_conversation env user recipient d w.db);
}
step env w (of_identity c) = with_identity w (History.step env w.db.identity c)
step env w (of_transport c) = record w { db = Mailbox.step env w.db c }

unfoldable pub run : Environment → World → List Call → World
unfolding step
run env w [] = w
run env w (c ∷ cs) = run env (step env w c) cs
