-- ===== src/Samples/Messages.antt =====
-- Conversations, envelopes and their delivery.
use guff_suff.Prelude.{ℕ, ◌≡◌, refl, true, some, none, List, [], ◌∷◌, any, select}
use guff_suff.Errors.{idempotency_conflict}
use guff_suff.Action.{returned, threw, final}
use guff_suff.Environment.{Environment}
use guff_suff.Schema.{Db}
use guff_suff.Schema.Transport.{DirectConversation, ConversationMember, RecipientDevice}
use guff_suff.Schema.TransportConstraints.{
  envelope_violates, idempotency_key_violates, recipient_violates,
}
use guff_suff.Envelope.{
  SubmitMessageEnvelope, SubmitDraws, submit_envelope, check_device, insert_rows, insert_recipients,
  acknowledge_delivery, new_envelope, new_recipient, envelope_view,
}
use guff_suff.Envelope.Submit.{records, submitted}
use guff_suff.Envelope.Idempotency.{submit-retry, submit-conflict}
use guff_suff.Conversation.{
  ConversationDraws, get_or_create_direct_conversation, first_of, second_of, pair_rows,
}
use guff_suff.Conversation.Direct.{get_or_create-existing}
use guff_suff.Samples.{env_with, claims_for, full_db}

abbrev pub env : Environment
env = env_with true (claims_for 100 1 10)

abbrev conversation : DirectConversation
conversation = record {
  id = 700;
  participant1_user_id = 1;
  participant2_user_id = 2;
  created_at = 0;
  updated_at = 0;
}

abbrev member : ℕ → ℕ → ConversationMember
member i user = record { id = i; conversation_id = 700; user_id = user; joined_at = 0 }

abbrev pub db : Db
db = full_db (record {
  direct_conversations = conversation ∷ [];
  conversation_members = member 710 1 ∷ member 711 2 ∷ [];
  message_envelopes = [];
  message_recipient_devices = [];
  message_acknowledgements = [];
  message_read_states = [];
  message_idempotency_keys = [];
})

abbrev pub message : SubmitMessageEnvelope
message = record {
  idempotency_key = "key";
  conversation_id = 700;
  recipient_user_id = 2;
  protocol_version = 1;
  opaque_payload_base64 = "aGVsbG8=";
  client_created_at = 900;
  expires_at = 90000;
}

-- The stand-in for the digest tells two payloads apart by their number of bytes, so it is exchanged.
abbrev env_by_sum : Environment
env_by_sum = record env { sha256_bytes = λ bytes. elim bytes [ [] ↦ 0 | b ∷ rest ↦ b ] }

abbrev pub submission_at : ℕ → SubmitDraws
submission_at now = record {
  envelope_id = 800;
  idempotency_record_id = 810;
  recipient_record_id = λ k. 820;
  db_now = now;
}

submit-retry_example :
    submit_envelope env 1 10 message
      (submission_at 2000)
      (submitted env 1 10 message (submission_at 1000) db)
    ≡ returned (submitted env 1 10 message (submission_at 1000) db) (record {
      envelope = some (envelope_view (new_envelope env 1 10 message (submission_at 1000)));
      recipient_device_count = none;
      idempotent_retry = true;
    })
unfolding submit_envelope check_device insert_rows insert_recipients select any envelope_violates
    idempotency_key_violates recipient_violates records
submit-retry_example =
    submit-retry env 1 10 message (submission_at 1000) db refl refl (submission_at 2000)

submit-conflict_example :
    submit_envelope env_by_sum 1 10
      (record message { opaque_payload_base64 = "aGVsbG8hIQ==" })
      (submission_at 2000)
      (submitted env_by_sum 1 10 message (submission_at 1000) db)
    ≡ threw (submitted env_by_sum 1 10 message (submission_at 1000) db) idempotency_conflict
unfolding submit_envelope check_device insert_rows insert_recipients select any envelope_violates
    idempotency_key_violates recipient_violates records
submit-conflict_example =
    submit-conflict env_by_sum 1 10 message (submission_at 1000) db refl refl
      (record message { opaque_payload_base64 = "aGVsbG8hIQ==" }) (submission_at 2000) refl refl
      refl (λ e. cc)

abbrev recipient : RecipientDevice
recipient = new_recipient 820 800 20 1000

abbrev pub sent : Db
sent = submitted env 1 10 message (submission_at 1000) db

abbrev acknowledged : Db
acknowledged = final (acknowledge_delivery env 2 20 800 830 6000 sent)

abbrev creation : ConversationDraws
creation = record { conversation_id = 701; member1_id = 712; member2_id = 713; db_now = 100 }

get_or_create-existing_example :
    (final (get_or_create_direct_conversation env 2 1 creation db) ≡ db)
    × ((db' : Db) (c : DirectConversation)
        → get_or_create_direct_conversation env 2 1 creation db ≡ returned db' c
        → (rest : List DirectConversation) × (pair_rows (first_of 2 1) (second_of 2 1) db
            ≡ c ∷ rest))
get_or_create-existing_example = get_or_create-existing env 2 1 creation db
