-- ===== src/Api/Transport/Known.antt =====
-- For a user that is there, the methods that Api.Transport has for one that may be missing are those of
-- the services.
use guff_suff.Prelude.{ℕ, ◌≡◌, refl, some}
use guff_suff.Environment.{Environment}
use guff_suff.Envelope.{
  SubmitMessageEnvelope, SubmitDraws, submit_envelope, check_payload, acknowledge_delivery,
  acknowledge_delivery_for, acknowledge_read,
}
use guff_suff.Envelope.Queries.{
  get_pending_envelopes, get_pending_envelopes_for, get_envelope_status, get_envelope_status_for,
}
use guff_suff.Conversation.{
  get_or_create_direct_conversation, list_conversations, list_conversations_for,
  get_conversation_by_id, get_conversation_by_id_for,
}
use guff_suff.Api.Transport.{
  submit_as, acknowledge_delivery_as, acknowledge_read_as, conversation_as, pending_as, status_as,
  conversations_as, conversation_by_id_as,
}

module _ (user : ℕ) where
  module _ (env : Environment) where
    submit_as-some :
        (device : ℕ) (dto : SubmitMessageEnvelope) (d : SubmitDraws)
        → submit_as env (some user) device dto d ≡ submit_envelope env user device dto d
    unfolding submit_as submit_envelope check_payload
    submit_as-some device dto d = refl

    acknowledge_delivery_as-some :
        acknowledge_delivery_as env (some user) ≡ acknowledge_delivery env user
    unfolding acknowledge_delivery_as acknowledge_delivery acknowledge_delivery_for
    acknowledge_delivery_as-some = refl

    acknowledge_read_as-some : acknowledge_read_as env (some user) ≡ acknowledge_read env user
    unfolding acknowledge_read_as acknowledge_read
    acknowledge_read_as-some = refl

    conversation_as-some :
        conversation_as env (some user) ≡ get_or_create_direct_conversation env user
    unfolding conversation_as
    conversation_as-some = refl

  pending_as-some : pending_as (some user) ≡ get_pending_envelopes user
  unfolding pending_as get_pending_envelopes get_pending_envelopes_for
  pending_as-some = refl

  status_as-some : status_as (some user) ≡ get_envelope_status user
  unfolding status_as get_envelope_status get_envelope_status_for
  status_as-some = refl

  conversations_as-some : conversations_as (some user) ≡ list_conversations user
  unfolding conversations_as list_conversations list_conversations_for
  conversations_as-some = refl

  conversation_by_id_as-some : conversation_by_id_as (some user) ≡ get_conversation_by_id user
  unfolding conversation_by_id_as get_conversation_by_id get_conversation_by_id_for
  conversation_by_id_as-some = refl
