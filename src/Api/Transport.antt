-- ===== src/Api/Transport.antt =====
-- services/api/src/transport/envelopes.controller.ts and conversations.controller.ts. Their handlers
-- pass `req.user.sub` on as the user, a field that may be missing; node-postgres sends NULL for it, and
-- no row has a column that equals NULL.
pub mod Unreached
pub mod Known
use guff_suff.Prelude.{
  ℕ, String, Bool, true, false, Option, none, some, List, [], ◌∷◌, not, ◌&&◌, leb, length, any,
  ◌==◌, select, if◌then◌else◌,
}
use guff_suff.Errors.{
  conversation_denied, recipient_not_found, constraint_violation, payload_too_large,
}
use guff_suff.Action.{Outcome, returned, threw, Action, ◌>>=◌, ◌>>◌, pure, throw, gets}
use guff_suff.Environment.{Environment}
use guff_suff.Json.{Json, Body}
use guff_suff.Schema.{Db}
use guff_suff.Schema.Identity.{User, IdentityDb}
use guff_suff.Schema.Transport.{
  DirectConversation, MessageEnvelope, RecipientDevice, MessageIdempotencyKey,
}
use guff_suff.Contracts.Transport.{
  create_direct_conversation_schema, submit_message_envelope_schema, acknowledge_read_schema,
}
use guff_suff.Envelope.{
  SubmitMessageEnvelope, SubmitDraws, SubmitResponse, payload, key_rows, check_device, known_key,
  check_payload, acknowledge_delivery_for, acknowledge_read,
}
use guff_suff.Envelope.Queries.{EnvelopeStatus, get_pending_envelopes_for, get_envelope_status_for}
use guff_suff.Conversation.{
  ConversationDraws, is_deleted, get_or_create_direct_conversation, list_conversations_for,
  get_conversation_by_id_for,
}
use guff_suff.Guard.{RequestUser, can_activate}
use guff_suff.Api.{parsed}

-- req.user.sub: the guard sets userId, deviceId and sessionId, and no such field.
unfoldable pub sub_of : RequestUser → Option ℕ
sub_of user = none

-- NULL equals no column, and `undefined` no identifier.
abbrev pub is_caller : Option ℕ → ℕ → Bool
is_caller none i = false
is_caller (some user_id) i = i == user_id

-- WHERE conversation_id AND user_id
abbrev pub belongs : Option ℕ → ℕ → Db → Bool
belongs user conversation_id db =
    any (λ m. (m.conversation_id == conversation_id) && is_caller user m.user_id)
      db.transport.conversation_members

-- `undefined < recipient` is false, so the recipient is the first participant. The second one is NULL:
-- the column is NOT NULL, so the INSERT fails and is rolled back.
existing_pair : List DirectConversation → Action Db DirectConversation
existing_pair [] db = throw constraint_violation db
existing_pair (c ∷ rest) db = pure c db

conversation_without : ℕ → List User → Action Db DirectConversation
unfolding existing_pair
conversation_without recipient_id [] db = throw recipient_not_found db
conversation_without recipient_id (u ∷ rest) db =
    if is_deleted u.account_state
    then throw recipient_not_found db
    else existing_pair
        (select
          (λ c. (c.participant1_user_id == recipient_id) && is_caller none c.participant2_user_id)
          db.transport.direct_conversations)
        db

-- The methods of the services, for a user that may be missing. The queries compare columns with the
-- user; an INSERT of a missing one fails, since the columns for it are NOT NULL.
module _ (env : Environment) where
  without_key : SubmitMessageEnvelope → List MessageIdempotencyKey → Action Db SubmitResponse
  without_key dto [] = throw constraint_violation
  without_key dto (k ∷ rest) = known_key env dto k

  submit_checked : Option ℕ → ℕ → SubmitMessageEnvelope → SubmitDraws → Action Db SubmitResponse
  unfolding without_key
  submit_checked (some user_id) device_id dto d db = check_payload env user_id device_id dto d db
  submit_checked none device_id dto d db =
      if not (belongs none dto.conversation_id db)
      then throw conversation_denied db
      else if not (leb (length (payload env dto)) 65536)
      then throw payload_too_large db
      else without_key dto (key_rows device_id dto.idempotency_key db) db

  unfoldable pub submit_as :
      Option ℕ → ℕ → SubmitMessageEnvelope → SubmitDraws → Action Db SubmitResponse
  unfolding submit_checked
  submit_as user device_id dto d = do
    senders ←
        gets
          (λ db. select (λ v. (v.id == device_id) && is_caller user v.user_id) db.identity.devices)
    check_device senders
    submit_checked user device_id dto d

  unfoldable pub acknowledge_delivery_as : Option ℕ → ℕ → ℕ → ℕ → ℕ → Action Db (Unit {0})
  acknowledge_delivery_as user = acknowledge_delivery_for env (is_caller user)

  unfoldable pub acknowledge_read_as : Option ℕ → ℕ → ℕ → ℕ → ℕ → Action Db (Unit {0})
  acknowledge_read_as (some user_id) conversation_id envelope_id state_id now db =
      acknowledge_read env user_id conversation_id envelope_id state_id now db
  acknowledge_read_as none conversation_id envelope_id state_id now db =
      if not (belongs none conversation_id db)
      then throw conversation_denied db
      else throw constraint_violation db

  unfoldable pub conversation_as : Option ℕ → ℕ → ConversationDraws → Action Db DirectConversation
  unfolding conversation_without
  conversation_as (some user_id) recipient_id d =
      get_or_create_direct_conversation env user_id recipient_id d
  conversation_as none recipient_id d =
      gets (λ db. select (λ u. u.id == recipient_id) db.identity.users)
      >>= conversation_without recipient_id

unfoldable pub pending_as : Option ℕ → ℕ → ℕ → Db → List (MessageEnvelope × RecipientDevice)
pending_as user = get_pending_envelopes_for (is_caller user)

unfoldable pub status_as : Option ℕ → ℕ → Action Db EnvelopeStatus
status_as user = get_envelope_status_for (is_caller user)

unfoldable pub conversations_as : Option ℕ → Db → List DirectConversation
conversations_as user = list_conversations_for (is_caller user)

unfoldable pub conversation_by_id_as : Option ℕ → ℕ → Action Db DirectConversation
conversation_by_id_as user = get_conversation_by_id_for (is_caller user)

-- A request, with the times and identifiers that its handler draws. The conversation in the path of a
-- submission is a text.
pub data Request : Type 0 where
  create_direct : Body → ConversationDraws → Request
  list_all : Request
  get_one : ℕ → Request
  submit : String → Body → SubmitDraws → Request
  get_pending : ℕ → Request
  acknowledge : ℕ → ℕ → ℕ → Request
  read : ℕ → Body → ℕ → ℕ → Request
  get_status : ℕ → Request

pub data Reply : Type 0 where
  conversation : DirectConversation → Reply
  conversations : List DirectConversation → Reply
  accepted : SubmitResponse → Reply
  pending : List (MessageEnvelope × RecipientDevice) → Reply
  delivered marked_read : Reply
  status : EnvelopeStatus → Reply

module _ (env : Environment) (user : RequestUser) where
  unfoldable pub create_direct_conversation :
      Body → ConversationDraws → Action Db DirectConversation
  create_direct_conversation body d =
      parsed (create_direct_conversation_schema env body)
        (λ recipient. conversation_as env (sub_of user) recipient d)

  -- {...body, conversationId}
  unfoldable pub submit_request : String → Body → SubmitDraws → Action Db SubmitResponse
  submit_request conversation_id body d =
      parsed
        (submit_message_envelope_schema env
          (("conversationId", Json.string conversation_id) ∷ body))
        (λ dto. submit_as env (sub_of user) user.device_id dto d)

  unfoldable pub acknowledge_request : ℕ → ℕ → ℕ → Action Db (Unit {0})
  acknowledge_request envelope_id ack_id now =
      acknowledge_delivery_as env (sub_of user) user.device_id envelope_id ack_id now

  -- The service takes the conversation first and the envelope second.
  unfoldable pub read_request : ℕ → Body → ℕ → ℕ → Action Db (Unit {0})
  read_request envelope_id body state_id now =
      parsed (acknowledge_read_schema env body)
        (λ last_read. acknowledge_read_as env (sub_of user) last_read envelope_id state_id now)

  unfoldable pub pending_request : ℕ → Db → List (MessageEnvelope × RecipientDevice)
  pending_request now db = pending_as (sub_of user) user.device_id now db

  unfoldable pub status_request : ℕ → Action Db EnvelopeStatus
  status_request envelope_id = status_as (sub_of user) envelope_id

  unfoldable pub conversations_request : Db → List DirectConversation
  conversations_request db = conversations_as (sub_of user) db

  unfoldable pub conversation_request : ℕ → Action Db DirectConversation
  conversation_request conversation_id = conversation_by_id_as (sub_of user) conversation_id

  unfoldable pub handle : Request → Action Db Reply
  handle (create_direct body d) = create_direct_conversation body d >>= λ c. pure (conversation c)
  handle list_all = gets (λ db. conversations (conversations_request db))
  handle (get_one i) = conversation_request i >>= λ c. pure (conversation c)
  handle (submit i body d) = submit_request i body d >>= λ r. pure (accepted r)
  handle (get_pending now) = gets (λ db. pending (pending_request now db))
  handle (acknowledge i ack now) = acknowledge_request i ack now >> pure delivered
  handle (read i body state now) = read_request i body state now >> pure marked_read
  handle (get_status i) = status_request i >>= λ s. pure (status s)

abbrev in_db : {A : Type 0} → Db → Outcome IdentityDb A → Outcome Db A
in_db w (returned db a) = returned (record w { identity = db }) a
in_db w (threw db e) = threw (record w { identity = db }) e

-- The guard, and the handler.
unfoldable pub respond : Environment → Option (List String) → ℕ → Request → Action Db Reply
respond env header now request =
    (λ w. in_db w (can_activate env header now w.identity)) >>= λ user. handle env user request
