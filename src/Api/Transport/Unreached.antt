-- ===== src/Api/Transport/Unreached.antt =====
-- What the routes of the transport do while no user reaches their services.
use guff_suff.Prelude.{
  ℕ, ◌≡◌, refl, ap, inl, inr, ◌⊎◌, String, Bool, false, Option, none, some, List, [], ◌∷◌, ◌&&◌,
  arith, Bool-cases, any, select, join, sort_desc, ◌==◌,
}
use guff_suff.Action.{Action, Outcome, returned, threw, final, continue, pure}
use guff_suff.Environment.{Environment}
use guff_suff.Schema.{Db}
use guff_suff.Schema.Identity.{User, Device, IdentityDb}
use guff_suff.Schema.Transport.{
  MessageEnvelope, RecipientDevice, DirectConversation, ConversationMember,
}
use guff_suff.Guard.{RequestUser, can_activate}
use guff_suff.Guard.Reads.{guard-kept}
use guff_suff.Errors.{
  Error, recipient_not_found, constraint_violation, sender_device_invalid, conversation_denied,
  ack_unauthorized, envelope_not_found, status_denied,
}
use guff_suff.Json.{Json}
use guff_suff.Conversation.{
  is_deleted, member_rows_for, list_conversations_for, get_conversation_by_id_for,
}
use guff_suff.Contracts.Transport.{
  create_direct_conversation_schema, submit_message_envelope_schema, acknowledge_read_schema,
}
use guff_suff.Envelope.{
  SubmitMessageEnvelope, SubmitDraws, check_device, recipient_rows, acknowledge_delivery_for,
}
use guff_suff.Envelope.Queries.{
  is_pending_for, pending_rows_for, get_pending_envelopes_for, get_envelope_status_for,
}
use guff_suff.Api.{parsed}
use guff_suff.Api.Transport.{
  sub_of, is_caller, submit_as, acknowledge_delivery_as, acknowledge_read_as, conversation_without,
  conversation_as, pending_as, status_as, conversations_as, conversation_by_id_as, Request, Reply,
  create_direct, list_all, get_one, submit, get_pending, acknowledge, read, get_status,
  conversations, pending, create_direct_conversation, submit_request, acknowledge_request,
  read_request, pending_request, status_request, conversations_request, conversation_request, in_db,
  handle, respond,
}

-- An outcome that leaves the database alone and has nothing to tell.
abbrev pub IsEmpty : Db → Outcome Db Reply → Type 0
IsEmpty db (returned t r) = (t ≡ db) × ((r ≡ conversations []) ⊎ (r ≡ pending []))
IsEmpty db (threw t e) = t ≡ db

-- The call throws, and the database is as it was.
abbrev Throws : {A : Type 0} → Db → Outcome Db A → Type 0
Throws db o = (e : Error) × (o ≡ threw db e)

Throws-IsEmpty :
    {A : Type 0} (db : Db) (o : Outcome Db A) (f : A → Action Db Reply)
    → Throws db o
    → IsEmpty db (continue o f)
Throws-IsEmpty db o f h = rw h.1 refl

parsed-Throws :
    {A B : Type 0} (o : Option A) (k : A → Action Db B) (db : Db)
    → ((x : A) → Throws db (k x db))
    → Throws db (parsed o k db)
parsed-Throws none k db h = (_, refl)
parsed-Throws (some x) k db h = h x

module _ {A : Type 0} (p : A → Bool) (never : (x : A) → p x ≡ false) where
  any-never : (xs : List A) → any p xs ≡ false
  unfolding any
  any-never [] = refl
  any-never (x ∷ xs) = ground (arith, never x, any-never xs)

  select-never : (xs : List A) → select p xs ≡ []
  unfolding select
  select-never [] = refl
  select-never (x ∷ xs) = ground (arith, never x, select-never xs)

join-never :
    {A B : Type 0} (on : A → B → Bool) (xs : List A) (ys : List B)
    → ((x : A) (y : B) → on x y ≡ false)
    → join on xs ys ≡ []
unfolding join
join-never on [] ys never = refl
join-never on (x ∷ xs) ys never =
    rw (select-never (on x) (never x) ys, join-never on xs ys never) refl

conversation_without-Throws :
    (recipient : ℕ) (us : List User) (db : Db) → Throws db (conversation_without recipient us db)
unfolding conversation_without
conversation_without-Throws recipient [] db = (_, refl)
conversation_without-Throws recipient (u ∷ us) db = elim (Bool-cases (is_deleted u.account_state)) [
  | inl gone ↦ (recipient_not_found, rw gone refl)
  | inr there ↦ (
    constraint_violation,
    rw
        (
          there,
          select-never
              (λ (c : DirectConversation).
                (c.participant1_user_id == recipient) && is_caller none c.participant2_user_id)
              (λ c. ground arith) db.transport.direct_conversations,
        )
        refl,
  )
]

-- What each method does without a user.
module _ (env : Environment) where
  submit_as-Throws :
      (device : ℕ) (dto : SubmitMessageEnvelope) (d : SubmitDraws) (db : Db)
      → Throws db (submit_as env none device dto d db)
  unfolding submit_as check_device
  submit_as-Throws device dto d db = (
    sender_device_invalid,
    rw
        (select-never (λ (v : Device). (v.id == device) && is_caller none v.user_id)
          (λ v. ground arith) db.identity.devices)
        refl,
  )

  acknowledged-Throws :
      (device envelope ack now : ℕ) (rows : List (RecipientDevice × MessageEnvelope)) (db : Db)
      → recipient_rows envelope device db ≡ rows
      → Throws db (acknowledge_delivery_as env none device envelope ack now db)
  unfolding acknowledge_delivery_as acknowledge_delivery_for
  acknowledged-Throws device envelope ack now [] db found = (ack_unauthorized, rw found refl)
  acknowledged-Throws device envelope ack now ((r, e) ∷ rest) db found =
      (ack_unauthorized, rw found refl)

  acknowledge_read_as-Throws :
      (conversation envelope state now : ℕ) (db : Db)
      → Throws db (acknowledge_read_as env none conversation envelope state now db)
  unfolding acknowledge_read_as
  acknowledge_read_as-Throws conversation envelope state now db = (
    conversation_denied,
    rw
        (any-never
          (λ (m : ConversationMember).
            (m.conversation_id == conversation) && is_caller none m.user_id)
          (λ m. ground arith) db.transport.conversation_members)
        refl,
  )

status_rows-Throws :
    (i : ℕ) (rows : List MessageEnvelope) (db : Db)
    → select (λ e. e.id == i) db.transport.message_envelopes ≡ rows
    → Throws db (status_as none i db)
unfolding status_as get_envelope_status_for
status_rows-Throws i [] db found = (envelope_not_found, rw found refl)
status_rows-Throws i (e ∷ rest) db found = (status_denied, rw found refl)

member_rows-nil : (db : Db) → member_rows_for (is_caller none) db ≡ []
unfolding member_rows_for
member_rows-nil db =
    join-never _ db.transport.direct_conversations db.transport.conversation_members
      (λ c m. ground arith)

conversation_by_id_as-Throws : (i : ℕ) (db : Db) → Throws db (conversation_by_id_as none i db)
unfolding conversation_by_id_as get_conversation_by_id_for select
conversation_by_id_as-Throws i db = (conversation_denied, rw (member_rows-nil db) refl)

conversations_as-nil : (db : Db) → conversations_as none db ≡ []
unfolding conversations_as list_conversations_for sort_desc
conversations_as-nil db = rw (member_rows-nil db) refl

pending_as-nil : (device now : ℕ) (db : Db) → pending_as none device now db ≡ []
unfolding pending_as get_pending_envelopes_for pending_rows_for sort_desc
pending_as-nil device now db =
    rw
      (join-never (is_pending_for (is_caller none) device now) db.transport.message_envelopes
        db.transport.message_recipient_devices (λ e r. ground arith))
      refl

module _ (env : Environment) (user : RequestUser) where
  handle-IsEmpty : (request : Request) (db : Db) → IsEmpty db (handle env user request db)
  unfolding handle sub_of create_direct_conversation submit_request acknowledge_request read_request
      pending_request status_request conversations_request conversation_request conversation_as
  handle-IsEmpty (create_direct body d) db =
      Throws-IsEmpty db _ (λ c. pure (Reply.conversation c))
        (parsed-Throws (create_direct_conversation_schema env body) _ db
          (λ i. conversation_without-Throws i _ db))
  handle-IsEmpty list_all db = (refl, inl (ap conversations (conversations_as-nil db)))
  handle-IsEmpty (get_one i) db =
      Throws-IsEmpty db _ (λ c. pure (Reply.conversation c)) (conversation_by_id_as-Throws i db)
  handle-IsEmpty (submit i body d) db =
      Throws-IsEmpty db _ (λ r. pure (Reply.accepted r))
        (parsed-Throws
          (submit_message_envelope_schema env (("conversationId", Json.string i) ∷ body)) _ db
          (λ dto. submit_as-Throws env user.device_id dto d db))
  handle-IsEmpty (get_pending now) db =
      (refl, inr (ap pending (pending_as-nil user.device_id now db)))
  handle-IsEmpty (acknowledge i ack now) db =
      Throws-IsEmpty db _ (λ _. pure Reply.delivered)
        (acknowledged-Throws env user.device_id i ack now _ db refl)
  handle-IsEmpty (read i body state now) db =
      Throws-IsEmpty db _ (λ _. pure Reply.marked_read)
        (parsed-Throws (acknowledge_read_schema env body) _ db
          (λ last. acknowledge_read_as-Throws env last i state now db))
  handle-IsEmpty (get_status i) db =
      Throws-IsEmpty db _ (λ s. pure (Reply.status s)) (status_rows-Throws i _ db refl)

-- The guard, which changes nothing, before a handler.
guarded-IsEmpty :
    (o : Outcome IdentityDb RequestUser) (k : RequestUser → Action Db Reply) (db : Db)
    → final o ≡ db.identity
    → ((user : RequestUser) → IsEmpty db (k user db))
    → IsEmpty db (continue (in_db db o) k)
guarded-IsEmpty (returned t user) k db h empty = rw h (empty user)
guarded-IsEmpty (threw t e) k db h empty = rw h refl

-- No request on the routes of conversations and envelopes changes anything, whoever sends it: none
-- stores a conversation, an envelope, an acknowledgement or a read marker, and all that is ever
-- returned are empty lists.
pub respond-IsEmpty :
    (env : Environment) (header : Option (List String)) (now : ℕ) (request : Request) (db : Db)
    → IsEmpty db (respond env header now request db)
unfolding respond
respond-IsEmpty env header now request db =
    guarded-IsEmpty (can_activate env header now db.identity) (λ user. handle env user request) db
      (guard-kept env header now db.identity) (λ user. handle-IsEmpty env user request db)
