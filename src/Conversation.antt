-- ===== src/Conversation.antt =====
-- services/api/src/transport/conversation.service.ts. An identifier has one
-- text, the canonical one; the texts of two UUIDs compare as their numbers do.
pub mod Direct
use guff_suff.Prelude.{
  ℕ, Bool, true, false, List, [], ◌∷◌, not, ◌&&◌, ◌||◌, ltb, ◌==◌, if◌then◌else◌, any, select, join,
  map, sort_desc,
}
use guff_suff.Errors.{
  constraint_violation, parameter_mismatch, conversation_denied, self_conversation,
  recipient_not_found,
}
use guff_suff.Action.{Action, ◌>>=◌, ◌>>◌, pure, throw, gets, insert, atomically}
use guff_suff.Environment.{Environment}
use guff_suff.Schema.{Db}
use guff_suff.Schema.Identity.{User, AccountState, deleted}
use guff_suff.Schema.Constraints.{user_exists}
use guff_suff.Schema.Transport.{DirectConversation, ConversationMember, TransportDb}
use guff_suff.Schema.TransportConstraints.{conversation_exists}

pub record ConversationDraws : Type 0 where
  pub conversation_id : ℕ
  pub member1_id : ℕ
  pub member2_id : ℕ
  pub db_now : ℕ

abbrev pub is_deleted : AccountState → Bool
is_deleted deleted = true
is_deleted _ = false

abbrev pub first_of : ℕ → ℕ → ℕ
first_of a b = if ltb a b then a else b

abbrev pub second_of : ℕ → ℕ → ℕ
second_of a b = if ltb a b then b else a

-- WHERE participant1_user_id AND participant2_user_id
abbrev pub pair_rows : ℕ → ℕ → Db → List DirectConversation
pair_rows p1 p2 db =
    select (λ c. (c.participant1_user_id == p1) && (c.participant2_user_id == p2))
      db.transport.direct_conversations

module _ (env : Environment) where
  -- PRIMARY KEY, the CHECK on the participants, the unique pair, and the references.
  unfoldable pub conversation_violates : DirectConversation → Db → Bool
  conversation_violates c db =
      (conversation_exists db.transport c.id
        || ((c.participant1_user_id == c.participant2_user_id)
            || any
                (λ r.
                  (first_of r.participant1_user_id r.participant2_user_id
                    == first_of c.participant1_user_id c.participant2_user_id)
                  && (second_of r.participant1_user_id r.participant2_user_id
                      == second_of c.participant1_user_id c.participant2_user_id))
                db.transport.direct_conversations))
      || (env.references_checked
          && (not (user_exists db.identity c.participant1_user_id)
              || not (user_exists db.identity c.participant2_user_id)))

  unfoldable pub member_violates : ConversationMember → Db → Bool
  member_violates m db =
      (any (λ r. r.id == m.id) db.transport.conversation_members
        || any (λ r. (r.conversation_id == m.conversation_id) && (r.user_id == m.user_id))
            db.transport.conversation_members)
      || (env.references_checked
          && (not (conversation_exists db.transport m.conversation_id)
              || not (user_exists db.identity m.user_id)))

  insert_conversation : DirectConversation → Action Db (Unit {0})
  insert_conversation c = insert (conversation_violates c) (λ db. record db {
    transport = record db.transport {
      direct_conversations = c ∷ db.transport.direct_conversations;
    };
  })

  insert_member : ConversationMember → Action Db (Unit {0})
  insert_member m = insert (member_violates m) (λ db. record db {
    transport = record db.transport {
      conversation_members = m ∷ db.transport.conversation_members;
    };
  })

  -- INSERT ... VALUES ($1, $2, $3), ($4, $2, $5) with the values bound to it. The server refuses to
  -- bind a list of values that has another length than the statement has parameters.
  insert_members : ℕ → List ℕ → Action Db (Unit {0})
  unfolding insert_member
  insert_members now (v1 ∷ v2 ∷ v3 ∷ v4 ∷ v5 ∷ []) = do
    insert_member (record { id = v1; conversation_id = v2; user_id = v3; joined_at = now })
    insert_member (record { id = v4; conversation_id = v2; user_id = v5; joined_at = now })
  insert_members now _ = throw parameter_mismatch

  abbrev new_conversation : ℕ → ℕ → ConversationDraws → DirectConversation
  new_conversation p1 p2 d = record {
    id = d.conversation_id;
    participant1_user_id = p1;
    participant2_user_id = p2;
    created_at = d.db_now;
    updated_at = d.db_now;
  }

  create_conversation : ℕ → ℕ → ConversationDraws → Action Db DirectConversation
  unfolding insert_conversation insert_members
  create_conversation p1 p2 d = do
    atomically (do
      insert_conversation (new_conversation p1 p2 d)
      insert_members d.db_now
          (d.member1_id ∷ d.conversation_id ∷ p1 ∷ d.member2_id ∷ d.conversation_id ∷ p2 ∷ []))
    pure (new_conversation p1 p2 d)

  existing_or_new :
      ℕ → ℕ → ConversationDraws → List DirectConversation → Action Db DirectConversation
  existing_or_new p1 p2 d [] = create_conversation p1 p2 d
  existing_or_new p1 p2 d (c ∷ rest) = pure c

  with_recipient : ℕ → ℕ → ConversationDraws → List User → Action Db DirectConversation
  unfolding create_conversation existing_or_new
  with_recipient user_id recipient_id d [] db = throw recipient_not_found db
  with_recipient user_id recipient_id d (u ∷ rest) db =
      if is_deleted u.account_state
      then throw recipient_not_found db
      else existing_or_new (first_of user_id recipient_id) (second_of user_id recipient_id) d
          (pair_rows (first_of user_id recipient_id) (second_of user_id recipient_id) db) db

  unfoldable pub get_or_create_direct_conversation :
      ℕ → ℕ → ConversationDraws → Action Db DirectConversation
  unfolding with_recipient
  get_or_create_direct_conversation user_id recipient_id d db =
      if user_id == recipient_id
      then throw self_conversation db
      else with_recipient user_id recipient_id d
          (select (λ u. u.id == recipient_id) db.identity.users) db

-- The conversations of which a user is a member; `is_user` compares an identifier with that of the
-- caller.
unfoldable pub member_rows_for : (ℕ → Bool) → Db → List (DirectConversation × ConversationMember)
member_rows_for is_user db =
    join (λ c m. (c.id == m.conversation_id) && is_user m.user_id) db.transport.direct_conversations
      db.transport.conversation_members

unfoldable pub list_conversations_for : (ℕ → Bool) → Db → List DirectConversation
list_conversations_for is_user db =
    sort_desc (λ c. c.updated_at) (map (λ p. p.0) (member_rows_for is_user db))

unfoldable pub list_conversations : ℕ → Db → List DirectConversation
unfolding list_conversations_for
list_conversations user_id = list_conversations_for (λ i. i == user_id)

first_conversation : List (DirectConversation × ConversationMember) → Action Db DirectConversation
first_conversation [] = throw conversation_denied
first_conversation ((c, m) ∷ rest) = pure c

unfoldable pub get_conversation_by_id_for : (ℕ → Bool) → ℕ → Action Db DirectConversation
unfolding first_conversation
get_conversation_by_id_for is_user conversation_id db =
    first_conversation (select (λ p. p.0.id == conversation_id) (member_rows_for is_user db)) db

unfoldable pub get_conversation_by_id : ℕ → ℕ → Action Db DirectConversation
unfolding get_conversation_by_id_for
get_conversation_by_id user_id = get_conversation_by_id_for (λ i. i == user_id)
