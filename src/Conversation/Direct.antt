-- ===== src/Conversation/Direct.antt =====
-- What `getOrCreateDirectConversation` can and cannot do.
use guff_suff.Prelude.{ℕ, ◌≡◌, refl, false, List, [], ◌∷◌, arith, ◌==◌, select}
use guff_suff.Action.{returned, final}
use guff_suff.Environment.{Environment}
use guff_suff.Schema.{Db}
use guff_suff.Schema.Identity.{User}
use guff_suff.Schema.Transport.{DirectConversation}
use guff_suff.Conversation.{
  ConversationDraws, first_of, second_of, pair_rows, get_or_create_direct_conversation, is_deleted,
}

module _ (env : Environment) (user recipient : ℕ) (d : ConversationDraws) (db : Db) where
  existing_rows :
      (rows : List DirectConversation) {db' : Db} {c : DirectConversation}
      → pair_rows (first_of user recipient) (second_of user recipient) db ≡ rows
      → get_or_create_direct_conversation env user recipient d db ≡ returned db' c
      → (rest : List DirectConversation) × (rows ≡ c ∷ rest)
  unfolding get_or_create_direct_conversation
  existing_rows [] found h = ground arith
  existing_rows (c ∷ rest) found h = (rest, ground arith)

  -- No call changes the database, and a conversation that is returned was there already, with the two
  -- users as its participants. For a new pair the call throws and rolls back: the statement that
  -- adds the members has five parameters and is given six values.
  pub get_or_create-existing :
      (final (get_or_create_direct_conversation env user recipient d db) ≡ db)
      × ((db' : Db) (c : DirectConversation)
          → get_or_create_direct_conversation env user recipient d db ≡ returned db' c
          → (rest : List DirectConversation) × (pair_rows
                (first_of user recipient)
                (second_of user recipient)
                db
              ≡ c ∷ rest))
  unfolding get_or_create_direct_conversation
  get_or_create-existing = (ground arith, λ db' c h. existing_rows _ refl h)

  -- The two users of a conversation get the same one, whichever of them asks, as long as neither
  -- account is deleted.
  pub get_or_create-symmetric :
      {db' : Db} {c : DirectConversation} {u : User} {us : List User}
      → get_or_create_direct_conversation env user recipient d db ≡ returned db' c
      → select (λ x. x.id == user) db.identity.users ≡ u ∷ us
      → is_deleted u.account_state ≡ false
      → (d' : ConversationDraws)
      → get_or_create_direct_conversation env recipient user d' db ≡ returned db c
  unfolding get_or_create_direct_conversation
  get_or_create-symmetric {c = c} h present active d' =
      let e =
        existing_rows (pair_rows (first_of user recipient) (second_of user recipient) db) refl h in
      ground (arith, e.1)
