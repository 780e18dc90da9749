-- ===== src/Store/Conversations.antt =====
-- internal/store/sqlite/conversations.go and messages.go: the order of the messages of a thread,
-- and the last message of a conversation.
use convomeow.Base.{
  ℕ, ◌≡◌, inl, inr, Bool, true, false, Option, none, some, List, [], ◌∷◌, arith, ltb, ◌==◌,
  if◌then◌else◌, Option-cases,
}
use convomeow.Base.Tables.{select_where, update_where}
use convomeow.Store.Tables.{Message, Conversation, Database}

abbrev order_lt : Option ℕ → Option ℕ → Bool
order_lt none b = false
order_lt (some n) none = true
order_lt (some n) (some m) = ltb n m

-- `messageOrder`: (occurred_at, COALESCE(provider_order, '~'), local_order) of `a` is below that of
-- `b`. The text '~' is above all digits.
pub earlier : Message → Message → Bool
earlier a b =
    if ltb a.occurred_at b.occurred_at
    then true
    else if ltb b.occurred_at a.occurred_at
    then false
    else if order_lt a.provider_order b.provider_order
    then true
    else if order_lt b.provider_order a.provider_order
    then false
    else ltb a.local_order b.local_order

-- The first row of `ORDER BY … DESC`.
pub latest : List Message → Option Message
unfolding earlier
latest [] = none
latest (m ∷ ms) = elim (latest ms) [ none ↦ some m | some l ↦ some (if earlier m l then l else m) ]

abbrev pub touch : Message → Conversation → Conversation
touch m c = record c { updated_at = m.occurred_at; last_message_id = m.id }

-- `refreshConversationTx`
unfoldable pub refresh_conversation : ℕ → Database → Database
unfolding latest
refresh_conversation id db =
    elim (latest (select_where (λ m. m.conversation_id == id) db.messages)) [
      | none ↦ db
      | some m ↦ record db {
        conversations = update_where (λ c. c.id == id) (touch m) db.conversations;
      }
    ]

-- The refresh touches the conversations alone.
pub record SameBut (a b : Database) : Type 0 where
  pub messages : a.messages ≡ b.messages
  pub send_keys : a.send_keys ≡ b.send_keys
  pub jobs : a.jobs ≡ b.jobs
  pub attachments : a.attachments ≡ b.attachments
  pub uploads : a.uploads ≡ b.uploads
  pub replies : a.replies ≡ b.replies
  pub aliases : a.aliases ≡ b.aliases
  pub links : a.links ≡ b.links

pub refresh_conversation-SameBut :
    (id : ℕ) (db : Database) → SameBut (refresh_conversation id db) db
unfolding refresh_conversation
refresh_conversation-SameBut id db =
    elim (Option-cases (latest (select_where (λ m. m.conversation_id == id) db.messages))) [
      | inl e ↦ rw (e, refresh_conversation) (ground arith)
      | inr (m, e) ↦ rw (e, refresh_conversation) (ground arith)
    ]
