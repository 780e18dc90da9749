-- ===== src/Store/Messages.antt =====
-- internal/store/sqlite/messages.go: the messages and the idempotency keys of sends.
pub mod Idempotency
pub mod Completion
use convomeow.Base.{
  ℕ, suc, Bool, true, false, ◌&&◌, ◌||◌, not, Option, none, some, List, [], ◌∷◌, ◌++◌, ◌==◌,
  if◌then◌else◌,
}
use Prim.Native.Nat.{max}
use convomeow.Base.Text.{Text, is_empty}
use convomeow.Base.Tables.{find_where, any, update_where}
use convomeow.Core.{
  Result, ok, err, invalid, conflict, not_found, idempotency, ◌>>=◌, ◌>>◌, or_fail, fail_if,
  Direction, MessageState, Kind, is_queued, is_result,
}
use convomeow.Store.Tables.{Message, SendKey, Database}
use convomeow.Store.Attachments.{NewReply, NewAttachment, save_reply}
use convomeow.Store.Conversations.{refresh_conversation}

-- `core.Message`, as far as it is stored.
pub record NewMessage : Type 0 where
  pub id : ℕ
  pub account_id : ℕ
  pub conversation_id : ℕ
  pub chat_id : ℕ
  pub provider_message_id : ℕ
  pub direction : Direction
  pub state : MessageState
  pub sender_id : ℕ
  pub kind : Kind
  pub text : Text
  pub content : Text
  pub occurred_at : ℕ
  pub ingested_at : ℕ
  pub provider_order : Option ℕ
  pub reply : Option NewReply
  pub attachments : List NewAttachment

abbrev or_text : Kind → Kind
or_text Kind.unset = Kind.text
or_text k = k

abbrev or_default : MessageState → Direction → MessageState
or_default MessageState.unset Direction.outbound = MessageState.sent
or_default MessageState.unset _ = MessageState.received
or_default s _ = s

abbrev or_at : ℕ → ℕ → ℕ
or_at t d = if t == 0 then d else t

abbrev pub by_id : ℕ → Message → Bool
by_id id m = m.id == id

-- `UNIQUE(account_id, conversation_id, provider_message_id)`
abbrev pub by_provider_id : ℕ → ℕ → ℕ → Message → Bool
by_provider_id account conversation provider m =
    m.account_id == account
    && (m.conversation_id == conversation && m.provider_message_id == provider)

-- `actor_id = ? AND key = ?`
abbrev pub by_key : ℕ → ℕ → SendKey → Bool
by_key actor key k = k.actor_id == actor && k.key == key

-- What `json.Valid` says, the identifier that is drawn next and the time of the call.
pub record Call : Type 0 where
  pub json_valid : Text → Bool
  pub fresh : ℕ
  pub now : ℕ

-- What `prepareMessage` fills in.
unfoldable pub prepared : Call → NewMessage → NewMessage
prepared c m =
    let ingested = or_at m.ingested_at c.now in
    record m {
      id = if m.id == 0 then c.fresh else m.id;
      kind = or_text m.kind;
      ingested_at = ingested;
      occurred_at = or_at m.occurred_at ingested;
      state = or_default m.state m.direction;
    }

-- `prepareMessage`
unfoldable pub prepare_message : Call → NewMessage → Result NewMessage
prepare_message c m =
    if not (is_empty m.content) && not (c.json_valid m.content)
    then err invalid
    else ok (prepared c m)

-- The trigger `messages_local_order` copies the row number: one above the largest.
unfoldable pub next_order : List Message → ℕ
next_order [] = 1
next_order (m ∷ ms) = max (suc m.local_order) (next_order ms)

unfoldable pub row_of : NewMessage → ℕ → Message
row_of m order = record {
  id = m.id;
  account_id = m.account_id;
  conversation_id = m.conversation_id;
  chat_id = m.chat_id;
  provider_message_id = m.provider_message_id;
  direction = m.direction;
  state = m.state;
  sender_id = m.sender_id;
  kind = m.kind;
  text = m.text;
  content = m.content;
  occurred_at = m.occurred_at;
  ingested_at = m.ingested_at;
  provider_order = m.provider_order;
  local_order = order;
}

-- A plain `INSERT INTO messages`: a taken key is a constraint error.
unfoldable pub insert_message : NewMessage → Database → Result Database
unfolding row_of next_order
insert_message m db =
    if any (by_id m.id) db.messages
      || any (by_provider_id m.account_id m.conversation_id m.provider_message_id) db.messages
    then err conflict
    else ok (record db { messages = db.messages ++ row_of m (next_order db.messages) ∷ [] })

-- `SELECT … FROM messages WHERE public_id = ?`
unfoldable pub get_message : ℕ → Database → Result Message
get_message id db = or_fail (find_where (by_id id) db.messages) not_found

-- `LookupSend`: the message that the key stands for, if it stands for one.
unfoldable pub lookup_send : ℕ → ℕ → ℕ → Database → Result (Option Message)
unfolding get_message
lookup_send actor key hash db = elim (find_where (by_key actor key) db.send_keys) [
  | none ↦ ok none
  | some k ↦
      if k.request_hash == hash
      then get_message k.message_id db >>= (λ m. ok (some m))
      else err idempotency
]

-- A send that has been reserved, or that had been before: the message, whether it is new, and the
-- database.
pub record Reserved : Type 0 where
  pub message : Message
  pub created : Bool
  pub after : Database

-- The checks of `ReserveSend` and `ReserveMediaSend` on what they are given.
abbrev pub is_incomplete : NewMessage → ℕ → ℕ → ℕ → Bool
is_incomplete m actor key hash =
    m.account_id == 0
    || (m.conversation_id == 0
        || (m.chat_id == 0
            || (m.provider_message_id == 0 || (actor == 0 || (key == 0 || hash == 0)))))

abbrev pub as_queued : NewMessage → NewMessage
as_queued m = record m { direction = Direction.outbound; state = MessageState.queued }

-- The insertion of a key.
unfoldable pub insert_send_key : SendKey → Database → Result Database
insert_send_key k db =
    if any (by_key k.actor_id k.key) db.send_keys
    then err conflict
    else ok (record db { send_keys = db.send_keys ++ k ∷ [] })

-- The insertions of `ReserveSend`: the message, its reply and the key.
unfoldable pub reserve_rows : NewMessage → ℕ → ℕ → ℕ → Database → Result Database
unfolding insert_message insert_send_key
reserve_rows m actor key hash db = do
  inserted ← insert_message m db
  replies ← save_reply m.id m.reply inserted.replies
  insert_send_key (record { actor_id = actor; key = key; request_hash = hash; message_id = m.id })
      (record inserted { replies = replies })

-- The transaction of `ReserveSend`, once the key is known to be free. The message that it returns
-- has no local order yet.
unfoldable pub reserve_new : NewMessage → ℕ → ℕ → ℕ → Database → Result Reserved
reserve_new m actor key hash db = do
  keyed ← reserve_rows m actor key hash db
  ok (record {
    message = row_of m 0;
    created = true;
    after = refresh_conversation m.conversation_id keyed;
  })

-- What `ReserveSend` does by the key that it finds.
unfoldable pub reserve_by_key : Option SendKey → NewMessage → ℕ → ℕ → ℕ → Database → Result Reserved
unfolding get_message
reserve_by_key none m actor key hash db = reserve_new m actor key hash db
reserve_by_key (some k) m actor key hash db =
    if k.request_hash == hash
    then get_message k.message_id db
      >>= (λ saved. ok (record { message = saved; created = false; after = db }))
    else err idempotency

-- `ReserveSend`. A transaction that fails leaves the database as it was.
unfoldable pub reserve_send : Call → NewMessage → ℕ → ℕ → ℕ → Database → Result Reserved
unfolding reserve_by_key
reserve_send c m actor key hash db = do
  fail_if (is_incomplete m actor key hash) invalid
  p ← prepare_message c (as_queued m)
  reserve_by_key (find_where (by_key actor key) db.send_keys) p actor key hash db

-- `core.SentMessage`, as far as it is used.
pub record SentMessage : Type 0 where
  pub provider_message_id : ℕ
  pub sender_id : ℕ
  pub timestamp : ℕ

abbrev pub complete_row : MessageState → SentMessage → Message → Message
complete_row state sent m = record m {
  state = state;
  sender_id = if sent.sender_id == 0 then m.sender_id else sent.sender_id;
  occurred_at = if sent.timestamp == 0 then m.occurred_at else sent.timestamp;
}

-- `CompleteSend`
unfoldable pub complete_send :
    ℕ → MessageState → SentMessage → Database → Result (Message × Database)
unfolding get_message
complete_send id state sent db = do
  fail_if (not (is_result state)) invalid
  let updated = record db {
    messages =
        update_where (λ m. m.id == id && is_queued m.state) (complete_row state sent) db.messages;
  }
  m ← get_message id updated
  ok (m, refresh_conversation m.conversation_id updated)
