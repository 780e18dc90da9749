-- ===== src/App/Send.antt =====
-- internal/app/service.go, replies.go and media_send.go: how a text message is sent.
pub mod Once
pub mod Recorded
use convomeow.Core.{◌>>◌}
use convomeow.Core.{◌>>=◌}
use convomeow.Base.{
  ℕ, Bool, true, false, ◌&&◌, ◌||◌, not, Option, none, some, [], ◌∷◌, ltb, leb, ◌==◌, if◌then◌else◌,
  length, is_none,
}
use convomeow.Base.Text.{Text, is_empty}
use convomeow.Base.Tables.{find_where}
use convomeow.Core.{
  Result, ok, err, Error, invalid, not_found, not_connected, unsupported, fail_if, or_fail,
  Direction, MessageState, Kind,
}
use convomeow.Store.Tables.{Conversation, Message, Database}
use convomeow.Store.Attachments.{NewReply}
use convomeow.Store.Messages.{
  NewMessage, Call, SentMessage, Reserved, lookup_send, reserve_send, complete_send, get_message,
}
use convomeow.App.Session.{Service, runtime}
use convomeow.App.Session.Logins.{is_connected}

-- `core.PreparedMessage`
pub record Prepared : Type 0 where
  pub chat_id : ℕ
  pub provider_message_id : ℕ
  pub sender_id : ℕ

pub data Capability : Type 0 where
  text_sending media_sending replying : Capability

-- What the service gets from elsewhere: the provider's capabilities and answers, the functions on
-- texts of Go's library, and the hash of a request. A text that serves as a key is numbered.
pub record Outside : Type 0 where
  pub call : Call
  pub capable : Capability → Bool
  pub can_reply : Message → Bool
  pub prepare : ℕ → Result Prepared
  pub send : Prepared → Option NewReply → Text → SentMessage × Option Error
  pub trim_space : Text → Text
  pub first_runes : ℕ → Text → Text
  pub number : Text → ℕ
  pub hash : ℕ → Text → ℕ → ℕ

-- The arguments of `SendTextReply`; a reply of 0 is none.
pub record Request : Type 0 where
  pub conversation_id : ℕ
  pub text : Text
  pub key : Text
  pub reply_id : ℕ

abbrev pub all_printable : Text → Bool
all_printable [] = true
all_printable (c ∷ key) = leb 33 c && (leb c 126 && all_printable key)

-- `validateSendKey`
unfoldable pub validate_send_key : Text → Result (Unit {0})
validate_send_key key =
    if ltb (length key) 8 || ltb 128 (length key)
    then err invalid
    else if all_printable key
    then ok tt
    else err invalid

-- `actorID`
abbrev pub control : ℕ
control = 1

-- `GetConversation`, as far as a send reads it.
unfoldable pub get_conversation : ℕ → Database → Result Conversation
get_conversation id db = or_fail (find_where (λ c. c.id == id) db.conversations) not_found

abbrev is_confirmed : MessageState → Bool
is_confirmed MessageState.sent = true
is_confirmed MessageState.received = true
is_confirmed _ = false

-- `replyTarget`
unfoldable pub reply_target : Outside → Conversation → ℕ → Database → Result (Option NewReply)
reply_target o c id db = if id == 0 then ok none else do
  fail_if (not (o.capable Capability.replying)) unsupported
  target ← get_message id db
  fail_if
      (not (target.account_id == c.account_id)
        || (not (target.conversation_id == c.id)
            || (not (is_confirmed target.state) || target.provider_message_id == 0)))
      invalid
  fail_if (not (o.can_reply target)) unsupported
  ok (
      some (record {
        provider_message_id = target.provider_message_id;
        sender_id = target.sender_id;
        kind = target.kind;
        text = o.first_runes 512 target.text;
      }))

-- What is known before the send is reserved: that it was before, or the message to reserve.
pub data Begun : Type 0 where
  replayed : Message → Begun
  fresh : NewMessage → Prepared → Begun

abbrev text_message : Outside → Conversation → Text → Option NewReply → Prepared → NewMessage
text_message o c text reply p = record {
  id = 0;
  account_id = c.account_id;
  conversation_id = c.id;
  chat_id = p.chat_id;
  provider_message_id = p.provider_message_id;
  direction = Direction.outbound;
  state = MessageState.queued;
  sender_id = p.sender_id;
  kind = Kind.text;
  text = text;
  content = [];
  occurred_at = o.call.now;
  ingested_at = o.call.now;
  provider_order = none;
  reply = reply;
  attachments = [];
}

-- The checks of `SendTextReply` after the key is known to be free.
unfoldable pub begin_fresh : Outside → Conversation → Text → ℕ → Service → Database → Result Begun
unfolding reply_target
begin_fresh o c text reply_id s db = do
  reply ← reply_target o c reply_id db
  rt ← runtime c.account_id s
  fail_if (not (is_connected rt.state) || is_none rt.session) not_connected
  p ← o.prepare c.provider_chat_id
  ok (Begun.fresh (text_message o c text reply p) p)

abbrev pub begin_by_key :
    Option Message → Outside → Conversation → Text → ℕ → Service → Database → Result Begun
begin_by_key (some saved) o c text reply_id s db = ok (Begun.replayed saved)
begin_by_key none o c text reply_id s db = begin_fresh o c text reply_id s db

abbrev pub request_hash : Outside → Request → ℕ
request_hash o q = o.hash q.conversation_id q.text q.reply_id

-- `SendTextReply` up to the reservation.
unfoldable pub begin_text : Outside → Request → Service → Database → Result Begun
unfolding validate_send_key get_conversation begin_fresh
begin_text o q s db = do
  fail_if (not (o.capable Capability.text_sending)) unsupported
  let text = o.trim_space q.text
  fail_if (is_empty text || ltb 4096 (length text)) invalid
  validate_send_key q.key
  c ← get_conversation q.conversation_id db
  saved ← lookup_send control (o.number q.key) (request_hash o q) db
  begin_by_key saved o c text q.reply_id s db

-- What a request leaves: its answer, the database, and how often the provider was asked to send.
pub record Outcome : Type 0 where
  pub answer : Result Message
  pub after : Database
  pub sends : ℕ

abbrev pub is_invalid : Error → Bool
is_invalid Error.invalid = true
is_invalid _ = false

-- The state that a provider's answer stands for.
unfoldable pub result_of : Prepared → SentMessage × Option Error → MessageState
result_of p (sent, none) =
    if sent.provider_message_id == p.provider_message_id
    then MessageState.sent
    else MessageState.outcome_unknown
result_of p (sent, some e) =
    if is_invalid e then MessageState.failed else MessageState.outcome_unknown

abbrev pub recorded : Reserved → Result (Message × Database) → Outcome
recorded r (ok (m, after)) = record { answer = ok m; after = after; sends = 1 }
recorded r (err e) = record { answer = err e; after = r.after; sends = 1 }

-- The send of a message that was reserved, and the record of its result.
abbrev pub transmit : Outside → NewMessage → Prepared → Reserved → Outcome
transmit o m p r =
    let said = o.send p m.reply m.text in
    recorded r (complete_send r.message.id (result_of p said) said.0 r.after)

abbrev pub sent_or_replayed : Outside → NewMessage → Prepared → Database → Result Reserved → Outcome
sent_or_replayed o m p db (ok r) =
    if r.created
    then transmit o m p r
    else record { answer = ok r.message; after = r.after; sends = 0 }
sent_or_replayed o m p db (err e) = record { answer = err e; after = db; sends = 0 }

abbrev pub continue_text : Outside → Request → Database → Result Begun → Outcome
continue_text o q db (ok (Begun.fresh m p)) =
    sent_or_replayed o m p db (reserve_send o.call m control (o.number q.key) (request_hash o q) db)
continue_text o q db (ok (Begun.replayed saved)) = record {
  answer = ok saved;
  after = db;
  sends = 0;
}
continue_text o q db (err e) = record { answer = err e; after = db; sends = 0 }

-- `SendTextReply`
unfoldable pub send_text : Outside → Request → Service → Database → Outcome
unfolding begin_text result_of
send_text o q s db = continue_text o q db (begin_text o q s db)
