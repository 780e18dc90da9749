-- ===== src/App/Send/Recorded.antt =====
-- What the provider answers is recorded.
use convomeow.Base.{◌≡◌, Option}
use convomeow.Core.{ok}
use convomeow.Store.Tables.{Message, Database}
use convomeow.Store.Messages.{NewMessage, get_message}
use convomeow.Store.Tables.{Conversation}
use convomeow.App.Send.{get_conversation, reply_target}
use convomeow.App.Send.{Outside, Request, Outcome, Prepared, result_of, NewReply}

-- What a send that was made has recorded.
abbrev IsRecorded : Outside → NewMessage → Prepared → Outcome → Type 0
IsRecorded o m p out =
    (saved : Message) × (out.answer ≡ ok saved)
    × (get_message saved.id out.after ≡ ok saved)
    × (saved.state ≡ result_of p (o.send p m.reply m.text))

-- What a text is sent with: the conversation, the reply and the prepared message that the request
-- leads to.
pub record IsPrepared (o : Outside) (q : Request) (db : Database) (p : Prepared)
    (reply : Option NewReply) : Type 0 where
  pub conversation : Conversation
  pub found : get_conversation q.conversation_id db ≡ ok conversation
  pub replied : reply_target o conversation q.reply_id db ≡ ok reply
  pub prepared_for : o.prepare conversation.provider_chat_id ≡ ok p
