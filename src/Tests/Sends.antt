-- ===== src/Tests/Sends.antt =====
-- The sends of text messages.
use convomeow.Base.{◌+◌, ◌*◌, ◌≡◌, refl, true, none, some, [], ◌∷◌, length}
use convomeow.Core.{◌>>=◌, ok, err, idempotency, Kind, MessageState}
use convomeow.Store.Tables.{Message, Database}
use convomeow.Store.Messages.{
  Reserved, get_message, reserve_send, reserve_by_key, reserve_new, reserve_rows, insert_message,
  insert_send_key, complete_send, lookup_send, prepare_message, prepared, row_of, next_order,
}
use convomeow.Store.Messages.Idempotency.{
  reserved_row, reserve_send_replay, lookup_send-reserve_send,
}
use convomeow.Store.Messages.Completion.{completed, get_message-complete_send, complete_send_twice}
use convomeow.Store.Attachments.{save_reply}
use convomeow.Store.Conversations.{refresh_conversation}
use convomeow.App.Send.{
  Outside, Request, send_text, result_of, begin_text, begin_fresh, reply_target, validate_send_key,
  get_conversation,
}
use convomeow.App.Send.Once.{send_text_once}
use convomeow.Tests.Sample.{is_ok, ok_of, call, database, outgoing, sent, service}

-- A provider that can do everything and sends what it is given.
abbrev outside : Outside
outside = record {
  call = call;
  capable = λ c. true;
  can_reply = λ m. true;
  prepare = λ chat. ok (record { chat_id = chat; provider_message_id = 20; sender_id = 4 });
  send = λ p reply text. (sent, none);
  trim_space = λ s. s;
  first_runes = λ n s. s;
  number = length;
  hash = λ c s r. 100 * c + length s;
}

abbrev request : Request
request = record {
  conversation_id = 1;
  text = 104 ∷ 105 ∷ [];
  key = 65 ∷ 65 ∷ 65 ∷ 65 ∷ 65 ∷ 65 ∷ 65 ∷ 65 ∷ [];
  reply_id = 0;
}

request_sends : (send_text outside request service database).sends ≡ 1
unfolding send_text begin_text begin_fresh reply_target validate_send_key get_conversation result_of
    lookup_send complete_send reserve_send reserve_by_key reserve_new reserve_rows prepare_message
    prepared insert_message insert_send_key get_message row_of next_order save_reply
    refresh_conversation
request_sends = refl

send_text_once_example :
    ((send_text outside request service (send_text outside request service database).after).sends
      ≡ 0)
    × ((send_text outside request service (send_text outside request service database).after).after
        ≡ (send_text outside request service database).after)
send_text_once_example =
    send_text_once outside outside request request service service database request_sends refl

reserved_ok : is_ok (reserve_send call (outgoing Kind.text 20) 1 2 3 database) ≡ true
unfolding reserve_send reserve_by_key reserve_new reserve_rows prepare_message prepared
    insert_message insert_send_key get_message row_of next_order save_reply refresh_conversation
reserved_ok = refl

abbrev reserved : (r : Reserved) × (reserve_send call (outgoing Kind.text 20) 1 2 3 database ≡ ok r)
reserved = ok_of (reserve_send call (outgoing Kind.text 20) 1 2 3 database) reserved_ok

reserved_created : reserved.0.created ≡ true
unfolding reserve_send reserve_by_key reserve_new reserve_rows prepare_message prepared
    insert_message insert_send_key get_message row_of next_order save_reply refresh_conversation
reserved_created = refl

reserve_send_replay_example :
    reserve_send call (outgoing Kind.text 21) 1 2 4 reserved.0.after ≡ err idempotency
reserve_send_replay_example =
    reserve_send_replay call call (outgoing Kind.text 20) (outgoing Kind.text 21) 1 2 3 4 database
      reserved.0 reserved.1 reserved_created (refl, refl)

lookup_send-reserve_send_example :
    lookup_send 1 2 3 reserved.0.after
    ≡ ok (some (reserved_row call (outgoing Kind.text 20) database))
lookup_send-reserve_send_example =
    lookup_send-reserve_send call (outgoing Kind.text 20) 1 2 3 3 database reserved.0 reserved.1
      reserved_created

completed_ok : is_ok (complete_send 7 MessageState.sent sent reserved.0.after) ≡ true
unfolding complete_send reserve_send reserve_by_key reserve_new reserve_rows prepare_message
    prepared insert_message insert_send_key get_message row_of next_order save_reply
    refresh_conversation
completed_ok = refl

abbrev completion :
    (r : Message × Database) × (complete_send 7 MessageState.sent sent reserved.0.after ≡ ok r)
completion = ok_of (complete_send 7 MessageState.sent sent reserved.0.after) completed_ok

get_message-complete_send_example :
    get_message 7 completion.0.1
    ≡ (get_message 7 reserved.0.after >>= λ old. ok (completed 7 MessageState.sent sent old))
get_message-complete_send_example =
    get_message-complete_send 7 7 MessageState.sent sent reserved.0.after completion.0.1
      completion.0.0 completion.1

complete_send_twice_example :
    (last : Database) × (complete_send 7 MessageState.failed sent completion.0.1
      ≡ ok (completion.0.0, last))
    × (last.messages ≡ completion.0.1.messages)
complete_send_twice_example =
    complete_send_twice 7 MessageState.sent MessageState.failed sent sent reserved.0.after
      completion.0.1 completion.0.0 completion.1 refl
