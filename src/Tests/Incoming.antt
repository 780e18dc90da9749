-- ===== src/Tests/Incoming.antt =====
-- Messages that the provider reports.
use convomeow.Base.{◌≡◌, refl, true, false, none, some, [], ◌∷◌, ◌==◌, length, ℕ, ◌≢◌}
use convomeow.Base.{length}
use convomeow.Base.Tables.{any, find_where}
use convomeow.Core.{ok, Direction, MessageState, Kind}
use convomeow.Store.Tables.{Phase, Database}
use convomeow.Store.Attachments.{save_reply, save_attachments}
use convomeow.Store.Conversations.{refresh_conversation}
use convomeow.Store.Messages.{NewMessage, by_id, prepared, prepare_message, row_of, get_message}
use convomeow.Store.Chats.{ensure_conversation}
use convomeow.Store.Incoming.{Recorded, save_message}
use convomeow.Store.Incoming.Twice.{save_message_twice}
use convomeow.Store.Incoming.Echo.{IsCompleted, save_message_echo}
use convomeow.Tests.Sample.{database, call, outgoing}
use convomeow.Tests.Merges.{draw, stored, ok_value}

abbrev report : NewMessage
report = record (outgoing Kind.text 30) {
  direction = Direction.inbound;
  conversation_id = 0;
  chat_id = 77;
  state = MessageState.unset;
}

abbrev nothing : Recorded
nothing = record { message = stored 0 0 0; notified = false; after = database }

abbrev first : Recorded
first = ok_value nothing (save_message draw call true report database)

abbrev again : Recorded
again = ok_value nothing (save_message draw call true report first.after)

reported : save_message draw call true report database ≡ some (ok first)
unfolding save_message prepare_message prepared row_of save_reply save_attachments get_message
    refresh_conversation ensure_conversation
reported = refl

announced : first.notified ≡ true
unfolding save_message prepare_message prepared row_of save_reply save_attachments get_message
    refresh_conversation ensure_conversation
announced = refl

reported_again : save_message draw call true report first.after ≡ some (ok again)
unfolding save_message prepare_message prepared row_of save_reply save_attachments get_message
    refresh_conversation ensure_conversation
reported_again = refl

save_message_twice_example :
    (again.notified ≡ false) × (length again.after.messages ≡ length first.after.messages)
save_message_twice_example =
    save_message_twice draw draw call call true true report report database first again refl refl
      refl refl refl refl refl reported reported_again

-- A send that is under way.
abbrev sending : Database
sending = record database {
  messages = stored 12 1 100 ∷ [];
  jobs =
      record { message_id = 12; phase = Phase.sending; attempts = 0; next_attempt_at = none } ∷ [];
}

abbrev echo : NewMessage
echo = record (outgoing Kind.text 100) { state = MessageState.unset }

abbrev echoed : Recorded
echoed = ok_value nothing (save_message draw call true echo sending)

comes_back : save_message draw call true echo sending ≡ some (ok echoed)
unfolding save_message prepare_message prepared row_of save_reply save_attachments get_message
    refresh_conversation
comes_back = refl

save_message_echo_example :
    IsCompleted (stored 12 1 100) echoed.message
    × (find_where (by_id 12) echoed.after.messages ≡ some echoed.message)
    × ((i : ℕ)
        → 12 ≢ i
        → find_where (by_id i) echoed.after.messages ≡ find_where (by_id i) sending.messages)
    × (length echoed.after.messages ≡ length sending.messages)
    × (any (λ j. j.message_id == 12) echoed.after.jobs ≡ false)
    × (echoed.notified ≡ false)
save_message_echo_example =
    save_message_echo draw call true echo (stored 12 1 100) sending echoed (refl, tt) refl refl
      comes_back
