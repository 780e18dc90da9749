-- ===== src/Store/Incoming.antt =====
-- internal/store/sqlite/messages.go: `SaveMessage` and `SaveIncomingMessage`, the messages that the
-- provider reports.
pub mod Once
pub mod Placed
pub mod Twice
pub mod Echo
use convomeow.Base.{
  ℕ, ◌+◌, Bool, true, false, ◌&&◌, ◌||◌, not, Option, none, some, [], ◌∷◌, ◌++◌, ◌==◌,
  if◌then◌else◌,
}
use convomeow.Base.Text.{is_empty}
use convomeow.Base.Tables.{find_where, any, update_where, delete_where}
use convomeow.Core.{
  Result, ok, err, invalid, conflict, not_found, Direction, MessageState, is_inbound, is_outbound,
  is_open,
}
use convomeow.Store.Tables.{Message, Database}
use convomeow.Store.Attachments.{save_reply, save_attachments, or_else}
use convomeow.Store.Conversations.{refresh_conversation}
use convomeow.Store.Messages.{
  NewMessage, Call, by_id, by_provider_id, prepare_message, row_of, next_order, get_message,
}
use convomeow.Store.Chats.{Run, ◌>>=◌, done, fail, Draw, Ensured, ensure_conversation}

-- A message with the database that it was saved in.
pub record Saved : Type 0 where
  pub message : Message
  pub after : Database

-- `account_id = ? AND provider_message_id = ? AND direction = 'outbound'`
abbrev pub is_echo : ℕ → ℕ → Message → Bool
is_echo account provider m =
    m.account_id == account && (m.provider_message_id == provider && is_outbound m.direction)

-- `CASE WHEN state IN ('queued', 'outcome_unknown') THEN 'sent' ELSE state END`
abbrev pub as_sent : MessageState → MessageState
as_sent s = if is_open s then MessageState.sent else s

-- The update of a message that was sent from here and that the provider reports.
abbrev pub echo_row : NewMessage → Message → Message
echo_row m old = record old {
  state = as_sent old.state;
  sender_id = if old.sender_id == 0 then m.sender_id else old.sender_id;
  occurred_at = if is_open old.state then m.occurred_at else old.occurred_at;
  provider_order = or_else m.provider_order old.provider_order;
}

-- `ON CONFLICT(account_id, conversation_id, provider_message_id) DO UPDATE`
abbrev pub conflict_row : NewMessage → Message → Message
conflict_row m old = record old {
  state = if is_outbound old.direction then as_sent old.state else old.state;
  sender_id = if old.sender_id == 0 then m.sender_id else old.sender_id;
  text = if is_empty old.text then m.text else old.text;
  provider_order = or_else m.provider_order old.provider_order;
}

-- The reply and the attachments of a message that is in the table.
abbrev pub with_parts : NewMessage → ℕ → Database → Result Database
with_parts m id db = elim (save_reply id m.reply db.replies) [
  | err e ↦ err e
  | ok replies ↦ elim (save_attachments id m.attachments db.attachments) [
    | err e ↦ err e
    | ok attachments ↦ ok (record db { replies = replies; attachments = attachments })
  ]
]

abbrev pub saved_with : Message → Result Database → Run Saved
saved_with saved (err e) = fail e
saved_with saved (ok db) = done (record { message = saved; after = db })

abbrev pub without_job : ℕ → Result Database → Result Database
without_job id (err e) = err e
without_job id (ok db) = ok (record db { jobs = delete_where (λ j. j.message_id == id) db.jobs })

-- The report of a message that was sent from here.
unfoldable pub save_echo : NewMessage → Message → Database → Run Saved
save_echo m old db =
    let updated = record db { messages = update_where (by_id old.id) (echo_row m) db.messages } in
    saved_with (echo_row m old) (without_job old.id (with_parts m old.id updated))

abbrev pub by_key_of : NewMessage → Message → Bool
by_key_of m = by_provider_id m.account_id m.conversation_id m.provider_message_id

-- The upsert; the primary key may be taken by another message.
unfoldable pub upsert_message : NewMessage → Database → Result Database
upsert_message m db =
    if any (by_key_of m) db.messages
    then ok (record db { messages = update_where (by_key_of m) (conflict_row m) db.messages })
    else if any (by_id m.id) db.messages
    then err conflict
    else ok (record db { messages = db.messages ++ row_of m (next_order db.messages) ∷ [] })

abbrev pub with_saved : NewMessage → Database → Option Message → Run Saved
with_saved m db none = fail not_found
with_saved m db (some saved) = saved_with saved (with_parts m saved.id db)

abbrev pub upserted : NewMessage → Result Database → Run Saved
upserted m (err e) = fail e
upserted m (ok db) = with_saved m db (find_where (by_key_of m) db.messages)

-- The insertion into the conversation that the message names.
unfoldable pub save_in_conversation : NewMessage → Database → Run Saved
unfolding upsert_message
save_in_conversation m db = upserted m (upsert_message m db)

abbrev pub in_ensured : NewMessage → Ensured → NewMessage
in_ensured m e = record m { conversation_id = e.conversation.id }

-- A message that names no conversation is put into that of its chat.
unfoldable pub save_new : Draw → NewMessage → Database → Run Saved
unfolding save_in_conversation
save_new draw m db =
    if m.conversation_id == 0
    then ensure_conversation draw m.account_id m.chat_id [] m.ingested_at db
      >>= (λ e. save_in_conversation (in_ensured m e) e.after)
    else save_in_conversation m db

abbrev pub save_outbound : Draw → NewMessage → Database → Option Message → Run Saved
save_outbound draw m db (some old) = save_echo m old db
save_outbound draw m db none = save_new draw m db

-- `saveMessageTx`
unfoldable pub save_message_tx : Draw → NewMessage → Database → Run Saved
unfolding save_echo save_new
save_message_tx draw m db =
    if is_outbound m.direction
    then save_outbound draw m db
        (find_where (is_echo m.account_id m.provider_message_id) db.messages)
    else save_new draw m db

-- What `saveMessage` did, and whether it queued notifications of browsers for the message.
pub record Recorded : Type 0 where
  pub message : Message
  pub notified : Bool
  pub after : Database

abbrev pub is_unset : Direction → Bool
is_unset Direction.unset = true
is_unset _ = false

abbrev pub refreshed : Saved → Database
refreshed s = refresh_conversation s.message.conversation_id s.after

abbrev pub read_back : ℕ → Bool → Database → Run Recorded
read_back id notified db = elim (get_message id db) [
  | err e ↦ fail e
  | ok m ↦ done (record { message = m; notified = notified; after = db })
]

-- The transaction, with `announced` for what is to be announced unless it is there already.
unfoldable pub save_and_refresh : Draw → NewMessage → Bool → Database → Run Recorded
unfolding save_message_tx
save_and_refresh draw m announced db = save_message_tx draw m db >>= λ s.
    read_back s.message.id (announced && is_inbound s.message.direction) (refreshed s)

-- Before a message is saved that is to be announced, its conversation is found.
unfoldable pub save_announced : Draw → NewMessage → Database → Run Recorded
unfolding save_and_refresh
save_announced draw m db = save_and_refresh draw m (not (any (by_key_of m) db.messages)) db

unfoldable pub place_and_save : Draw → NewMessage → Database → Run Recorded
unfolding save_announced
place_and_save draw m db =
    if m.conversation_id == 0
    then ensure_conversation draw m.account_id m.chat_id [] m.ingested_at db
      >>= (λ e. save_announced draw (in_ensured m e) e.after)
    else save_announced draw m db

abbrev pub is_partial : NewMessage → Bool
is_partial m =
    m.account_id == 0 || (m.chat_id == 0 || (m.provider_message_id == 0 || is_unset m.direction))

abbrev pub save_prepared : Draw → Bool → NewMessage → Database → Run Recorded
save_prepared draw live m db =
    if live && is_inbound m.direction
    then place_and_save draw m db
    else save_and_refresh draw m false db

-- `saveMessage`; `live` says that the message came with a generation of the session, as
-- `SaveIncomingMessage` passes one on.
unfoldable pub save_message : Draw → Call → Bool → NewMessage → Database → Run Recorded
unfolding place_and_save
save_message draw call live m db =
    if is_partial m
    then fail invalid
    else elim (prepare_message call m) [ err e ↦ fail e | ok p ↦ save_prepared draw live p db ]
