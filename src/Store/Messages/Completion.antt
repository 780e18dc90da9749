-- ===== src/Store/Messages/Completion.antt =====
-- A queued message is completed once, and stays as it was completed.
use convomeow.Base.{
  ℕ, ◌≡◌, refl, sym, ap, ◌∙◌, true, ◌&&◌, not, none, some, List, [], ◌∷◌, arith, ◌==◌,
  if◌then◌else◌,
}
use convomeow.Base.Tables.{find_where, update_where, find_where-update_where}
use convomeow.Core.{
  ok, invalid, not_found, MessageState, is_result, is_queued, >>=-eq-ok, fail_if, or_fail, ◌>>=◌,
}
use convomeow.Store.Tables.{Message, Database}
use convomeow.Store.Conversations.{refresh_conversation, refresh_conversation-SameBut}
use convomeow.Store.Messages.{SentMessage, by_id, complete_row, complete_send, get_message}

-- What the completion of `id` makes of a message.
abbrev pub completed : ℕ → MessageState → SentMessage → Message → Message
completed id state sent m = if m.id == id && is_queued m.state then complete_row state sent m else m

abbrev pub complete_rows : ℕ → MessageState → SentMessage → Database → Database
complete_rows id state sent db = record db {
  messages =
      update_where (λ m. m.id == id && is_queued m.state) (complete_row state sent) db.messages;
}

pub complete_send-rows :
    (id : ℕ) (state : MessageState) (sent : SentMessage) (db after : Database) (m : Message)
    → complete_send id state sent db ≡ ok (m, after)
    → (is_result state ≡ true)
      × (get_message id (complete_rows id state sent db) ≡ ok m)
      × (after ≡ refresh_conversation m.conversation_id (complete_rows id state sent db))
unfolding complete_send
complete_send-rows id state sent db after m e =
    let (u, f, g) = >>=-eq-ok (fail_if (not (is_result state)) invalid) _ e in
    let (n, found, h) = >>=-eq-ok (get_message id (complete_rows id state sent db)) _ g in
    (ground arith, ground arith, ground arith)

find-complete_rows :
    (i id : ℕ) (state : MessageState) (sent : SentMessage) (rows : List Message)
    → find_where
        (by_id i)
        (update_where (λ m. m.id == id && is_queued m.state) (complete_row state sent) rows)
      ≡ elim (find_where (by_id i) rows) [ none ↦ none | some m ↦ some (completed id state sent m) ]
find-complete_rows i id state sent rows =
    find_where-update_where (λ m. m.id == id && is_queued m.state) (by_id i)
      (complete_row state sent) rows (λ m h. refl)

-- A completion that succeeds changes the message that it names, if that is still queued, and no
-- other message.
pub get_message-complete_send :
    (i id : ℕ) (state : MessageState) (sent : SentMessage) (db after : Database) (m : Message)
    → complete_send id state sent db ≡ ok (m, after)
    → get_message i after ≡ (get_message i db >>= λ old. ok (completed id state sent old))
unfolding get_message
get_message-complete_send i id state sent db after m e =
    let (r, f, g) = complete_send-rows id state sent db after m e in
    let s = refresh_conversation-SameBut m.conversation_id (complete_rows id state sent db) in
    ap (λ (d : Database). or_fail (find_where (by_id i) d.messages) not_found) g
    ∙ (ap (λ rows. or_fail (find_where (by_id i) rows) not_found) s.messages
        ∙ ground (arith, find-complete_rows i id state sent db.messages))

-- No row is left that a second completion would change.
complete_rows_twice :
    (id : ℕ) (s t : MessageState) (x y : SentMessage) (rows : List Message)
    → is_result s ≡ true
    → update_where
        (λ m. m.id == id && is_queued m.state)
        (complete_row t y)
        (update_where (λ m. m.id == id && is_queued m.state) (complete_row s x) rows)
      ≡ update_where (λ m. m.id == id && is_queued m.state) (complete_row s x) rows
complete_rows_twice id s t x y [] h = refl
complete_rows_twice id s t x y (m ∷ rows) h = ground (arith, complete_rows_twice id s t x y rows h)

-- The first completion of a message decides: a later one with any of the three results succeeds,
-- returns the message as the first one left it, and changes no message.
pub complete_send_twice :
    (id : ℕ) (s t : MessageState) (x y : SentMessage) (db after : Database) (m : Message)
    → complete_send id s x db ≡ ok (m, after)
    → is_result t ≡ true
    → (last : Database) × (complete_send id t y after ≡ ok (m, last))
      × (last.messages ≡ after.messages)
unfolding complete_send
complete_send_twice id s t x y db after m e h =
    let (r, f, g) = complete_send-rows id s x db after m e in
    let v = refresh_conversation-SameBut m.conversation_id (complete_rows id s x db) in
    let same : after.messages ≡ (complete_rows id s x db).messages =
      ap (λ (d : Database). d.messages) g ∙ v.messages in
    let kept : (complete_rows id t y after).messages ≡ after.messages =
      ap (update_where (λ m. m.id == id && is_queued m.state) (complete_row t y)) same
      ∙ (complete_rows_twice id s t x y db.messages r ∙ sym same) in
    let found : or_fail (find_where (by_id id) (complete_rows id t y after).messages) not_found
        ≡ ok m =
      ap (λ rows. or_fail (find_where (by_id id) rows) not_found) (kept ∙ same) ∙ f in
    let w = refresh_conversation-SameBut m.conversation_id (complete_rows id t y after) in
    (
      refresh_conversation m.conversation_id (complete_rows id t y after),
      ground (arith, h, found),
      w.messages ∙ kept,
    )

pub send_keys-complete_send :
    (id : ℕ) (state : MessageState) (sent : SentMessage) (db after : Database) (m : Message)
    → complete_send id state sent db ≡ ok (m, after)
    → after.send_keys ≡ db.send_keys
send_keys-complete_send id state sent db after m e =
    let (r, f, g) = complete_send-rows id state sent db after m e in
    let s = refresh_conversation-SameBut m.conversation_id (complete_rows id state sent db) in
    ap (λ (d : Database). d.send_keys) g ∙ s.send_keys
