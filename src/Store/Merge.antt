-- ===== src/Store/Merge.antt =====
-- internal/store/sqlite/aliases.go: the merge of two conversations that turn out
-- to be one.
pub mod Shape
pub mod Carried
pub mod Rows
pub mod Steps
pub mod Pages
pub mod Lossless
pub mod Kept
use convomeow.Base.{
  ℕ, zero, suc, Bool, ◌&&◌, ◌||◌, not, Option, none, some, List, [], ◌∷◌, ◌==◌, if◌then◌else◌,
  length,
}
use convomeow.Base.{take}
use convomeow.Base.Tables.{find_where, any, select_where, update_where, delete_where}
use convomeow.Core.{Result, ok, err, other, ◌>>=◌, ◌>>◌, is_outbound}
use convomeow.Store.Tables.{Conversation, Message, Database}
use convomeow.Store.Messages.{by_id}
use convomeow.Store.Conversations.{refresh_conversation}
use convomeow.Store.MergeParts.{
  receipt_of, reply_of, key_of, attachment_of, merge_message_order, merge_attachments,
}

-- `DELETE FROM messages`: replies and read receipts go with the message; it fails while an
-- attachment, a key or a job refers to the message.
unfoldable pub delete_message : ℕ → Database → Result Database
delete_message id db =
    if any (attachment_of id) db.attachments
      || (any (key_of id) db.send_keys || any (λ j. j.message_id == id) db.jobs)
    then err (other 0)
    else ok (record db {
      messages = delete_where (by_id id) db.messages;
      replies = delete_where (reply_of id) db.replies;
      read_receipts = delete_where (receipt_of id) db.read_receipts;
    })

abbrev pub moved_to : ℕ → Message → Message
moved_to target m = record m { conversation_id = target }

unfoldable pub move_message : ℕ → ℕ → Database → Database
move_message target id db = record db {
  messages = update_where (by_id id) (moved_to target) db.messages;
}

unfoldable pub move_keys : ℕ → ℕ → Database → Database
move_keys to id db = record db {
  send_keys = update_where (key_of id) (λ k. record k { message_id = to }) db.send_keys;
}

-- The message of the source replaces the one of the target.
unfoldable pub keep_source : (ℕ → ℕ) → ℕ → ℕ → ℕ → Database → Result Database
unfolding merge_attachments merge_message_order delete_message move_message
keep_source fresh target id existing db = do
  merged ← merge_attachments fresh id existing (merge_message_order id existing db)
  deleted ← delete_message existing merged
  ok (move_message target id deleted)

-- The message of the target stays, and takes over the keys of the other.
unfoldable pub keep_target : (ℕ → ℕ) → ℕ → ℕ → Database → Result Database
unfolding merge_attachments merge_message_order delete_message move_keys
keep_target fresh id existing db = do
  merged ← merge_attachments fresh existing id (merge_message_order existing id db)
  delete_message id (move_keys existing id merged)

abbrev pub in_conversation : ℕ → Message → Bool
in_conversation id m = m.conversation_id == id

abbrev pub is_twin : ℕ → Message → Message → Bool
is_twin target m x = x.conversation_id == target && x.provider_message_id == m.provider_message_id

abbrev pub source_wins : Message → Message → Database → Bool
source_wins m existing db =
    not (any (key_of existing.id) db.send_keys)
    && (any (key_of m.id) db.send_keys
        || is_outbound m.direction && not (is_outbound existing.direction))

abbrev pub merge_found : (ℕ → ℕ) → ℕ → Message → Database → Option Message → Result Database
merge_found fresh target m db none = ok (move_message target m.id db)
merge_found fresh target m db (some existing) =
    if source_wins m existing db
    then keep_source fresh target m.id existing.id db
    else keep_target fresh m.id existing.id db

-- One message of the loop of `mergeConversationTx`.
unfoldable pub merge_message : (ℕ → ℕ) → ℕ → Message → Database → Result Database
unfolding keep_source keep_target move_message
merge_message fresh target m db =
    merge_found fresh target m db (find_where (is_twin target m) db.messages)

unfoldable pub merge_page : (ℕ → ℕ) → ℕ → List Message → Database → Result Database
unfolding merge_message
merge_page fresh target [] db = ok db
merge_page fresh target (m ∷ rest) db =
    merge_message fresh target m db >>= merge_page fresh target rest

abbrev pub page_size : ℕ
page_size = 100

abbrev pub page_of : ℕ → Database → List Message
page_of source db = take page_size (select_where (in_conversation source) db.messages)

abbrev pub with_merged :
    (Database → Option (Result Database)) → Result Database → Option (Result Database)
with_merged next (ok merged) = next merged
with_merged next (err e) = some (err e)

-- One round of the loop: an empty page ends it.
abbrev pub with_page :
    (Database → Option (Result Database))
    → (ℕ → ℕ)
    → ℕ
    → Database
    → List Message
    → Option (Result Database)
with_page next fresh target db [] = some (ok db)
with_page next fresh target db (m ∷ rest) = with_merged next (merge_page fresh target (m ∷ rest) db)

-- The loop over the pages; `none` means that the fuel ran out.
unfoldable pub merge_pages : (ℕ → ℕ) → ℕ → ℕ → ℕ → Database → Option (Result Database)
unfolding merge_page
merge_pages fresh zero target source db = none
merge_pages fresh (suc fuel) target source db =
    with_page (merge_pages fresh fuel target source) fresh target db (page_of source db)

abbrev or_zero : ℕ → ℕ → ℕ
or_zero x y = if x == 0 then y else x

abbrev merge_row : Conversation → Conversation → Conversation
merge_row source c = record c {
  is_group = source.is_group || c.is_group;
  display_name = or_zero c.display_name source.display_name;
  description = or_zero c.description source.description;
}

unfoldable pub merge_profile : ℕ → ℕ → Database → Database
merge_profile target source db = elim (find_where (λ c. c.id == source) db.conversations) [
  | none ↦ db
  | some s ↦ record db {
    conversations = update_where (λ c. c.id == target) (merge_row s) db.conversations;
  }
]

-- The statements of `mergeConversationTx` behind its loop.
unfoldable pub finish_merge : ℕ → ℕ → Database → Database
unfolding refresh_conversation
finish_merge target source db = refresh_conversation target (record db {
  aliases =
      update_where (λ a. a.conversation_id == source) (λ a. record a { conversation_id = target })
        db.aliases;
  conversations = delete_where (λ c. c.id == source) db.conversations;
})

abbrev pub finished : ℕ → ℕ → Option (Result Database) → Option (Result Database)
finished target source none = none
finished target source (some (err e)) = some (err e)
finished target source (some (ok merged)) = some (ok (finish_merge target source merged))

-- `mergeConversationTx`, with as many rounds as the source has messages, and one more.
unfoldable pub merge_conversation : (ℕ → ℕ) → ℕ → ℕ → Database → Option (Result Database)
unfolding merge_pages merge_profile finish_merge
merge_conversation fresh target source db = finished target source (
    merge_pages fresh (suc (length (select_where (in_conversation source) db.messages))) target
      source (merge_profile target source db))
