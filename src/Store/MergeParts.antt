-- ===== src/Store/MergeParts.antt =====
-- internal/store/sqlite/aliases.go and attachments.go: what a merge of two messages makes of their
-- receipts, replies, orders and attachments.
use convomeow.Base.{
  ℕ, Bool, false, ◌&&◌, ◌||◌, not, Option, none, some, List, [], ◌∷◌, ◌++◌, ◌==◌, if◌then◌else◌,
}
use convomeow.Base.{is_none}
use Prim.Native.Nat.{min}
use convomeow.Base.Tables.{find_where, any, select_where, update_where, delete_where}
use convomeow.Core.{Result, ok, err, other, ◌>>=◌}
use convomeow.Store.Tables.{
  Message, Attachment, Availability, SendKey, Orphan, ReadReceipt, Reply, Database,
}
use convomeow.Store.Attachments.{NewAttachment, is_part, save_attachments, or_else}
use convomeow.Store.Media.{is_ready, insert_orphan}
use convomeow.Store.Messages.{by_id}

-- The rows of a message in the tables that refer to messages.
abbrev pub receipt_of : ℕ → ReadReceipt → Bool
receipt_of id r = r.message_id == id

abbrev pub reply_of : ℕ → Reply → Bool
reply_of id r = r.message_id == id

abbrev pub key_of : ℕ → SendKey → Bool
key_of id k = k.message_id == id

abbrev pub attachment_of : ℕ → Attachment → Bool
attachment_of id a = a.message_id == id

-- The first receipt of two is kept.
abbrev pub merge_receipt : ℕ → Option ReadReceipt → List ReadReceipt → List ReadReceipt
merge_receipt target none rows = rows
merge_receipt target (some r) rows =
    if any (receipt_of target) rows
    then update_where (receipt_of target) (λ t. record t { read_at = min t.read_at r.read_at }) rows
    else rows ++ record r { message_id = target } ∷ []

abbrev pub merge_reply : ℕ → Option Reply → List Reply → List Reply
merge_reply target none rows = rows
merge_reply target (some r) rows =
    if any (reply_of target) rows then rows else rows ++ record r { message_id = target } ∷ []

-- `SELECT provider_order FROM messages WHERE public_id = ?`, as a value.
abbrev pub order_of : ℕ → List Message → Option ℕ
order_of id rows = elim (find_where (by_id id) rows) [ none ↦ none | some m ↦ m.provider_order ]

abbrev pub with_order : Option ℕ → Message → Message
with_order order m = record m { provider_order = or_else m.provider_order order }

-- `mergeMessageOrderTx`
unfoldable pub merge_message_order : ℕ → ℕ → Database → Database
merge_message_order target source db = record db {
  read_receipts =
      merge_receipt target (find_where (receipt_of source) db.read_receipts) db.read_receipts;
  replies = merge_reply target (find_where (reply_of source) db.replies) db.replies;
  messages = update_where (by_id target) (with_order (order_of source db.messages)) db.messages;
}

-- What `mergeAttachmentsTx` saves of an attachment; it gets a fresh identifier.
abbrev pub again : (ℕ → ℕ) → Attachment → NewAttachment
again fresh a = record {
  id = 0;
  fresh_id = fresh a.id;
  index = a.part_index;
  kind = a.kind;
  mime_type = a.mime_type;
  file_name = a.file_name;
  size = a.size;
  duration_seconds = a.duration_seconds;
  width = a.width;
  height = a.height;
  availability = a.availability;
  provider_ref = a.provider_ref;
  auto_fetch = a.auto_fetch;
}

abbrev pub with_object : Attachment → Attachment → Attachment
with_object source a = record a {
  availability = Availability.ready;
  storage_profile_id = source.storage_profile_id;
  object_key = source.object_key;
  stored_size = source.stored_size;
  stored_sha256 = source.stored_sha256;
}

abbrev pub same_object : Option ℕ → Option ℕ → Bool
same_object none b = is_none b
same_object (some x) none = false
same_object (some x) (some y) = x == y

-- The object of the source that the part of the target does not name is left to be deleted.
abbrev pub orphan_of : Option ℕ → Option ℕ → List Orphan → List Orphan
orphan_of none key rows = rows
orphan_of (some profile) none rows = rows
orphan_of (some profile) (some key) rows = insert_orphan profile key rows

abbrev pub merge_object : Attachment → Database → Option Attachment → Result Database
merge_object source db none = err (other 0)
merge_object source db (some t) =
    if not (is_ready t.availability) || (is_none t.storage_profile_id || is_none t.object_key)
    then ok (record db {
      attachments = update_where (λ a. a.id == t.id) (with_object source) db.attachments;
    })
    else if same_object t.storage_profile_id source.storage_profile_id
        && same_object t.object_key source.object_key
    then ok db
    else ok
        (record db { orphans = orphan_of source.storage_profile_id source.object_key db.orphans })

abbrev pub with_attachments : Database → Result (List Attachment) → Result Database
with_attachments db (ok rows) = ok (record db { attachments = rows })
with_attachments db (err e) = err e

-- One round of the loop of `mergeAttachmentsTx`.
unfoldable pub merge_attachment : (ℕ → ℕ) → ℕ → Attachment → Database → Result Database
merge_attachment fresh target source db = do
  saved ← with_attachments db (save_attachments target (again fresh source ∷ []) db.attachments)
  if is_ready source.availability
      then merge_object source saved
          (find_where (is_part target source.part_index) saved.attachments)
      else ok saved

unfoldable pub merge_each : (ℕ → ℕ) → ℕ → List Attachment → Database → Result Database
merge_each fresh target [] db = ok db
merge_each fresh target (a ∷ rest) db =
    merge_attachment fresh target a db >>= merge_each fresh target rest

-- `mergeAttachmentsTx`
unfoldable pub merge_attachments : (ℕ → ℕ) → ℕ → ℕ → Database → Result Database
unfolding merge_each merge_attachment
merge_attachments fresh target source db =
    merge_each fresh target (select_where (attachment_of source) db.attachments) db >>= λ merged.
    ok (record merged { attachments = delete_where (attachment_of source) merged.attachments })
