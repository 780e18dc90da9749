-- ===== src/Store/Attachments.antt =====
-- internal/store/sqlite/attachments.go and replies.go: what is saved with a message.
pub mod Ready
use convomeow.Base.Text.{Text}
use convomeow.Base.{
  ℕ, ◌-◌, ◌^◌, Bool, true, false, ◌&&◌, ◌||◌, Option, none, some, List, [], ◌∷◌, ◌++◌, ltb, ◌==◌,
  if◌then◌else◌,
}
use convomeow.Base.Tables.{any, update_where}
use convomeow.Core.{Result, ok, err, invalid, conflict, Kind, MediaType, ◌>>=◌}
use convomeow.Store.Tables.{Attachment, Availability, FailureCode, Reply}

-- `core.Attachment`, with the identifier that is drawn if it has none. An index is not negative.
pub record NewAttachment : Type 0 where
  pub id : ℕ
  pub fresh_id : ℕ
  pub index : ℕ
  pub kind : Kind
  pub mime_type : MediaType
  pub file_name : ℕ
  pub size : ℕ
  pub duration_seconds : ℕ
  pub width : ℕ
  pub height : ℕ
  pub availability : Availability
  pub provider_ref : Option ℕ
  pub auto_fetch : Bool

abbrev kind_unset : Kind → Bool
kind_unset Kind.unset = true
kind_unset _ = false

abbrev or_remote : Availability → Availability
or_remote Availability.unset = Availability.remote
or_remote a = a

abbrev pub or_else : Option ℕ → Option ℕ → Option ℕ
or_else none o = o
or_else (some r) o = some r

abbrev merge_availability : Availability → Availability → Availability
merge_availability Availability.ready new = Availability.ready
merge_availability old Availability.remote = Availability.remote
merge_availability old _ = old

abbrev is_blocked : FailureCode → Bool
is_blocked FailureCode.unset = false
is_blocked _ = true

abbrev or_mime : MediaType → MediaType → MediaType
or_mime MediaType.empty t = t
or_mime t _ = t

unfoldable pub new_row : ℕ → NewAttachment → Attachment
new_row message_id a = record {
  id = if a.id == 0 then a.fresh_id else a.id;
  message_id = message_id;
  part_index = a.index;
  kind = a.kind;
  mime_type = a.mime_type;
  file_name = a.file_name;
  size = a.size;
  availability = or_remote a.availability;
  provider_ref = a.provider_ref;
  auto_fetch = a.auto_fetch;
  width = a.width;
  height = a.height;
  duration_seconds = a.duration_seconds;
  next_attempt_at = none;
  attempt_count = 0;
  failure_code = FailureCode.unset;
  required_bytes = 0;
  storage_profile_id = none;
  object_key = none;
  stored_size = none;
  stored_sha256 = none;
  media_version = 0;
}

-- `ON CONFLICT(message_id, part_index) DO UPDATE`
unfoldable pub merge_row : Attachment → Attachment → Attachment
merge_row new old = record old {
  duration_seconds =
      if ltb 0 new.duration_seconds then new.duration_seconds else old.duration_seconds;
  width = if ltb 0 new.width && ltb 0 new.height then new.width else old.width;
  height = if ltb 0 new.width && ltb 0 new.height then new.height else old.height;
  mime_type = or_mime new.mime_type old.mime_type;
  file_name = if new.file_name == 0 then old.file_name else new.file_name;
  size = if new.size == 0 then old.size else new.size;
  availability = merge_availability old.availability new.availability;
  provider_ref = or_else new.provider_ref old.provider_ref;
  auto_fetch = if is_blocked old.failure_code then false else (old.auto_fetch || new.auto_fetch);
}

abbrev pub is_part : ℕ → ℕ → Attachment → Bool
is_part message_id index a = a.message_id == message_id && a.part_index == index

-- One round of `saveAttachmentsTx`. The primary key may be taken by another part.
unfoldable pub save_attachment : ℕ → NewAttachment → List Attachment → Result (List Attachment)
unfolding new_row merge_row
save_attachment message_id a rows =
    let row = new_row message_id a in
    if kind_unset a.kind || ltb (2 ^ 63 - 1) a.size
    then err invalid
    else if any (is_part message_id a.index) rows
    then ok (update_where (is_part message_id a.index) (merge_row row) rows)
    else if any (λ r. r.id == row.id) rows
    then err conflict
    else ok (rows ++ row ∷ [])

-- `saveAttachmentsTx`
unfoldable pub save_attachments :
    ℕ → List NewAttachment → List Attachment → Result (List Attachment)
unfolding save_attachment
save_attachments message_id [] rows = ok rows
save_attachments message_id (a ∷ rest) rows =
    save_attachment message_id a rows >>= save_attachments message_id rest

-- `core.Reply`, as far as it is stored.
pub record NewReply : Type 0 where
  pub provider_message_id : ℕ
  pub sender_id : ℕ
  pub kind : Kind
  pub text : Text

-- `saveReplyTx`
unfoldable pub save_reply : ℕ → Option NewReply → List Reply → Result (List Reply)
save_reply id none rows = ok rows
save_reply id (some r) rows =
    if r.provider_message_id == 0
    then err invalid
    else if any (λ row. row.message_id == id) rows
    then ok rows
    else ok (
        rows
        ++ record {
          message_id = id;
          provider_message_id = r.provider_message_id;
          sender_id = r.sender_id;
          kind = r.kind;
          text = r.text;
        }
          ∷ [])
