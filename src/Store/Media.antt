-- ===== src/Store/Media.antt =====
-- internal/store/sqlite/media.go: what happens to a stored attachment.
pub mod Stored
use convomeow.Base.{
  ℕ, suc, ◌+◌, Bool, true, false, ◌&&◌, ◌||◌, not, Option, none, some, List, [], ◌∷◌, ◌++◌, map,
  ltb, leb, ◌==◌, if◌then◌else◌, length, is_none,
}
use convomeow.Base.Text.{Text}
use convomeow.Base.Tables.{any, find_where, select_where, delete_where}
use convomeow.Core.{Result, ok, invalid, not_found, ◌>>=◌, ◌>>◌, fail_if, or_fail}
use convomeow.Store.Messages.{by_id}
use convomeow.Store.Tables.{
  Attachment, Availability, FailureCode, Message, Upload, Database, Orphan,
}
use convomeow.Store.Uploads.{update_one}

abbrev pub is_ready : Availability → Bool
is_ready Availability.ready = true
is_ready _ = false

abbrev pub is_remote : Availability → Bool
is_remote Availability.remote = true
is_remote _ = false

abbrev pub is_reason : FailureCode → Bool
is_reason FailureCode.too_large = true
is_reason FailureCode.quota = true
is_reason _ = false

-- The row of `MarkMediaReady`
abbrev pub ready_row : ℕ → ℕ → ℕ → Text → Attachment → Attachment
ready_row profile key size sha256 a = record a {
  availability = Availability.ready;
  storage_profile_id = some profile;
  object_key = some key;
  stored_size = some size;
  stored_sha256 = some sha256;
  auto_fetch = false;
  next_attempt_at = none;
  attempt_count = 0;
  failure_code = FailureCode.unset;
  required_bytes = 0;
  media_version = suc a.media_version;
}

-- `MarkMediaReady`
unfoldable pub mark_media_ready : ℕ → ℕ → ℕ → ℕ → Text → List Attachment → Result (List Attachment)
mark_media_ready id profile key size sha256 rows = do
  fail_if (id == 0 || (profile == 0 || (key == 0 || not (length sha256 == 32)))) invalid
  update_one (λ a. a.id == id && is_remote a.availability) (ready_row profile key size sha256) rows

abbrev pub remote_row : Attachment → Attachment
remote_row a = record a {
  availability = Availability.remote;
  storage_profile_id = none;
  object_key = none;
  stored_size = none;
  stored_sha256 = none;
  next_attempt_at = none;
  failure_code = FailureCode.unset;
  required_bytes = 0;
  media_version = suc a.media_version;
}

-- `MarkMediaRemote`
unfoldable pub mark_media_remote : ℕ → ℕ → List Attachment → Result (List Attachment)
mark_media_remote id version rows =
    update_one
      (λ a.
        a.id == id
        && (is_ready a.availability
            && (not (is_none a.provider_ref) && a.media_version == version)))
      remote_row rows

abbrev pub unavailable_row : Attachment → Attachment
unavailable_row a = record a {
  availability = Availability.unavailable;
  auto_fetch = false;
  next_attempt_at = none;
  storage_profile_id = none;
  object_key = none;
  stored_size = none;
  stored_sha256 = none;
  failure_code = FailureCode.unset;
  required_bytes = 0;
}

-- `MarkMediaUnavailable`
unfoldable pub mark_media_unavailable : ℕ → List Attachment → Result (List Attachment)
mark_media_unavailable id rows =
    update_one (λ a. a.id == id && (is_remote a.availability || is_ready a.availability))
      unavailable_row rows

abbrev pub referenced_row : ℕ → Attachment → Attachment
referenced_row ref a = record a { provider_ref = some ref; availability = Availability.remote }

-- `UpdateMediaRef`; a reference of 0 is empty.
unfoldable pub update_media_ref : ℕ → ℕ → List Attachment → Result (List Attachment)
update_media_ref id ref rows = do
  fail_if (ref == 0) invalid
  update_one (λ a. a.id == id && not (is_ready a.availability)) (referenced_row ref) rows

abbrev pub retry_at : ℕ → Option ℕ
retry_at next = if next == 0 then none else some next

abbrev pub retry_row : ℕ → ℕ → Attachment → Attachment
retry_row next attempts a = record a {
  next_attempt_at = retry_at next;
  attempt_count = attempts;
  auto_fetch = not (next == 0);
}

-- `ScheduleMediaRetry`; a time of 0 asks for no retry.
unfoldable pub schedule_media_retry : ℕ → ℕ → ℕ → List Attachment → Result (List Attachment)
schedule_media_retry id next attempts rows =
    update_one (λ a. a.id == id && is_remote a.availability) (retry_row next attempts) rows

abbrev pub block_row : FailureCode → ℕ → Attachment → Attachment
block_row reason required a = record a {
  auto_fetch = false;
  next_attempt_at = none;
  failure_code = reason;
  required_bytes = required;
}

-- `BlockMedia`
unfoldable pub block_media : ℕ → FailureCode → ℕ → List Attachment → Result (List Attachment)
block_media id reason required rows = do
  fail_if (not (is_reason reason) || ltb required 1) invalid
  update_one (λ a. a.id == id && is_remote a.availability) (block_row reason required) rows

abbrev pub clear_row : Attachment → Attachment
clear_row a = record a { failure_code = FailureCode.unset; required_bytes = 0 }

-- `ClearMediaBlock`
unfoldable pub clear_media_block : ℕ → List Attachment → Result (List Attachment)
clear_media_block id rows = update_one (λ a. a.id == id && is_remote a.availability) clear_row rows

abbrev pub sized_row : ℕ → ℕ → Attachment → Attachment
sized_row width height a = record a { width = width; height = height }

-- `SetMediaDimensions`
unfoldable pub set_media_dimensions : ℕ → ℕ → ℕ → List Attachment → Result (List Attachment)
set_media_dimensions id width height rows = do
  fail_if (width == 0 || height == 0) invalid
  update_one (λ a. a.id == id) (sized_row width height) rows

-- What `GetMedia` reads of an attachment and of its message.
pub record MediaRecord : Type 0 where
  pub attachment : Attachment
  pub message : Message

-- The join with the message.
abbrev pub media_of : Attachment → Database → Result MediaRecord
media_of a db = or_fail (find_where (by_id a.message_id) db.messages) not_found >>= λ m.
    ok (record { attachment = a; message = m })

-- `GetMedia`
unfoldable pub get_media : ℕ → Database → Result MediaRecord
get_media id db =
    or_fail (find_where (λ a. a.id == id) db.attachments) not_found >>= λ a. media_of a db

abbrev pub ready_bytes : List Attachment → ℕ
ready_bytes [] = 0
ready_bytes (a ∷ rows) =
    (elim a.stored_size [ none ↦ 0 | some n ↦ if is_ready a.availability then n else 0 ])
    + ready_bytes rows

abbrev pub upload_bytes : List Upload → ℕ
upload_bytes [] = 0
upload_bytes (u ∷ rows) = u.size + upload_bytes rows

-- `StoredMediaBytes`, where `avatars` is the sum over the table of avatars.
unfoldable pub stored_media_bytes : ℕ → Database → ℕ
stored_media_bytes avatars db = ready_bytes db.attachments + upload_bytes db.uploads + avatars

abbrev is_pending : ℕ → Attachment → Bool
is_pending now a =
    a.auto_fetch
    && (is_remote a.availability && elim a.next_attempt_at [ none ↦ true | some t ↦ leb t now ])

abbrev ids_of : List Attachment → List ℕ
ids_of = map (λ a. a.id)

-- The rows that `ListPendingMedia` selects; their order and the limit of the page are left out.
unfoldable pub pending_media : ℕ → List Attachment → List ℕ
pending_media now rows = ids_of (select_where (is_pending now) rows)

abbrev pub is_orphan : ℕ → ℕ → Orphan → Bool
is_orphan profile key o = o.profile_id == profile && o.object_key == key

-- `INSERT OR IGNORE INTO media_orphans`
abbrev pub insert_orphan : ℕ → ℕ → List Orphan → List Orphan
insert_orphan profile key rows =
    if any (is_orphan profile key) rows
    then rows
    else rows ++ record { profile_id = profile; object_key = key } ∷ []

-- `ClearMediaOrphan`
abbrev pub clear_media_orphan : ℕ → ℕ → List Orphan → List Orphan
clear_media_orphan profile key rows = delete_where (is_orphan profile key) rows
