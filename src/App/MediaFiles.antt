-- ===== src/App/MediaFiles.antt =====
-- internal/app/media.go and media_dimensions.go: what the worker that fetches media works on, the
-- failures that it notes down, and the dimensions of an image.
use convomeow.Base.{
  ℕ, suc, ◌+◌, ◌*◌, ◌%◌, ◌^◌, Bool, true, false, ◌&&◌, ◌||◌, Option, none, some, List, ltb, leb,
  ◌==◌, if◌then◌else◌, length,
}
use Prim.Native.Nat.{min}
use convomeow.Base.Text.{Text, text_eq}
use convomeow.Core.{Result, ok, err, Error, ◌>>=◌, Kind, second}
use convomeow.Store.Tables.{Attachment, FailureCode, Database}
use convomeow.Store.Media.{
  mark_media_unavailable, schedule_media_retry, block_media, set_media_dimensions,
}
use convomeow.App.Quota.{Space}
use convomeow.App.Webp.{bytes, riff, webp, static_webp_dimensions}

-- An object of the object store.
pub record Object : Type 0 where
  pub profile_id : ℕ
  pub key : ℕ
  pub content : Text

abbrev pub is_object : ℕ → ℕ → Object → Bool
is_object profile key o = o.profile_id == profile && o.key == key

-- What the workers share: the database, the objects and the space that is reserved.
pub record Files : Type 0 where
  pub db : Database
  pub objects : List Object
  pub space : Space

-- `core.MediaSource` leads to the file, to a new reference (0 is empty), and to a failure.
pub record Download : Type 0 where
  pub new_ref : ℕ
  pub file : Result Text

-- What one pass gets from the clock, the file system, the provider and the object store. While the
-- file is on its way, other workers go on: `meanwhile` is what they do.
pub record World : Type 0 where
  pub can_read : Bool
  pub closed : Bool
  pub now : ℕ
  pub max_file : ℕ
  pub create_file : Result (Unit {0})
  pub download : ℕ → Download
  pub meanwhile : Files → Files
  pub stat : Result (Unit {0})
  pub count : Result (Unit {0})
  pub seek : Result (Unit {0})
  pub seek_again : Result (Unit {0})
  pub decode_config : Text → Option (ℕ × ℕ)
  pub read : Result (Unit {0})
  pub sha256 : Text → Text
  pub active_profile : ℕ
  pub key : ℕ → ℕ → Result ℕ
  pub put : Result (Unit {0})
  pub left : Option Text
  pub can_delete : Bool
  pub avatar_bytes : ℕ

abbrev pub kept_rows : Database → Result (List Attachment) → Database
kept_rows db (ok rows) = record db { attachments = rows }
kept_rows db (err e) = db

abbrev pub is_unavailable : Error → Bool
is_unavailable Error.media_unavailable = true
is_unavailable _ = false

abbrev pub is_too_large : Error → Bool
is_too_large Error.media_too_large = true
is_too_large _ = false

-- `time.Duration(1<<min(attempt, 5)) * 15 * time.Second`, up to the fourth attempt.
abbrev pub next_try : ℕ → ℕ → ℕ
next_try now attempt = if ltb attempt 5 then now + 2 ^ (min attempt 5) * 15 * second else 0

-- What `mediaFailure` notes down of a failure.
abbrev pub note_failure : World → Attachment → Error → Database → Database
note_failure w a e db =
    if is_unavailable e
    then kept_rows db (mark_media_unavailable a.id db.attachments)
    else kept_rows db (
        schedule_media_retry a.id (next_try w.now (suc a.attempt_count)) (suc a.attempt_count)
          db.attachments)

-- `mediaFailure`
unfoldable pub media_failure : World → Attachment → Error → Database → Database
media_failure w a e db = if w.closed then db else note_failure w a e db

-- `blockMedia`
unfoldable pub block : Attachment → FailureCode → ℕ → Database → Database
block a reason required db = kept_rows db (block_media a.id reason required db.attachments)

abbrev pub later : World → Attachment → ℕ → Database → Database
later w a wait db =
    kept_rows db (schedule_media_retry a.id (w.now + wait * second) a.attempt_count db.attachments)

-- `imageDimensions`
unfoldable pub image_dimensions : (Text → Option (ℕ × ℕ)) → Text → ℕ × ℕ
image_dimensions decode_config file =
    if leb 30 (length file) && (text_eq (bytes 0 4 file) riff && text_eq (bytes 8 4 file) webp)
    then elim (static_webp_dimensions (bytes 0 30 file)) [ ok size ↦ size | err e ↦ (0, 0) ]
    else elim (decode_config file) [
      | none ↦ (0, 0)
      | some size ↦
          if size.0 == 0 || size.1 == 0 then (0, 0) else (size.0 % 2 ^ 32, size.1 % 2 ^ 32)
    ]

abbrev pub is_picture : Kind → Bool
is_picture Kind.image = true
is_picture Kind.sticker = true
is_picture _ = false

abbrev pub save_size : Attachment → ℕ × ℕ → Database → Result Database
save_size a (width, height) db =
    if ltb 0 width && ltb 0 height
    then set_media_dimensions a.id width height db.attachments
      >>= (λ rows. ok (record db { attachments = rows }))
    else ok db

-- The database after dimensions were set, and whether the file could be read from its start again.
abbrev pub sized : World → Database → Result Database → Database × Result (Unit {0})
sized w db (ok next) = (next, w.seek_again)
sized w db (err e) = (db, err e)

-- The dimensions are set where they are not known and the file shows them.
unfoldable pub set_dimensions : World → Attachment → Text → Database → Database × Result (Unit {0})
unfolding image_dimensions
set_dimensions w a file db =
    if (a.width == 0 || a.height == 0) && is_picture a.kind
    then sized w db (save_size a (image_dimensions w.decode_config file) db)
    else (db, ok tt)

abbrev pub is_quota : Error → Bool
is_quota Error.media_quota = true
is_quota _ = false
