-- ===== src/App/MediaFetch.antt =====
-- internal/app/media.go: the worker that fetches the media of a message from the provider and stores
-- it.
pub mod Backed
pub mod Storing
pub mod Pass
use convomeow.Base.{
  ℕ, ◌+◌, ◌^◌, Bool, true, false, ◌&&◌, not, Option, none, some, List, ◌∷◌, ltb, ◌==◌,
  if◌then◌else◌, length, is_none,
}
use Prim.Native.Nat.{max}
use convomeow.Base.Text.{Text}
use convomeow.Base.Tables.{delete_where}
use convomeow.Core.{Result, ok, err, Error, media_unavailable, ◌>>=◌}
use convomeow.Store.Tables.{Attachment, FailureCode, Database}
use convomeow.Store.Media.{
  MediaRecord, get_media, stored_media_bytes, is_ready, is_remote, mark_media_ready,
  update_media_ref,
}
use convomeow.App.Session.{Service, Runtime, runtime}
use convomeow.App.Session.Logins.{is_connected}
use convomeow.App.Quota.{Space, reserve_temp, release_temp, reserve_storage, release_storage}
use convomeow.App.MediaFiles.{
  is_quota, Object, is_object, Files, World, is_too_large, media_failure, block, later,
  set_dimensions,
}

abbrev without : ℕ → ℕ → List Object → List Object
without profile key objects = delete_where (is_object profile key) objects

-- `store.Put`, which replaces an object of the same key.
abbrev pub put_object : ℕ → ℕ → Text → List Object → List Object
put_object profile key content objects =
    record { profile_id = profile; key = key; content = content } ∷ without profile key objects

-- `store.Delete`, if the store can be reached.
abbrev pub delete_object : Bool → ℕ → ℕ → List Object → List Object
delete_object reached profile key objects = if reached then without profile key objects else objects

-- The attachment names the object.
abbrev pub names : ℕ → ℕ → Attachment → Bool
names profile key a =
    is_ready a.availability
    && (elim a.object_key [ none ↦ false | some k ↦ k == key ]
        && elim a.storage_profile_id [ none ↦ false | some p ↦ p == profile ])

-- Whether the attachment names the object by now; an error of the database counts as that.
abbrev pub still_named : World → Attachment → ℕ → Files → Bool
still_named w a key f = elim (get_media a.id f.db) [
  | ok current ↦ names w.active_profile key current.attachment
  | err missing ↦ true
]

-- `MarkMediaReady` has failed: an object that the attachment does not name is deleted again.
unfoldable pub unrecorded : World → Attachment → ℕ → Error → Files → Files
unfolding media_failure
unrecorded w a key e f = record f {
  db = media_failure w a e f.db;
  objects =
      if still_named w a key f
      then f.objects
      else delete_object w.can_delete w.active_profile key f.objects;
}

abbrev pub recorded : World → Attachment → ℕ → Files → Result (List Attachment) → Files
recorded w a key f (ok rows) = record f { db = record (f.db) { attachments = rows } }
recorded w a key f (err e) = unrecorded w a key e f

-- A `Put` that fails may leave an object behind.
abbrev pub left_behind : ℕ → ℕ → Option Text → List Object → List Object
left_behind profile key none objects = objects
left_behind profile key (some content) objects = put_object profile key content objects

abbrev pub failing : World → Attachment → Files → Error → Files
failing w a f e = record f { db = media_failure w a e f.db }

-- What follows `store.Put`, by its answer.
abbrev pub after_put : World → Attachment → ℕ → Text → Files → Result (Unit {0}) → Files
after_put w a key file f (err e) = record f {
  db = media_failure w a e f.db;
  objects =
      delete_object w.can_delete w.active_profile key
        (left_behind w.active_profile key w.left f.objects);
}
after_put w a key file f (ok done) =
    recorded w a key (record f { objects = put_object w.active_profile key file f.objects })
      (mark_media_ready a.id w.active_profile key (length file) (w.sha256 file) f.db.attachments)

abbrev pub with_key : World → Attachment → Text → Files → Result ℕ → Files
with_key w a file f (ok key) = after_put w a key file f w.put
with_key w a file f (err e) = failing w a f e

-- From the hash of the file to the record of the object.
abbrev pub store_file : World → MediaRecord → Text → Files → Database × Result (Unit {0}) → Files
store_file w r file f (db, err e) = failing w r.attachment (record f { db = db }) e
store_file w r file f (db, ok done) =
    with_key w r.attachment file (record f { db = db })
      (w.read >>= λ done. w.key r.message.account_id r.attachment.id)

abbrev pub from_start :
    World → Attachment → Text → Database → Result (Unit {0}) → Database × Result (Unit {0})
from_start w a file db (ok done) = set_dimensions w a file db
from_start w a file db (err e) = (db, err e)

-- From the reservation of the stored bytes on.
unfoldable pub keep_file : World → MediaRecord → Text → Files → Files
unfolding unrecorded set_dimensions media_failure
keep_file w r file f = store_file w r file f (from_start w r.attachment file f.db w.seek)

-- The reservation may fail for want of space, or because the stored bytes could not be counted.
abbrev pub within_quota : World → MediaRecord → Text → Files → Result Space → Files
within_quota w r file f (err e) =
    if is_quota e
    then record f { db = block r.attachment FailureCode.quota (max (length file) 1) f.db }
    else failing w r.attachment f e
within_quota w r file f (ok space) =
    let g = keep_file w r file (record f { space = space }) in
    record g { space = release_storage (length file) g.space }

-- What happens with a file that has been downloaded.
unfoldable pub downloaded : World → MediaRecord → Text → Files → Files
unfolding keep_file block
downloaded w r file f =
    if ltb w.max_file (length file)
    then record f { db = block r.attachment FailureCode.too_large (length file) f.db }
    else within_quota w r file f (
        w.count >>= λ counted.
        reserve_storage (length file) (stored_media_bytes w.avatar_bytes f.db) f.space)

abbrev pub save_ref : MediaRecord → ℕ → Database → Result Database
save_ref r ref db =
    if ref == 0
    then ok db
    else update_media_ref r.attachment.id ref db.attachments >>= λ rows.
        ok (record db { attachments = rows })

abbrev pub with_stat : World → MediaRecord → Files → Text → Result (Unit {0}) → Files
with_stat w r f file (ok done) = downloaded w r file f
with_stat w r f file (err e) = failing w r.attachment f e

abbrev pub after_download : World → MediaRecord → Files → Result Text → Files
after_download w r f (ok file) = with_stat w r f file w.stat
after_download w r f (err e) =
    if is_too_large e
    then record f { db = block r.attachment FailureCode.too_large (w.max_file + 1) f.db }
    else failing w r.attachment f e

abbrev pub with_ref : World → MediaRecord → Files → Result Text → Result Database → Files
with_ref w r f file (err e) = failing w r.attachment f e
with_ref w r f file (ok db) = after_download w r (record f { db = db }) file

-- The download into a file, if that could be made. The new reference is saved first.
abbrev pub fetch : World → MediaRecord → ℕ → Files → Result (Unit {0}) → Files
fetch w r ref f (err e) = failing w r.attachment f e
fetch w r ref f (ok done) =
    let g = w.meanwhile f in
    with_ref w r g (w.download ref).file (save_ref r (w.download ref).new_ref g.db)

abbrev pub reserved_bytes : World → ℕ
reserved_bytes w = w.max_file + 2 ^ 20

-- The part of `processMedia` that holds temporary space.
abbrev pub fetch_into_temp : World → MediaRecord → ℕ → Files → Result Space → Files
fetch_into_temp w r ref f (err e) = record f { db = later w r.attachment 5 f.db }
fetch_into_temp w r ref f (ok space) =
    let g = fetch w r ref (record f { space = space }) w.create_file in
    record g { space = release_temp (reserved_bytes w) g.space }

abbrev pub with_runtime : World → MediaRecord → ℕ → Files → Result Runtime → Files
with_runtime w r ref f (err e) = f
with_runtime w r ref f (ok rt) =
    if is_connected rt.state && not (is_none rt.session)
    then fetch_into_temp w r ref f (reserve_temp (reserved_bytes w) f.space)
    else record f { db = later w r.attachment 30 f.db }

abbrev pub with_reference : World → MediaRecord → Service → Files → Option ℕ → Files
with_reference w r s f none = failing w r.attachment f media_unavailable
with_reference w r s f (some ref) =
    if ltb w.max_file r.attachment.size
    then record f { db = block r.attachment FailureCode.too_large r.attachment.size f.db }
    else with_runtime w r ref f (runtime r.message.account_id s)

abbrev pub process_found : World → Service → Files → Result MediaRecord → Files
process_found w s f (err e) = f
process_found w s f (ok r) =
    if is_remote r.attachment.availability
    then with_reference w r s f r.attachment.provider_ref
    else f

-- `processMedia`, less the notification of the clients.
unfoldable pub process_media : World → ℕ → Service → Files → Files
unfolding downloaded
process_media w id s f = if w.can_read then process_found w s f (get_media id f.db) else f
