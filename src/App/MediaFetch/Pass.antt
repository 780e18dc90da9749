-- ===== src/App/MediaFetch/Pass.antt =====
-- What a pass of the media worker leaves: every attachment that is ready has its object.
use convomeow.Base.{
  ℕ, ◌+◌, ◌*◌, ◌≡◌, refl, sym, ap, ◌∙◌, inl, inr, ◌&&◌, ◌||◌, not, Option, none, some, List, arith,
  ltb, ◌==◌, length, Bool-cases, Option-cases,
}
use convomeow.Base.{subst, if_holds}
use convomeow.Base.Text.{Text}
use convomeow.Base.Tables.{find_where, find_where_holds}
use convomeow.Core.{
  Result, ok, err, ◌>>=◌, >>=-eq-ok, media_unavailable, second, or_fail, not_found,
}
use convomeow.Store.Tables.{Attachment, Database, FailureCode}
use convomeow.Store.Media.{
  MediaRecord, is_remote, update_media_ref, set_media_dimensions, stored_media_bytes, get_media,
  media_of,
}
use convomeow.Store.Messages.{by_id}
use convomeow.App.Quota.{reserve_storage, reserve_temp}
use convomeow.App.Session.{Runtime, Service, runtime}
use convomeow.App.MediaFetch.{
  from_start, failing, with_key, within_quota, with_stat, with_ref, fetch, with_runtime,
  with_reference, process_found, save_ref, store_file, keep_file, downloaded, after_download,
  fetch_into_temp, process_media, reserved_bytes, Space, max, is_connected, is_none,
}
use convomeow.App.MediaFiles.{
  sized, is_quota, is_picture, Object, Files, World, block, set_dimensions, image_dimensions,
  is_too_large, later, save_size,
}
use convomeow.App.MediaFetch.Storing.{
  AreBacked, IsSafe, Keeps, safe-backed, blocked_sound, later_sound, failing-backed,
  after_put-backed,
}
use convomeow.App.MediaFetch.Backed.{IsOwnKey, AreSound, reference_sound, dimensions_sound}

module _ (w : World) (id : ℕ) where
  with_key-backed :
      (a : Attachment) (file : Text) (f : Files) (r : Result ℕ)
      → ((key : ℕ) → r ≡ ok key → IsOwnKey w id key)
      → IsSafe w id f
      → AreBacked w.sha256 (with_key w a file f r)
  with_key-backed a file f (ok key) own v =
      after_put-backed w id a key file f w.put (own key refl) v
  with_key-backed a file f (err e) own v = failing-backed w id a f e v

  -- A change of the attachments, as a change of the database.
  rows-safe :
      (objects : List Object) (db after : Database) (r : Result (List Attachment))
      → (r >>= λ rows. ok (record db { attachments = rows })) ≡ ok after
      → ((rows : List Attachment) → r ≡ ok rows → AreSound w id objects rows)
      → Keeps w id objects after
  rows-safe objects db after (err e) h v = cc
  rows-safe objects db after (ok rows) h v =
      let same : record db { attachments = rows } ≡ after = ground arith in
      subst (Keeps w id objects) same (v rows refl)

  save_size-safe :
      (objects : List Object) (a : Attachment) (size : ℕ × ℕ) (db sized : Database)
      → save_size a size db ≡ ok sized
      → Keeps w id objects db
      → Keeps w id objects sized
  save_size-safe objects a (width, height) db sized e v =
      elim (Bool-cases (ltb 0 width && ltb 0 height)) [
        | inl known ↦
            rows-safe objects db sized (set_media_dimensions a.id width height db.attachments)
              (ground (arith, known, e))
              (λ rows f. dimensions_sound w id objects a.id width height db.attachments rows f v)
        | inr unknown ↦
            let same : db ≡ sized = ground (arith, unknown, e) in subst (Keeps w id objects) same v
      ]

  sized-safe :
      (objects : List Object) (db : Database) (r : Result Database)
      → ((next : Database) → r ≡ ok next → Keeps w id objects next)
      → Keeps w id objects db
      → Keeps w id objects (sized w db r).0
  sized-safe objects db (ok next) h v = h next refl
  sized-safe objects db (err e) h v = v

  set_dimensions-safe :
      (objects : List Object) (a : Attachment) (file : Text) (db : Database)
      → Keeps w id objects db
      → Keeps w id objects (set_dimensions w a file db).0
  unfolding set_dimensions
  set_dimensions-safe objects a file db v =
      elim (Bool-cases ((a.width == 0 || a.height == 0) && is_picture a.kind)) [
        | inl wanted ↦
            let size = image_dimensions w.decode_config file in
            rw wanted (
              sized-safe objects db (save_size a size db)
                (λ next e. save_size-safe objects a size db next e v) v)
        | inr known ↦ rw known v
      ]

  from_start-safe :
      (objects : List Object) (a : Attachment) (file : Text) (db : Database) (r : Result (Unit {0}))
      → Keeps w id objects db
      → Keeps w id objects (from_start w a file db r).0
  from_start-safe objects a file db (ok done) v = set_dimensions-safe objects a file db v
  from_start-safe objects a file db (err e) v = v

  own_key :
      (r : MediaRecord) (key : ℕ)
      → r.attachment.id ≡ id
      → (w.read >>= λ done. w.key r.message.account_id r.attachment.id) ≡ ok key
      → IsOwnKey w id key
  own_key r key same e =
      let (done, f, g) =
        >>=-eq-ok {W = ℕ} w.read (λ done. w.key r.message.account_id r.attachment.id) {end = key}
          e in
      (r.message.account_id, ap (w.key r.message.account_id) (sym same) ∙ g)

  store_file-backed :
      (r : MediaRecord) (file : Text) (f : Files) (d : Database × Result (Unit {0}))
      → r.attachment.id ≡ id
      → Keeps w id f.objects d.0
      → AreBacked w.sha256 (store_file w r file f d)
  store_file-backed r file f (db, err e) same v =
      failing-backed w id r.attachment (record f { db = db }) e v
  store_file-backed r file f (db, ok done) same v =
      with_key-backed r.attachment file (record f { db = db })
        (w.read >>= λ done. w.key r.message.account_id r.attachment.id)
        (λ key e. own_key r key same e) v

  keep_file-backed :
      (r : MediaRecord) (file : Text) (f : Files)
      → r.attachment.id ≡ id
      → IsSafe w id f
      → AreBacked w.sha256 (keep_file w r file f)
  unfolding keep_file
  keep_file-backed r file f same v =
      store_file-backed r file f (from_start w r.attachment file f.db w.seek) same
        (from_start-safe f.objects r.attachment file f.db w.seek v)

  blocked-backed :
      (a : Attachment) (reason : FailureCode) (n : ℕ) (f : Files)
      → IsSafe w id f
      → AreBacked w.sha256 (record f { db = block a reason n f.db })
  blocked-backed a reason n f v =
      safe-backed w id (record f { db = block a reason n f.db })
        (blocked_sound w id f.objects a reason n f.db v)

  later-backed :
      (a : Attachment) (wait : ℕ) (f : Files)
      → IsSafe w id f
      → AreBacked w.sha256 (record f { db = later w a wait f.db })
  later-backed a wait f v =
      safe-backed w id (record f { db = later w a wait f.db })
        (later_sound w id f.objects a (w.now + wait * second) a.attempt_count f.db v)

  within_quota-backed :
      (r : MediaRecord) (file : Text) (f : Files) (q : Result Space)
      → r.attachment.id ≡ id
      → IsSafe w id f
      → AreBacked w.sha256 (within_quota w r file f q)
  within_quota-backed r file f (err e) same v =
      if_holds (AreBacked w.sha256) (is_quota e)
        (record f { db = block r.attachment FailureCode.quota (max (length file) 1) f.db })
        (failing w r.attachment f e)
        (blocked-backed r.attachment FailureCode.quota (max (length file) 1) f v)
        (failing-backed w id r.attachment f e v)
  within_quota-backed r file f (ok space) same v =
      keep_file-backed r file (record f { space = space }) same v

  downloaded-backed :
      (r : MediaRecord) (file : Text) (f : Files)
      → r.attachment.id ≡ id
      → IsSafe w id f
      → AreBacked w.sha256 (downloaded w r file f)
  unfolding downloaded
  downloaded-backed r file f same v =
      if_holds (AreBacked w.sha256) (ltb w.max_file (length file))
        (record f { db = block r.attachment FailureCode.too_large (length file) f.db })
        (within_quota w r file f (
          w.count >>= λ counted.
          reserve_storage (length file) (stored_media_bytes w.avatar_bytes f.db) f.space))
        (blocked-backed r.attachment FailureCode.too_large (length file) f v)
        (within_quota-backed r file f
          (w.count >>= λ counted.
            reserve_storage (length file) (stored_media_bytes w.avatar_bytes f.db) f.space)
          same v)

  with_stat-backed :
      (r : MediaRecord) (f : Files) (file : Text) (stat : Result (Unit {0}))
      → r.attachment.id ≡ id
      → IsSafe w id f
      → AreBacked w.sha256 (with_stat w r f file stat)
  with_stat-backed r f file (ok done) same v = downloaded-backed r file f same v
  with_stat-backed r f file (err e) same v = failing-backed w id r.attachment f e v

  after_download-backed :
      (r : MediaRecord) (f : Files) (file : Result Text)
      → r.attachment.id ≡ id
      → IsSafe w id f
      → AreBacked w.sha256 (after_download w r f file)
  after_download-backed r f (ok file) same v = with_stat-backed r f file w.stat same v
  after_download-backed r f (err e) same v =
      if_holds (AreBacked w.sha256) (is_too_large e)
        (record f { db = block r.attachment FailureCode.too_large (w.max_file + 1) f.db })
        (failing w r.attachment f e)
        (blocked-backed r.attachment FailureCode.too_large (w.max_file + 1) f v)
        (failing-backed w id r.attachment f e v)

  save_ref-safe :
      (objects : List Object) (r : MediaRecord) (ref : ℕ) (db after : Database)
      → save_ref r ref db ≡ ok after
      → Keeps w id objects db
      → Keeps w id objects after
  save_ref-safe objects r ref db after e v = elim (Bool-cases (ref == 0)) [
    | inl unchanged ↦
        let same : db ≡ after = ground (arith, unchanged, e) in subst (Keeps w id objects) same v
    | inr new ↦
        rows-safe objects db after (update_media_ref r.attachment.id ref db.attachments)
          (ground (arith, new, e))
          (λ rows f. reference_sound w id objects r.attachment.id ref db.attachments rows f v)
  ]

  with_ref-backed :
      (r : MediaRecord) (f : Files) (file : Result Text) (d : Result Database)
      → r.attachment.id ≡ id
      → ((db : Database) → d ≡ ok db → Keeps w id f.objects db)
      → IsSafe w id f
      → AreBacked w.sha256 (with_ref w r f file d)
  with_ref-backed r f file (err e) same h v = failing-backed w id r.attachment f e v
  with_ref-backed r f file (ok db) same h v =
      after_download-backed r (record f { db = db }) file same (h db refl)

  module _ (alone : (g : Files) → IsSafe w id g → IsSafe w id (w.meanwhile g)) where
    fetch-backed :
        (r : MediaRecord) (ref : ℕ) (f : Files) (made : Result (Unit {0}))
        → r.attachment.id ≡ id
        → IsSafe w id f
        → AreBacked w.sha256 (fetch w r ref f made)
    fetch-backed r ref f (err e) same v = failing-backed w id r.attachment f e v
    fetch-backed r ref f (ok done) same v =
        let g = w.meanwhile f in
        with_ref-backed r g (w.download ref).file (save_ref r (w.download ref).new_ref g.db) same
          (λ db e. save_ref-safe g.objects r (w.download ref).new_ref g.db db e (alone f v))
          (alone f v)

    fetch_into_temp-backed :
        (r : MediaRecord) (ref : ℕ) (f : Files) (q : Result Space)
        → r.attachment.id ≡ id
        → IsSafe w id f
        → AreBacked w.sha256 (fetch_into_temp w r ref f q)
    fetch_into_temp-backed r ref f (err e) same v = later-backed r.attachment 5 f v
    fetch_into_temp-backed r ref f (ok space) same v =
        fetch-backed r ref (record f { space = space }) w.create_file same v

    with_runtime-backed :
        (r : MediaRecord) (ref : ℕ) (f : Files) (found : Result Runtime)
        → r.attachment.id ≡ id
        → IsSafe w id f
        → AreBacked w.sha256 (with_runtime w r ref f found)
    with_runtime-backed r ref f (err e) same v = safe-backed w id f v
    with_runtime-backed r ref f (ok rt) same v =
        if_holds (AreBacked w.sha256) (is_connected rt.state && not (is_none rt.session))
          (fetch_into_temp w r ref f (reserve_temp (reserved_bytes w) f.space))
          (record f { db = later w r.attachment 30 f.db })
          (fetch_into_temp-backed r ref f (reserve_temp (reserved_bytes w) f.space) same v)
          (later-backed r.attachment 30 f v)

    with_reference-backed :
        (r : MediaRecord) (s : Service) (f : Files) (reference : Option ℕ)
        → r.attachment.id ≡ id
        → IsSafe w id f
        → AreBacked w.sha256 (with_reference w r s f reference)
    with_reference-backed r s f none same v = failing-backed w id r.attachment f media_unavailable v
    with_reference-backed r s f (some ref) same v =
        if_holds (AreBacked w.sha256) (ltb w.max_file r.attachment.size)
          (record f { db = block r.attachment FailureCode.too_large r.attachment.size f.db })
          (with_runtime w r ref f (runtime r.message.account_id s))
          (blocked-backed r.attachment FailureCode.too_large r.attachment.size f v)
          (with_runtime-backed r ref f (runtime r.message.account_id s) same v)

    process_found-backed :
        (s : Service) (f : Files) (found : Result MediaRecord)
        → ((r : MediaRecord) → found ≡ ok r → r.attachment.id ≡ id)
        → IsSafe w id f
        → AreBacked w.sha256 (process_found w s f found)
    process_found-backed s f (err e) own v = safe-backed w id f v
    process_found-backed s f (ok r) own v =
        if_holds (AreBacked w.sha256) (is_remote r.attachment.availability)
          (with_reference w r s f r.attachment.provider_ref) f
          (with_reference-backed r s f r.attachment.provider_ref (own r refl) v)
          (safe-backed w id f v)

get_media-id :
    (id : ℕ) (db : Database) (r : MediaRecord) → get_media id db ≡ ok r → r.attachment.id ≡ id
unfolding get_media
get_media-id id db r e =
    elim (Option-cases (find_where (λ (a : Attachment). a.id == id) db.attachments)) [
      | inl missing ↦ cc (e, ap (λ o. or_fail o not_found >>= (λ a. media_of a db)) missing)
      | inr (a, found) ↦
          let h : media_of a db ≡ ok r =
            sym (ap (λ o. or_fail o not_found >>= (λ a. media_of a db)) found) ∙ e in
          elim (Option-cases (find_where (by_id a.message_id) db.messages)) [
            | inl gone ↦ ground (arith, h, gone)
            | inr (m, there) ↦ ground (
              arith,
              h,
              there,
              find_where_holds (λ (a : Attachment). a.id == id) db.attachments a found,
            )
          ]
    ]

-- A pass of the media worker over an attachment leaves every attachment that is ready, this one or
-- another, with an object in the store that has the recorded size and hash. So it is whatever the
-- provider, the file system, the object store and the clock answer, and wherever the pass fails.
-- It is so before the pass, no ready attachment names an object under a key of this pass, and what
-- other workers do during the download keeps both.
pub process_media-AreBacked :
    (w : World) (id : ℕ) (s : Service) (f : Files)
    → ((g : Files) → IsSafe w id g → IsSafe w id (w.meanwhile g))
    → IsSafe w id f
    → AreBacked w.sha256 (process_media w id s f)
unfolding process_media
process_media-AreBacked w id s f alone v =
    if_holds (AreBacked w.sha256) w.can_read (process_found w s f (get_media id f.db)) f
      (process_found-backed w id alone s f (get_media id f.db) (λ r e. get_media-id id f.db r e) v)
      (safe-backed w id f v)
