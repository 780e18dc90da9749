-- ===== src/App/MediaFetch/Storing.antt =====
-- From the file that was downloaded to the object of an attachment that is ready.
use convomeow.Base.{
  ℕ, suc, ◌≡◌, refl, true, ◌&&◌, ◌||◌, not, Option, none, some, List, arith, ◌==◌, length,
}
use convomeow.Base.{All, subst, if_holds}
use convomeow.Base.Text.{Text, text_eq_refl}
use convomeow.Base.Tables.{All-update_where, All-mono, update_where}
use convomeow.Core.{fail_if, invalid, Result, ok, err, Error, >>=-eq-ok}
use convomeow.Store.Tables.{Attachment, Database, FailureCode}
use convomeow.Store.Media.{
  is_remote, mark_media_ready, mark_media_unavailable, schedule_media_retry, ready_row,
}
use convomeow.App.MediaFetch.{
  put_object, delete_object, still_named, failing, after_put, left_behind, recorded, unrecorded,
}
use convomeow.App.MediaFiles.{
  Object, Files, World, kept_rows, note_failure, is_unavailable, next_try, media_failure, block,
}
use convomeow.App.MediaFetch.Backed.{
  is_backed, IsOwnKey, IsSound, AreSound, backed_after_put, backed_after_delete, kept_sound,
  unavailable_sound, retry_sound, block_sound,
}

abbrev pub AreBacked : (Text → Text) → Files → Type 0
AreBacked sha256 f = All (λ a. is_backed sha256 f.objects a ≡ true) f.db.attachments

module _ (w : World) (id : ℕ) where
  abbrev pub IsSafe : Files → Type 0
  IsSafe f = AreSound w id f.objects f.db.attachments

  pub safe-backed : (f : Files) → IsSafe f → AreBacked w.sha256 f
  safe-backed f v =
      All-mono (IsSound w id f.objects) (λ a. is_backed w.sha256 f.objects a ≡ true)
        f.db.attachments (λ a s. s.0) v

  abbrev pub Keeps : List Object → Database → Type 0
  Keeps objects db = AreSound w id objects db.attachments

  pub later_sound :
      (objects : List Object) (a : Attachment) (next attempts : ℕ) (db : Database)
      → Keeps objects db
      → Keeps objects (kept_rows db (schedule_media_retry a.id next attempts db.attachments))
  later_sound objects a next attempts db v =
      kept_sound w id objects db _
        (λ rows e. retry_sound w id objects a.id next attempts db.attachments rows e v) v

  media_failure_sound :
      (objects : List Object) (a : Attachment) (e : Error) (db : Database)
      → Keeps objects db
      → Keeps objects (media_failure w a e db)
  unfolding media_failure
  media_failure_sound objects a e db v =
      if_holds (Keeps objects) w.closed db (note_failure w a e db) v (
        if_holds (Keeps objects) (is_unavailable e)
          (kept_rows db (mark_media_unavailable a.id db.attachments))
          (kept_rows db (
            schedule_media_retry a.id (next_try w.now (suc a.attempt_count)) (suc a.attempt_count)
              db.attachments))
          (kept_sound w id objects db (mark_media_unavailable a.id db.attachments)
            (λ rows e. unavailable_sound w id objects a.id db.attachments rows e v) v)
          (later_sound objects a (next_try w.now (suc a.attempt_count)) (suc a.attempt_count) db v))

  pub blocked_sound :
      (objects : List Object) (a : Attachment) (reason : FailureCode) (n : ℕ) (db : Database)
      → Keeps objects db
      → Keeps objects (block a reason n db)
  unfolding block
  blocked_sound objects a reason n db v =
      kept_sound w id objects db _
        (λ rows e. block_sound w id objects a.id n reason db.attachments rows e v) v

  -- The object is stored before the attachment is made ready.
  ready-backed :
      (key : ℕ) (file : Text) (objects : List Object) (i : ℕ) (rows after : List Attachment)
      → IsOwnKey w id key
      → mark_media_ready i w.active_profile key (length file) (w.sha256 file) rows ≡ ok after
      → AreSound w id objects rows
      → All (λ a. is_backed w.sha256 (put_object w.active_profile key file objects) a ≡ true) after
  unfolding mark_media_ready
  ready-backed key file objects i rows after own e v =
      let (u, f, g) =
        >>=-eq-ok
          (fail_if
            (i == 0 || (w.active_profile == 0 || (key == 0 || not (length (w.sha256 file) == 32))))
            invalid)
          _ e in
      let stored = put_object w.active_profile key file objects in
      let row = ready_row w.active_profile key (length file) (w.sha256 file) in
      let p = λ (a : Attachment). a.id == i && is_remote a.availability in
      let same : update_where p row rows ≡ after = ground arith in
      subst (All (λ a. is_backed w.sha256 stored a ≡ true)) same (
        All-update_where (IsSound w id objects) (λ a. is_backed w.sha256 stored a ≡ true) p row rows
          (λ a s t. ground (arith, text_eq_refl (w.sha256 file)))
          (λ a s. (backed_after_put w id key file objects a own s).0) v)

  put_sound :
      (key : ℕ) (file : Text) (objects : List Object) (rows : List Attachment)
      → IsOwnKey w id key
      → AreSound w id objects rows
      → AreSound w id (put_object w.active_profile key file objects) rows
  put_sound key file objects rows own v =
      All-mono (IsSound w id objects) (IsSound w id (put_object w.active_profile key file objects))
        rows (λ a s. backed_after_put w id key file objects a own s) v

  delete_sound :
      (key : ℕ) (objects : List Object) (rows : List Attachment)
      → IsOwnKey w id key
      → AreSound w id objects rows
      → AreSound w id (delete_object w.can_delete w.active_profile key objects) rows
  delete_sound key objects rows own v =
      All-mono (IsSound w id objects)
        (IsSound w id (delete_object w.can_delete w.active_profile key objects)) rows
        (λ a s. backed_after_delete w id w.can_delete key objects a own s) v

  unrecorded_sound :
      (a : Attachment) (key : ℕ) (e : Error) (f : Files)
      → IsOwnKey w id key
      → IsSafe f
      → IsSafe (unrecorded w a key e f)
  unfolding unrecorded
  unrecorded_sound a key e f own v =
      if_holds (λ objects. Keeps objects (media_failure w a e f.db)) (still_named w a key f)
        f.objects (delete_object w.can_delete w.active_profile key f.objects)
        (media_failure_sound f.objects a e f.db v)
        (media_failure_sound (delete_object w.can_delete w.active_profile key f.objects) a e f.db
          (delete_sound key f.objects f.db.attachments own v))

  left_sound :
      (key : ℕ) (left : Option Text) (objects : List Object) (rows : List Attachment)
      → IsOwnKey w id key
      → AreSound w id objects rows
      → AreSound w id (left_behind w.active_profile key left objects) rows
  left_sound key none objects rows own v = v
  left_sound key (some content) objects rows own v = put_sound key content objects rows own v

  recorded-backed :
      (a : Attachment) (key : ℕ) (file : Text) (f : Files) (r : Result (List Attachment))
      → IsOwnKey w id key
      → mark_media_ready a.id w.active_profile key (length file) (w.sha256 file) f.db.attachments
        ≡ r
      → IsSafe f
      → AreBacked w.sha256 (
          recorded w a key
            (record f { objects = put_object w.active_profile key file f.objects })
            r)
  recorded-backed a key file f (ok rows) own e v =
      ready-backed key file f.objects a.id f.db.attachments rows own e v
  recorded-backed a key file f (err failure) own e v =
      let stored = record f { objects = put_object w.active_profile key file f.objects } in
      safe-backed (unrecorded w a key failure stored) (
        unrecorded_sound a key failure stored own
          (put_sound key file f.objects f.db.attachments own v))

  pub failing-backed :
      (a : Attachment) (f : Files) (e : Error) → IsSafe f → AreBacked w.sha256 (failing w a f e)
  failing-backed a f e v = safe-backed (failing w a f e) (media_failure_sound f.objects a e f.db v)

  pub after_put-backed :
      (a : Attachment) (key : ℕ) (file : Text) (f : Files) (put : Result (Unit {0}))
      → IsOwnKey w id key
      → IsSafe f
      → AreBacked w.sha256 (after_put w a key file f put)
  after_put-backed a key file f (ok done) own v =
      recorded-backed a key file f
        (mark_media_ready a.id w.active_profile key (length file) (w.sha256 file) f.db.attachments)
        own refl v
  after_put-backed a key file f (err e) own v =
      let left = left_behind w.active_profile key w.left f.objects in
      safe-backed (after_put w a key file f (err e)) (
        media_failure_sound (delete_object w.can_delete w.active_profile key left) a e f.db (
          delete_sound key left f.db.attachments own
            (left_sound key w.left f.objects f.db.attachments own v)))
