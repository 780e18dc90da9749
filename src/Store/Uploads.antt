-- ===== src/Store/Uploads.antt =====
-- internal/store/sqlite/outgoing_media.go: the table `uploads`.
use convomeow.Base.{
  ℕ, ◌+◌, ◌*◌, Bool, true, false, ◌&&◌, ◌||◌, not, List, [], ◌∷◌, ◌++◌, ltb, leb, ◌==◌,
  if◌then◌else◌, length,
}
use convomeow.Base.Tables.{any, update_where, delete_where}
use convomeow.Core.{Result, ok, err, invalid, conflict, not_found, ◌>>◌, fail_if, second}
use convomeow.Store.Tables.{Upload, UploadState, Database}

abbrev pub is_staging : UploadState → Bool
is_staging UploadState.staging = true
is_staging _ = false

abbrev pub is_ready : UploadState → Bool
is_ready UploadState.ready = true
is_ready _ = false

abbrev pub is_deleting : UploadState → Bool
is_deleting UploadState.deleting = true
is_deleting _ = false

-- `UPDATE … WHERE p` through `requireAffected`.
abbrev pub update_one {ℓ} : {A : Type ℓ} → (A → Bool) → (A → A) → List A → Result (List A)
update_one p f rows = if any p rows then ok (update_where p f rows) else err not_found

abbrev with_uploads : Database → Result (List Upload) → Result Database
with_uploads db (ok rows) = ok (record db { uploads = rows })
with_uploads db (err e) = err e

-- `CreateUpload`
pub create_upload : Upload → ℕ → Database → Result Database
create_upload u now db = do
  fail_if
      (u.id == 0
        || (u.account_id == 0
            || (u.profile_id == 0
                || (u.object_key == 0 || (ltb u.size 1 || not (length u.sha256 == 32))))))
      invalid
  fail_if (any (λ r. r.id == u.id) db.uploads) conflict
  ok (record db {
    uploads = db.uploads ++ record u { state = UploadState.staging; created_at = now } ∷ [];
  })

-- `MarkUploadReady`
pub mark_upload_ready : ℕ → Database → Result Database
mark_upload_ready id db = with_uploads db (
    update_one (λ u. u.id == id && is_staging u.state) (λ u. record u { state = UploadState.ready })
      db.uploads)

-- `MarkUploadDeleting`
pub mark_upload_deleting : ℕ → ℕ → Database → Result Database
mark_upload_deleting account id db = with_uploads db (
    update_one (λ u. u.id == id && (u.account_id == account && not (is_deleting u.state)))
      (λ u. record u { state = UploadState.deleting }) db.uploads)

-- `now.Add(-time.Hour)`; a time before Go's zero time is before every stored one.
abbrev is_stale : ℕ → ℕ → Bool
is_stale now created_at = leb (created_at + 3600 * second) now

abbrev is_due : ℕ → Upload → Bool
is_due now u =
    is_ready u.state && leb u.expires_at now || is_staging u.state && is_stale now u.created_at

-- The update of `ListUploadsForCleanup`.
pub expire_uploads : ℕ → Database → Database
expire_uploads now db = record db {
  uploads = update_where (is_due now) (λ u. record u { state = UploadState.deleting }) db.uploads;
}

-- `ClearUpload`
pub clear_upload : ℕ → Database → Database
clear_upload id db = record db {
  uploads = delete_where (λ u. u.id == id && is_deleting u.state) db.uploads;
}
