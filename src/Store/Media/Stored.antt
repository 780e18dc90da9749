-- ===== src/Store/Media/Stored.antt =====
-- A ready attachment is one whose object is stored.
use convomeow.Base.{
  ℕ, ◌≡◌, refl, inl, inr, Bool, true, false, ◌&&◌, ◌||◌, not, Option, none, some, List, [], ◌∷◌,
  arith, ltb, ◌==◌, if◌then◌else◌, length, Bool-cases, All, is_none, subst,
}
use convomeow.Base.Text.{Text}
use convomeow.Base.Tables.{update_where}
use convomeow.Core.{Result, ok, >>=-eq-ok, fail_if, invalid}
use convomeow.Store.Tables.{Attachment, FailureCode}
use convomeow.Base.Tables.{any}
use convomeow.Base.{◌++◌}
use convomeow.Store.Tables.{Upload}
use convomeow.Store.Messages.{NewMessage}
use convomeow.Store.MediaJobs.{attachment_of, insert_attachment}
use convomeow.Store.Attachments.{
  NewAttachment, new_row, merge_row, is_part, save_attachment, save_attachments,
}
use convomeow.Store.Uploads.{update_one}
use convomeow.Store.Media.{
  is_ready, is_remote, is_reason, mark_media_ready, mark_media_remote, mark_media_unavailable,
  update_media_ref, schedule_media_retry, block_media, clear_media_block, set_media_dimensions,
  ready_row, remote_row, unavailable_row, referenced_row, retry_row, block_row, clear_row,
  sized_row,
}

abbrev is_hash : Option Text → Bool
is_hash none = false
is_hash (some h) = length h == 32

abbrev has_object : Attachment → Bool
has_object a =
    not (is_none a.storage_profile_id)
    && (not (is_none a.object_key) && (not (is_none a.stored_size) && is_hash a.stored_sha256))

abbrev has_none : Attachment → Bool
has_none a =
    is_none a.storage_profile_id
    && (is_none a.object_key && (is_none a.stored_size && is_none a.stored_sha256))

abbrev is_idle : Attachment → Bool
is_idle a = not (is_reason a.failure_code) && is_none a.next_attempt_at

-- An attachment that is ready names its object, with its size and a hash of 32 bytes, is blocked by
-- no limit and has no time for another download; one that is not ready names no object.
abbrev pub is_stored : Attachment → Bool
is_stored a = if is_ready a.availability then has_object a && is_idle a else has_none a

-- The operations on attachments: those of media.go, `saveAttachmentsTx`, and the insertion of an
-- upload's attachment. The merge of two messages is not among them.
pub data Op : Type 0 where
  ready : ℕ → ℕ → ℕ → ℕ → Text → Op
  remote : ℕ → ℕ → Op
  unavailable : ℕ → Op
  reference : ℕ → ℕ → Op
  retry : ℕ → ℕ → ℕ → Op
  block : ℕ → FailureCode → ℕ → Op
  clear : ℕ → Op
  dimensions : ℕ → ℕ → ℕ → Op
  save : ℕ → List NewAttachment → Op
  upload : NewMessage → Upload → Op

-- What is reported with a message is not stored yet, and the hash of an upload has 32 bytes.
abbrev pub is_sound : Op → Bool
is_sound (Op.save message attachments) =
    not (any (λ (a : NewAttachment). is_ready a.availability) attachments)
is_sound (Op.upload m u) = length u.sha256 == 32
is_sound _ = true

unfoldable pub apply : Op → List Attachment → Result (List Attachment)
apply (Op.ready id profile key size sha256) rows = mark_media_ready id profile key size sha256 rows
apply (Op.remote id version) rows = mark_media_remote id version rows
apply (Op.unavailable id) rows = mark_media_unavailable id rows
apply (Op.reference id ref) rows = update_media_ref id ref rows
apply (Op.retry id next attempts) rows = schedule_media_retry id next attempts rows
apply (Op.block id reason required) rows = block_media id reason required rows
apply (Op.clear id) rows = clear_media_block id rows
apply (Op.dimensions id width height) rows = set_media_dimensions id width height rows
apply (Op.save message attachments) rows = save_attachments message attachments rows
apply (Op.upload m u) rows = insert_attachment (attachment_of m u) rows

abbrev pub IsValid : List Attachment → Type 0
IsValid rows = All (λ a. is_stored a ≡ true) rows

update_where-IsValid :
    (p : Attachment → Bool) (f : Attachment → Attachment) (rows : List Attachment)
    → ((a : Attachment) → p a ≡ true → is_stored a ≡ true → is_stored (f a) ≡ true)
    → IsValid rows
    → IsValid (update_where p f rows)
update_where-IsValid p f [] h v = tt
update_where-IsValid p f (a ∷ rows) h v = elim (Bool-cases (p a)) [
  | inl e ↦ rw e (h a e v.0, update_where-IsValid p f rows h v.1)
  | inr e ↦ rw e (v.0, update_where-IsValid p f rows h v.1)
]

update_one-IsValid :
    (p : Attachment → Bool) (f : Attachment → Attachment) (rows after : List Attachment)
    → ((a : Attachment) → p a ≡ true → is_stored a ≡ true → is_stored (f a) ≡ true)
    → update_one p f rows ≡ ok after
    → IsValid rows
    → IsValid after
update_one-IsValid p f rows after h e v =
    let same : update_where p f rows ≡ after = ground arith in
    subst IsValid same (update_where-IsValid p f rows h v)

append-IsValid :
    (rows : List Attachment) (a : Attachment)
    → is_stored a ≡ true
    → IsValid rows
    → IsValid (rows ++ a ∷ [])
append-IsValid [] a h v = (h, tt)
append-IsValid (x ∷ rows) a h v = (v.0, append-IsValid rows a h v.1)

new_row-is_stored :
    (message : ℕ) (a : NewAttachment)
    → is_ready a.availability ≡ false
    → is_stored (new_row message a) ≡ true
unfolding new_row
new_row-is_stored message a h = ground (arith, h)

merge_row-is_stored :
    (message : ℕ) (a : NewAttachment) (old : Attachment)
    → is_ready a.availability ≡ false
    → is_stored old ≡ true
    → is_stored (merge_row (new_row message a) old) ≡ true
unfolding new_row merge_row
merge_row-is_stored message a old h v = ground (arith, h, v)

save_attachment-IsValid :
    (message : ℕ) (a : NewAttachment) (rows after : List Attachment)
    → is_ready a.availability ≡ false
    → save_attachment message a rows ≡ ok after
    → IsValid rows
    → IsValid after
unfolding save_attachment
save_attachment-IsValid message a rows after h e v =
    elim (Bool-cases (any (is_part message a.index) rows)) [
      | inl there ↦
          let same : update_where (is_part message a.index) (merge_row (new_row message a)) rows
              ≡ after =
            ground (arith, there) in
          subst IsValid same (
            update_where-IsValid (is_part message a.index) (merge_row (new_row message a)) rows
              (λ x p s. merge_row-is_stored message a x h s) v)
      | inr new ↦
          let same : rows ++ new_row message a ∷ [] ≡ after = ground (arith, new) in
          subst IsValid same
            (append-IsValid rows (new_row message a) (new_row-is_stored message a h) v)
    ]

save_attachments-IsValid :
    (message : ℕ) (attachments : List NewAttachment) (rows after : List Attachment)
    → any (λ (a : NewAttachment). is_ready a.availability) attachments ≡ false
    → save_attachments message attachments rows ≡ ok after
    → IsValid rows
    → IsValid after
unfolding save_attachments
save_attachments-IsValid message [] rows after h e v =
    let same : rows ≡ after = ground arith in subst IsValid same v
save_attachments-IsValid message (a ∷ rest) rows after h e v =
    let (next, f, g) = >>=-eq-ok (save_attachment message a rows) _ e in
    save_attachments-IsValid message rest next after (ground (arith, h)) g
      (save_attachment-IsValid message a rows next (ground (arith, h)) f v)

-- Each change of media.go, each save of the attachments of a message that is reported, and the
-- insertion of the attachment of an upload keeps this of all attachments, where it succeeds: one
-- that is ready names its object, with its size and a hash of 32 bytes, is blocked by no limit and
-- has no time for another download; one that is not ready names no object. What is reported is not
-- ready, and the hash of the upload has 32 bytes.
pub apply-IsStored :
    (op : Op) (rows after : List Attachment)
    → is_sound op ≡ true
    → apply op rows ≡ ok after
    → IsValid rows
    → IsValid after
unfolding apply mark_media_ready mark_media_remote mark_media_unavailable update_media_ref
    schedule_media_retry block_media clear_media_block insert_attachment set_media_dimensions
apply-IsStored (Op.ready id profile key size sha256) rows after sound e v =
    let (u, f, g) =
      >>=-eq-ok
        (fail_if (id == 0 || (profile == 0 || (key == 0 || not (length sha256 == 32)))) invalid) _
        e in
    update_one-IsValid (λ a. a.id == id && is_remote a.availability)
      (ready_row profile key size sha256) rows after (λ a p s. ground (arith, f)) g v
apply-IsStored (Op.remote id version) rows after sound e v =
    update_one-IsValid
      (λ a.
        a.id == id
        && (is_ready a.availability
            && (not (is_none a.provider_ref) && a.media_version == version)))
      remote_row rows after (λ a p s. refl) e v
apply-IsStored (Op.unavailable id) rows after sound e v =
    update_one-IsValid (λ a. a.id == id && (is_remote a.availability || is_ready a.availability))
      unavailable_row rows after (λ a p s. refl) e v
apply-IsStored (Op.reference id ref) rows after sound e v =
    let (u, f, g) = >>=-eq-ok (fail_if (ref == 0) invalid) _ e in
    update_one-IsValid (λ a. a.id == id && not (is_ready a.availability)) (referenced_row ref) rows
      after (λ a p s. ground arith) g v
apply-IsStored (Op.retry id next attempts) rows after sound e v =
    update_one-IsValid (λ a. a.id == id && is_remote a.availability) (retry_row next attempts) rows
      after (λ a p s. ground arith) e v
apply-IsStored (Op.block id reason required) rows after sound e v =
    let (u, f, g) = >>=-eq-ok (fail_if (not (is_reason reason) || ltb required 1) invalid) _ e in
    update_one-IsValid (λ a. a.id == id && is_remote a.availability) (block_row reason required)
      rows after (λ a p s. ground arith) g v
apply-IsStored (Op.clear id) rows after sound e v =
    update_one-IsValid (λ a. a.id == id && is_remote a.availability) clear_row rows after
      (λ a p s. ground arith) e v
apply-IsStored (Op.dimensions id width height) rows after sound e v =
    let (u, f, g) = >>=-eq-ok (fail_if (width == 0 || height == 0) invalid) _ e in
    update_one-IsValid (λ a. a.id == id) (sized_row width height) rows after (λ a p s. s) g v
apply-IsStored (Op.save message attachments) rows after sound e v =
    save_attachments-IsValid message attachments rows after (ground (arith, sound)) e v
apply-IsStored (Op.upload m u) rows after sound e v =
    let same : rows ++ attachment_of m u ∷ [] ≡ after = ground arith in
    subst IsValid same (append-IsValid rows (attachment_of m u) (ground (arith, sound)) v)
