-- ===== src/Store/Attachments/Ready.antt =====
-- Saving a message again does not take back an attachment that is stored.
use convomeow.Base.{
  ℕ, ◌≡◌, refl, sym, ap, ◌∙◌, inl, inr, Bool, true, false, some, List, [], ◌∷◌, ◌++◌, arith,
  if◌then◌else◌, Bool-cases,
}
use convomeow.Base.Tables.{
  find_where, any, update_where, find_where-update_where, find_where-append,
}
use convomeow.Core.{ok, >>=-eq-ok}
use convomeow.Store.Tables.{Attachment, Availability}
use convomeow.Store.Attachments.{
  NewAttachment, new_row, merge_row, is_part, save_attachment, save_attachments,
}

abbrev is_ready : Availability → Bool
is_ready Availability.ready = true
is_ready _ = false

-- A part that is ready is still ready, with the same object.
pub record IsKept (old new : Attachment) : Type 0 where
  pub ready : is_ready new.availability ≡ true
  pub profile : new.storage_profile_id ≡ old.storage_profile_id
  pub key : new.object_key ≡ old.object_key
  pub size : new.stored_size ≡ old.stored_size
  pub sha256 : new.stored_sha256 ≡ old.stored_sha256

merge_row-IsKept :
    (new old : Attachment) → is_ready old.availability ≡ true → IsKept old (merge_row new old)
unfolding merge_row
merge_row-IsKept new old h = record {
  ready = ground (arith, h);
  profile = refl;
  key = refl;
  size = refl;
  sha256 = refl;
}

if-IsKept :
    (b : Bool) (new old : Attachment)
    → is_ready old.availability ≡ true
    → IsKept old (if b then merge_row new old else old)
if-IsKept true new old h = merge_row-IsKept new old h
if-IsKept false new old h = record {
  ready = h;
  profile = refl;
  key = refl;
  size = refl;
  sha256 = refl;
}

part-merge_row :
    (message index : ℕ) (new x : Attachment)
    → is_part message index (merge_row new x) ≡ is_part message index x
unfolding merge_row
part-merge_row message index new x = refl

save_attachment-IsKept :
    (message m i : ℕ) (a : NewAttachment) (rows after : List Attachment) (old : Attachment)
    → save_attachment message a rows ≡ ok after
    → find_where (is_part m i) rows ≡ some old
    → is_ready old.availability ≡ true
    → (new : Attachment) × (find_where (is_part m i) after ≡ some new) × IsKept old new
unfolding save_attachment
save_attachment-IsKept message m i a rows after old e found ready =
    elim (Bool-cases (any (is_part message a.index) rows)) [
      | inl there ↦
          let same : update_where (is_part message a.index) (merge_row (new_row message a)) rows
              ≡ after =
            ground (arith, there) in
          (
            (if is_part message a.index old then merge_row (new_row message a) old else old),
            ap (find_where (is_part m i)) (sym same)
                ∙ (find_where-update_where (is_part message a.index) (is_part m i)
                      (merge_row (new_row message a)) rows
                      (λ x h. part-merge_row m i (new_row message a) x)
                    ∙ rw found refl),
            if-IsKept (is_part message a.index old) (new_row message a) old ready,
          )
      | inr new ↦
          let same : rows ++ new_row message a ∷ [] ≡ after = ground (arith, new) in
          (
            old,
            ap (find_where (is_part m i)) (sym same)
                ∙ (find_where-append (is_part m i) rows (new_row message a ∷ []) ∙ rw found refl),
            if-IsKept false old old ready,
          )
    ]

IsKept-trans : (a b c : Attachment) → IsKept a b → IsKept b c → IsKept a c
IsKept-trans a b c v w = record {
  ready = w.ready;
  profile = w.profile ∙ v.profile;
  key = w.key ∙ v.key;
  size = w.size ∙ v.size;
  sha256 = w.sha256 ∙ v.sha256;
}

-- Saving the attachments of a message, of this one or of another, keeps each part that is ready: it
-- is still there, ready, and names the same object with the same size and hash.
pub save_attachments-IsKept :
    (message m i : ℕ) (attachments : List NewAttachment) (rows after : List Attachment)
    (old : Attachment)
    → save_attachments message attachments rows ≡ ok after
    → find_where (is_part m i) rows ≡ some old
    → is_ready old.availability ≡ true
    → (new : Attachment) × (find_where (is_part m i) after ≡ some new) × IsKept old new
unfolding save_attachments
save_attachments-IsKept message m i [] rows after old e found ready =
    let same : rows ≡ after = ground arith in
    (old, ap (find_where (is_part m i)) (sym same) ∙ found, if-IsKept false old old ready)
save_attachments-IsKept message m i (a ∷ rest) rows after old e found ready =
    let (next, f, g) = >>=-eq-ok (save_attachment message a rows) _ e in
    let (mid, there, v) = save_attachment-IsKept message m i a rows next old f found ready in
    let (new, last, w) = save_attachments-IsKept message m i rest next after mid g there v.ready in
    (new, last, IsKept-trans old mid new v w)
