-- ===== src/App/MediaFetch/Backed.antt =====
-- Every attachment that is ready has its object, whatever goes wrong while media is fetched.
use convomeow.Base.{
  ℕ, ◌≡◌, refl, inl, inr, Bool, true, false, ◌&&◌, ◌||◌, not, Option, none, some, List, arith, ltb,
  ◌==◌, length, Bool-cases,
}
use convomeow.Base.{All, subst}
use convomeow.Base.Text.{Text, text_eq}
use convomeow.Base.Tables.{All-update_where, find_where, update_where, find_where-delete_other}
use convomeow.Core.{fail_if, invalid, Result, ok, err, >>=-eq-ok}
use convomeow.Store.Tables.{Attachment, Database, FailureCode}
use convomeow.Store.Uploads.{update_one}
use convomeow.Store.Media.{
  is_ready, is_remote, is_reason, mark_media_unavailable, update_media_ref, schedule_media_retry,
  block_media, set_media_dimensions, unavailable_row, referenced_row, retry_row, block_row,
  sized_row,
}
use convomeow.App.MediaFetch.{put_object, delete_object, names}
use convomeow.App.MediaFiles.{Object, World, is_object, kept_rows}

abbrev matches : (Text → Text) → Option ℕ → Option Text → Option Object → Bool
matches sha256 size hash none = false
matches sha256 none hash (some o) = false
matches sha256 (some n) none (some o) = false
matches sha256 (some n) (some h) (some o) = length o.content == n && text_eq (sha256 o.content) h

abbrev found_at : List Object → Option ℕ → Option ℕ → Option Object
found_at objects none key = none
found_at objects (some p) none = none
found_at objects (some p) (some k) = find_where (is_object p k) objects

-- The object that a ready attachment names is there, with its size and its hash.
abbrev pub is_backed : (Text → Text) → List Object → Attachment → Bool
is_backed sha256 objects a =
    not (is_ready a.availability)
    || matches sha256 a.stored_size a.stored_sha256
        (found_at objects a.storage_profile_id a.object_key)

abbrev differ : ℕ → ℕ → Option ℕ → Option ℕ → Bool
differ profile key (some p) (some k) = not (k == key && p == profile)
differ profile key p k = true

found-put :
    (profile key : ℕ) (content : Text) (objects : List Object) (p k : Option ℕ)
    → differ profile key p k ≡ true
    → found_at (put_object profile key content objects) p k ≡ found_at objects p k
found-put profile key content objects none k h = refl
found-put profile key content objects (some p) none h = refl
found-put profile key content objects (some p) (some k) h = ground (
  arith,
  find_where-delete_other (is_object profile key) (is_object p k) objects (λ x e. ground arith),
)

found-delete :
    (reached : Bool) (profile key : ℕ) (objects : List Object) (p k : Option ℕ)
    → differ profile key p k ≡ true
    → found_at (delete_object reached profile key objects) p k ≡ found_at objects p k
found-delete false profile key objects p k h = refl
found-delete true profile key objects none k h = refl
found-delete true profile key objects (some p) none h = refl
found-delete true profile key objects (some p) (some k) h =
    find_where-delete_other (is_object profile key) (is_object p k) objects (λ x e. ground arith)

differ-names :
    (profile key : ℕ) (a : Attachment)
    → is_ready a.availability ≡ true
    → names profile key a ≡ false
    → differ profile key a.storage_profile_id a.object_key ≡ true
differ-names profile key a r h = ground arith

-- A pass works for one attachment, with the keys that it may get for that.
module _ (w : World) (id : ℕ) where
  abbrev pub IsOwnKey : ℕ → Type 0
  IsOwnKey key = (account : ℕ) × (w.key account id ≡ ok key)

  -- A row that is backed, and that does not name the object of this pass.
  abbrev pub IsSound : List Object → Attachment → Type 0
  IsSound objects a =
      (is_backed w.sha256 objects a ≡ true)
      × ((key : ℕ) → IsOwnKey key → names w.active_profile key a ≡ false)

  -- Nothing but the pass itself may name its object, and every ready attachment has its own.
  abbrev pub AreSound : List Object → List Attachment → Type 0
  AreSound objects rows = All (IsSound objects) rows

  pub backed_after_put :
      (key : ℕ) (content : Text) (objects : List Object) (a : Attachment)
      → IsOwnKey key
      → IsSound objects a
      → IsSound (put_object w.active_profile key content objects) a
  backed_after_put key content objects a own (backed, free) = (
    elim (Bool-cases (is_ready a.availability)) [
      | inr e ↦ ground (arith, e)
      | inl e ↦ ground (
        arith,
        e,
        backed,
        found-put w.active_profile key content objects a.storage_profile_id a.object_key
            (differ-names w.active_profile key a e (free key own)),
      )
    ],
    free,
  )

  pub backed_after_delete :
      (reached : Bool) (key : ℕ) (objects : List Object) (a : Attachment)
      → IsOwnKey key
      → IsSound objects a
      → IsSound (delete_object reached w.active_profile key objects) a
  backed_after_delete reached key objects a own (backed, free) = (
    elim (Bool-cases (is_ready a.availability)) [
      | inr e ↦ ground (arith, e)
      | inl e ↦ ground (
        arith,
        e,
        backed,
        found-delete reached w.active_profile key objects a.storage_profile_id a.object_key
            (differ-names w.active_profile key a e (free key own)),
      )
    ],
    free,
  )

  update_one_sound :
      (objects : List Object) (p : Attachment → Bool) (f : Attachment → Attachment)
      (rows after : List Attachment)
      → ((a : Attachment) → p a ≡ true → IsSound objects a → IsSound objects (f a))
      → update_one p f rows ≡ ok after
      → AreSound objects rows
      → AreSound objects after
  update_one_sound objects p f rows after h e v =
      let same : update_where p f rows ≡ after = ground arith in
      subst (AreSound objects) same
        (All-update_where (IsSound objects) (IsSound objects) p f rows h (λ a s. s) v)

  pub kept_sound :
      (objects : List Object) (db : Database) (r : Result (List Attachment))
      → ((after : List Attachment) → r ≡ ok after → AreSound objects after)
      → AreSound objects db.attachments
      → AreSound objects (kept_rows db r).attachments
  kept_sound objects db (ok rows) h v = h rows refl
  kept_sound objects db (err e) h v = v

  pub unavailable_sound :
      (objects : List Object) (i : ℕ) (rows after : List Attachment)
      → mark_media_unavailable i rows ≡ ok after
      → AreSound objects rows
      → AreSound objects after
  unfolding mark_media_unavailable
  unavailable_sound objects i rows after e v =
      update_one_sound objects
        (λ a. a.id == i && (is_remote a.availability || is_ready a.availability)) unavailable_row
        rows after (λ a p s. (refl, λ key own. refl)) e v

  pub retry_sound :
      (objects : List Object) (i next attempts : ℕ) (rows after : List Attachment)
      → schedule_media_retry i next attempts rows ≡ ok after
      → AreSound objects rows
      → AreSound objects after
  unfolding schedule_media_retry
  retry_sound objects i next attempts rows after e v =
      update_one_sound objects (λ a. a.id == i && is_remote a.availability)
        (retry_row next attempts) rows after (λ a p s. s) e v

  pub block_sound :
      (objects : List Object) (i required : ℕ) (reason : FailureCode) (rows after : List Attachment)
      → block_media i reason required rows ≡ ok after
      → AreSound objects rows
      → AreSound objects after
  unfolding block_media
  block_sound objects i required reason rows after e v =
      let (u, f, g) = >>=-eq-ok (fail_if (not (is_reason reason) || ltb required 1) invalid) _ e in
      update_one_sound objects (λ a. a.id == i && is_remote a.availability)
        (block_row reason required) rows after (λ a p s. s) g v

  pub reference_sound :
      (objects : List Object) (i ref : ℕ) (rows after : List Attachment)
      → update_media_ref i ref rows ≡ ok after
      → AreSound objects rows
      → AreSound objects after
  unfolding update_media_ref
  reference_sound objects i ref rows after e v =
      let (u, f, g) = >>=-eq-ok (fail_if (ref == 0) invalid) _ e in
      update_one_sound objects (λ a. a.id == i && not (is_ready a.availability))
        (referenced_row ref) rows after (λ a p s. (refl, λ key own. refl)) g v

  pub dimensions_sound :
      (objects : List Object) (i width height : ℕ) (rows after : List Attachment)
      → set_media_dimensions i width height rows ≡ ok after
      → AreSound objects rows
      → AreSound objects after
  unfolding set_media_dimensions
  dimensions_sound objects i width height rows after e v =
      let (u, f, g) = >>=-eq-ok (fail_if (width == 0 || height == 0) invalid) _ e in
      update_one_sound objects (λ a. a.id == i) (sized_row width height) rows after (λ a p s. s) g v
