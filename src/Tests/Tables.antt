-- ===== src/Tests/Tables.antt =====
-- Links and attachments.
use convomeow.Base.{ℕ, ◌≡◌, refl, ◌≢◌, Bool, true, none, some, List, [], ◌∷◌}
use convomeow.Core.{ok, Kind, MediaType}
use convomeow.Store.Tables.{Link, Attachment, Availability, FailureCode}
use convomeow.Store.Links.{linked_jids, contains}
use convomeow.Store.Links.{link_pair}
use convomeow.Store.Links.Symmetric.{has_link, link_pair-symmetric}
use convomeow.Store.Links.Closure.{IsClosed, linked_jids_least}
use convomeow.Base.Tables.{find_where}
use convomeow.Store.Attachments.{
  NewAttachment, new_row, merge_row, is_part, save_attachment, save_attachments,
}
use convomeow.Store.Attachments.Ready.{IsKept, save_attachments-IsKept}
use convomeow.Store.Media.{mark_media_ready}
use convomeow.Store.Media.Stored.{Op, apply, IsValid, apply-IsStored}
use convomeow.Tests.Sample.{is_ok, ok_of, hash}

abbrev link : ℕ → ℕ → Link
link a b = record { account_id = 1; jid = a; peer_jid = b }

abbrev links : List Link
links = link 3 4 ∷ link 4 3 ∷ link 4 5 ∷ link 5 4 ∷ []

linked_jids_least_example :
    (r : List ℕ) × (linked_jids 1 (3 ∷ []) links ≡ some r)
    × ((a : ℕ) → contains (3 ∷ []) a ≡ true → a ≢ 0 → contains r a ≡ true)
    × IsClosed 1 links (contains r)
    × ((S : ℕ → Bool)
        → IsClosed 1 links S
        → ((a : ℕ) → contains (3 ∷ []) a ≡ true → a ≢ 0 → S a ≡ true)
        → (a : ℕ) → contains r a ≡ true
        → S a ≡ true)
linked_jids_least_example = linked_jids_least 1 (3 ∷ []) links

link_pair-symmetric_example :
    has_link 1 3 4 (link_pair 1 3 4 []) ≡ has_link 1 4 3 (link_pair 1 3 4 [])
link_pair-symmetric_example = link_pair-symmetric 1 3 4 1 3 4 [] (λ i x y. refl)

abbrev waiting : Attachment
waiting = record {
  id = 2;
  message_id = 7;
  part_index = 0;
  kind = Kind.image;
  mime_type = MediaType.png;
  file_name = 0;
  size = 100;
  availability = Availability.remote;
  provider_ref = some 1;
  auto_fetch = true;
  width = 0;
  height = 0;
  duration_seconds = 0;
  next_attempt_at = some 5;
  attempt_count = 1;
  failure_code = FailureCode.unset;
  required_bytes = 0;
  storage_profile_id = none;
  object_key = none;
  stored_size = none;
  stored_sha256 = none;
  media_version = 0;
}

stored_ok : is_ok (apply (Op.ready 2 1 50 100 hash) (waiting ∷ [])) ≡ true
unfolding apply mark_media_ready
stored_ok = refl

abbrev stored : (r : List Attachment) × (apply (Op.ready 2 1 50 100 hash) (waiting ∷ []) ≡ ok r)
stored = ok_of (apply (Op.ready 2 1 50 100 hash) (waiting ∷ [])) stored_ok

apply-IsStored_example : IsValid stored.0
apply-IsStored_example =
    apply-IsStored (Op.ready 2 1 50 100 hash) (waiting ∷ []) stored.0 refl stored.1 (refl, tt)

abbrev again : NewAttachment
again = record {
  id = 2;
  fresh_id = 9;
  index = 0;
  kind = Kind.image;
  mime_type = MediaType.png;
  file_name = 0;
  size = 100;
  duration_seconds = 0;
  width = 0;
  height = 0;
  availability = Availability.remote;
  provider_ref = some 3;
  auto_fetch = true;
}

abbrev fetched : Attachment
fetched = record waiting {
  availability = Availability.ready;
  storage_profile_id = some 1;
  object_key = some 50;
  stored_size = some 100;
  stored_sha256 = some hash;
}

saved_ok : is_ok (save_attachments 7 (again ∷ []) (fetched ∷ [])) ≡ true
unfolding save_attachments save_attachment merge_row new_row
saved_ok = refl

abbrev saved : (r : List Attachment) × (save_attachments 7 (again ∷ []) (fetched ∷ []) ≡ ok r)
saved = ok_of (save_attachments 7 (again ∷ []) (fetched ∷ [])) saved_ok

save_attachments-IsKept_example :
    (new : Attachment) × (find_where (is_part 7 0) saved.0 ≡ some new) × IsKept fetched new
save_attachments-IsKept_example =
    save_attachments-IsKept 7 7 0 (again ∷ []) (fetched ∷ []) saved.0 fetched saved.1 refl refl
