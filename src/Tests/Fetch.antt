-- ===== src/Tests/Fetch.antt =====
-- The media of a message, fetched and stored.
use convomeow.Base.{◌≡◌, refl, true, false, none, some, [], ◌∷◌}
use convomeow.Core.{ok, Kind, MediaType}
use convomeow.Store.Tables.{Attachment, Availability, FailureCode}
use convomeow.Store.Media.{get_media, stored_media_bytes, set_media_dimensions, mark_media_ready}
use convomeow.App.Quota.{reserve_temp, release_temp, reserve_storage, release_storage}
use convomeow.App.MediaFetch.{process_media}
use convomeow.App.MediaFiles.{World, Files, image_dimensions}
use convomeow.App.MediaFetch.Storing.{AreBacked}
use convomeow.App.MediaFetch.Pass.{process_media-AreBacked}
use convomeow.Tests.Sample.{database, hash, service}
use convomeow.Tests.Merges.{stored}

abbrev photo : Attachment
photo = record {
  id = 40;
  message_id = 12;
  part_index = 0;
  kind = Kind.image;
  mime_type = MediaType.png;
  file_name = 0;
  size = 5;
  availability = Availability.remote;
  provider_ref = some 3;
  auto_fetch = true;
  width = 0;
  height = 0;
  duration_seconds = 0;
  next_attempt_at = none;
  attempt_count = 0;
  failure_code = FailureCode.unset;
  required_bytes = 0;
  storage_profile_id = none;
  object_key = none;
  stored_size = none;
  stored_sha256 = none;
  media_version = 0;
}

abbrev files : Files
files = record {
  db = record database { messages = stored 12 1 100 ∷ []; attachments = photo ∷ [] };
  objects = [];
  space = record {
    max_temp = 10_000_000;
    max_total = 1_000_000;
    reserved_temp = 0;
    reserved_stored = 0;
  };
}

abbrev world : World
world = record {
  can_read = true;
  closed = false;
  now = 1_000;
  max_file = 1_000;
  create_file = ok tt;
  download = λ ref. record { new_ref = 0; file = ok (1 ∷ 2 ∷ 3 ∷ []) };
  meanwhile = λ f. f;
  stat = ok tt;
  count = ok tt;
  seek = ok tt;
  seek_again = ok tt;
  decode_config = λ file. some (640, 480);
  read = ok tt;
  sha256 = λ file. hash;
  active_profile = 1;
  key = λ account id. ok id;
  put = ok tt;
  left = none;
  can_delete = true;
  avatar_bytes = 0;
}

fetched :
    (process_media world 40 service files).objects
    ≡ record { profile_id = 1; key = 40; content = 1 ∷ 2 ∷ 3 ∷ [] } ∷ []
unfolding process_media get_media reserve_temp stored_media_bytes reserve_storage release_storage
    image_dimensions set_media_dimensions mark_media_ready release_temp
fetched = refl

process_media-AreBacked_example : AreBacked world.sha256 (process_media world 40 service files)
process_media-AreBacked_example =
    process_media-AreBacked world 40 service files (λ g v. v) ((refl, λ key own. refl), tt)
