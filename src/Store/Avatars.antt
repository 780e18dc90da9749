-- ===== src/Store/Avatars.antt =====
-- internal/store/sqlite/avatars.go: the table of avatars, and the objects that it hands over to be
-- deleted.
pub mod Tracked
use convomeow.Base.{
  ℕ, Bool, ◌&&◌, ◌||◌, not, Option, none, some, List, [], ◌∷◌, ltb, ◌==◌, if◌then◌else◌,
}
use convomeow.Base.Tables.{find_where, delete_where}
use convomeow.Core.{Result, ok, err, invalid, not_found}
use convomeow.Store.Tables.{Orphan}
use convomeow.Store.Uploads.{update_one}
use convomeow.Store.Media.{insert_orphan}

-- `core.AvatarRecord`; 0 is the empty text and the zero time.
pub record AvatarRecord : Type 0 where
  pub account_id : ℕ
  pub provider_id : ℕ
  pub picture_id : ℕ
  pub profile_id : ℕ
  pub object_key : ℕ
  pub content_type : ℕ
  pub size : ℕ
  pub checked_at : ℕ

-- `avatars`
pub record Avatar : Type 0 where
  pub account_id : ℕ
  pub provider_id : ℕ
  pub picture_id : ℕ
  pub storage_profile_id : Option ℕ
  pub object_key : Option ℕ
  pub content_type : ℕ
  pub size : ℕ
  pub checked_at : ℕ

-- The tables that the operations on avatars change.
pub record Avatars : Type 0 where
  pub rows : List Avatar
  pub orphans : List Orphan

abbrev pub is_avatar : ℕ → ℕ → Avatar → Bool
is_avatar account provider a = a.account_id == account && a.provider_id == provider

abbrev or_empty : Option ℕ → ℕ
or_empty none = 0
or_empty (some x) = x

abbrev scan_avatar : Avatar → AvatarRecord
scan_avatar a = record {
  account_id = a.account_id;
  provider_id = a.provider_id;
  picture_id = a.picture_id;
  profile_id = or_empty a.storage_profile_id;
  object_key = or_empty a.object_key;
  content_type = a.content_type;
  size = a.size;
  checked_at = a.checked_at;
}

-- `GetAvatar`
unfoldable pub get_avatar : ℕ → ℕ → Avatars → Result AvatarRecord
get_avatar account provider s = elim (find_where (is_avatar account provider) s.rows) [
  | none ↦ err not_found
  | some a ↦ ok (scan_avatar a)
]

-- The record of an avatar without a picture has no object, and the record of a picture is complete.
abbrev pub is_refused : AvatarRecord → Bool
is_refused r =
    r.account_id == 0
    || (r.provider_id == 0
        || (r.checked_at == 0
            || (r.object_key == 0
                  && (not (r.profile_id == 0)
                      || (not (r.content_type == 0)
                          || (not (r.size == 0) || not (r.picture_id == 0))))
                || not (r.object_key == 0)
                  && (r.profile_id == 0 || (r.content_type == 0 || ltb r.size 1)))))

abbrev pub avatar_row : AvatarRecord → Avatar
avatar_row r = record {
  account_id = r.account_id;
  provider_id = r.provider_id;
  picture_id = r.picture_id;
  storage_profile_id = if r.object_key == 0 then none else some r.profile_id;
  object_key = if r.object_key == 0 then none else some r.object_key;
  content_type = r.content_type;
  size = r.size;
  checked_at = r.checked_at;
}

-- `INSERT INTO avatars … ON CONFLICT(account_id, provider_id) DO UPDATE`; the key is primary.
unfoldable pub put_avatar : Avatar → List Avatar → List Avatar
put_avatar new [] = new ∷ []
put_avatar new (a ∷ rows) =
    let rest = put_avatar new rows in
    if is_avatar new.account_id new.provider_id a then new ∷ rows else a ∷ rest

abbrev pub retire_key : Option ℕ → Option ℕ → ℕ → List Orphan → List Orphan
retire_key profile none key orphans = orphans
retire_key profile (some old) key orphans =
    if old == key then orphans else insert_orphan (or_empty profile) old orphans

-- The object of the row that is replaced, unless the new one has its key.
abbrev pub retire_previous : Option Avatar → ℕ → List Orphan → List Orphan
retire_previous none key orphans = orphans
retire_previous (some a) key orphans = retire_key a.storage_profile_id a.object_key key orphans

-- `SaveAvatar`
unfoldable pub save_avatar : AvatarRecord → Avatars → Result Avatars
unfolding put_avatar
save_avatar r s =
    if is_refused r
    then err invalid
    else ok (record {
      rows = put_avatar (avatar_row r) s.rows;
      orphans =
          retire_previous (find_where (is_avatar r.account_id r.provider_id) s.rows) r.object_key
            s.orphans;
    })

abbrev with_rows : Avatars → Result (List Avatar) → Result Avatars
with_rows s (ok rows) = ok (record s { rows = rows })
with_rows s (err e) = err e

-- `TouchAvatar`
unfoldable pub touch_avatar : ℕ → ℕ → ℕ → Avatars → Result Avatars
touch_avatar account provider checked s =
    with_rows s
      (update_one (is_avatar account provider) (λ a. record a { checked_at = checked }) s.rows)

-- A row of `INSERT OR IGNORE … SELECT`: one that lacks a column is ignored.
abbrev pub retire : Option ℕ → Option ℕ → List Orphan → List Orphan
retire none key orphans = orphans
retire (some profile) none orphans = orphans
retire (some profile) (some key) orphans = insert_orphan profile key orphans

unfoldable pub retire_all : ℕ → List Avatar → List Orphan → List Orphan
retire_all account [] orphans = orphans
retire_all account (a ∷ rows) orphans =
    retire_all account rows (
      if a.account_id == account then retire a.storage_profile_id a.object_key orphans else orphans)

-- `ClearAccountAvatars`
unfoldable pub clear_account_avatars : ℕ → Avatars → Avatars
unfolding retire_all
clear_account_avatars account s = record {
  rows = delete_where (λ a. a.account_id == account) s.rows;
  orphans = retire_all account s.rows s.orphans;
}
