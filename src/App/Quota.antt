-- ===== src/App/Quota.antt =====
-- internal/app/media.go and uploads.go: the space that downloads, uploads and avatars reserve before
-- they take it.
pub mod Bounds
use convomeow.Base.{ℕ, ◌+◌, ◌-◌, ltb, if◌then◌else◌}
use convomeow.Core.{Result, ok, err, media_busy, media_quota}

-- The part of `mediaState` that counts space, with its limits. The limits are below 2^63, so what
-- the code subtracts and adds does not wrap around.
pub record Space : Type 0 where
  pub max_temp : ℕ
  pub max_total : ℕ
  pub reserved_temp : ℕ
  pub reserved_stored : ℕ

-- `reserveTemp`: `size > MaxTempBytes-reservedTemp`, where the difference may be negative.
unfoldable pub reserve_temp : ℕ → Space → Result Space
reserve_temp size s =
    if ltb s.max_temp (s.reserved_temp + size)
    then err media_busy
    else ok (record s { reserved_temp = s.reserved_temp + size })

-- `releaseTemp`
unfoldable pub release_temp : ℕ → Space → Space
release_temp size s = record s { reserved_temp = s.reserved_temp - size }

-- `reserveMediaStorage`, where `StoredMediaBytes` answers `used`.
unfoldable pub reserve_storage : ℕ → ℕ → Space → Result Space
reserve_storage size used s =
    if ltb s.max_total used
    then err media_quota
    else if ltb (s.max_total - used) s.reserved_stored
    then err media_quota
    else if ltb (s.max_total - used - s.reserved_stored) size
    then err media_quota
    else ok (record s { reserved_stored = s.reserved_stored + size })

-- `releaseMediaStorage`
unfoldable pub release_storage : ℕ → Space → Space
release_storage size s = record s { reserved_stored = s.reserved_stored - size }
