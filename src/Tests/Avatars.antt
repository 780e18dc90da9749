-- ===== src/Tests/Avatars.antt =====
-- The table of avatars.
use convomeow.Base.{ℕ, ◌≡◌, refl, true, List, [], ◌∷◌, arith}
use convomeow.Core.{ok}
use convomeow.Store.Avatars.{AvatarRecord, Avatars, save_avatar, put_avatar}
use convomeow.Store.Avatars.Tracked.{Op, is_tracked, run, save_avatar-is_tracked}
use convomeow.Tests.Sample.{is_ok, ok_of}

abbrev avatar : ℕ → AvatarRecord
avatar key = record {
  account_id = 1;
  provider_id = 8;
  picture_id = key;
  profile_id = 3;
  object_key = key;
  content_type = 2;
  size = 40;
  checked_at = 1_000;
}

abbrev no_avatars : Avatars
no_avatars = record { rows = []; orphans = [] }

abbrev later_ops : List Op
later_ops =
    Op.save (avatar 12) ∷ Op.touch 1 8 2_000 ∷ Op.clear_account 1 ∷ Op.clear_orphan 3 12 ∷ []

avatar_ok : is_ok (save_avatar (avatar 11) no_avatars) ≡ true
unfolding save_avatar put_avatar
avatar_ok = refl

abbrev first_avatar : (s : Avatars) × (save_avatar (avatar 11) no_avatars ≡ ok s)
first_avatar = ok_of (save_avatar (avatar 11) no_avatars) avatar_ok

save_avatar-is_tracked_example : is_tracked 3 11 (run later_ops first_avatar.0) ≡ true
save_avatar-is_tracked_example =
    save_avatar-is_tracked (λ key. 3) (avatar 11) no_avatars first_avatar.0 later_ops first_avatar.1
      (λ e. ground (arith, e)) refl refl refl
