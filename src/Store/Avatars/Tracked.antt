-- ===== src/Store/Avatars/Tracked.antt =====
-- No object of an avatar is lost: a row names it, or it is handed over to be deleted.
use convomeow.Base.{
  ℕ, ◌≡◌, refl, sym, ap, ◌∙◌, ◌≢◌, inl, inr, Bool, true, false, ◌&&◌, ◌||◌, not, Option, none, some,
  List, [], ◌∷◌, arith, ◌==◌, if◌then◌else◌, Bool-cases,
}
use convomeow.Base.Tables.{find_where, any, delete_where, any-update_where, any-append}
use convomeow.Core.{Result, ok, err}
use convomeow.Store.Tables.{Orphan}
use convomeow.Store.Media.{is_orphan, insert_orphan, clear_media_orphan}
use convomeow.Store.Avatars.{
  Avatar, AvatarRecord, Avatars, is_avatar, avatar_row, put_avatar, retire, retire_all, retire_key,
  retire_previous, save_avatar, touch_avatar, clear_account_avatars, is_refused,
}

abbrev names : ℕ → ℕ → Avatar → Bool
names profile key a =
    (elim a.object_key [ none ↦ false | some k ↦ k == key ])
    && (elim a.storage_profile_id [ none ↦ false | some p ↦ p == profile ])

-- The object is named by an avatar, or waits to be deleted.
abbrev pub is_tracked : ℕ → ℕ → Avatars → Bool
is_tracked profile key s = any (names profile key) s.rows || any (is_orphan profile key) s.orphans

-- The operations on avatars and on what waits to be deleted.
pub data Op : Type 0 where
  save : AvatarRecord → Op
  touch : ℕ → ℕ → ℕ → Op
  clear_account : ℕ → Op
  clear_orphan : ℕ → ℕ → Op

abbrev kept : Avatars → Result Avatars → Avatars
kept s (ok after) = after
kept s (err e) = s

abbrev pub apply : Op → Avatars → Avatars
apply (save r) s = kept s (save_avatar r s)
apply (touch account provider checked) s = kept s (touch_avatar account provider checked s)
apply (clear_account account) s = clear_account_avatars account s
apply (clear_orphan profile key) s = record s { orphans = clear_media_orphan profile key s.orphans }

unfoldable pub run : List Op → Avatars → Avatars
unfolding save_avatar touch_avatar clear_account_avatars
run [] s = s
run (op ∷ ops) s = run ops (apply op s)

-- A key belongs to one profile: every record that is saved has the profile of its key.
abbrev pub is_homed : (ℕ → ℕ) → Op → Bool
is_homed home (save r) = home r.object_key == r.profile_id
is_homed home _ = true

-- The object is taken off the list, after it was deleted.
abbrev pub is_cleared : ℕ → ℕ → Op → Bool
is_cleared profile key (clear_orphan p k) = p == profile && k == key
is_cleared profile key _ = false

same_orphan :
    (p profile k key : ℕ) (rows : List Orphan)
    → p ≡ profile
    → k ≡ key
    → any (is_orphan profile key) rows ≡ any (is_orphan p k) rows
same_orphan p profile k key rows a b = rw (← a, ← b) refl

any-insert_orphan :
    (profile key p k : ℕ) (rows : List Orphan)
    → (any (is_orphan profile key) rows || (p == profile && k == key)) ≡ true
    → any (is_orphan profile key) (insert_orphan p k rows) ≡ true
any-insert_orphan profile key p k rows h = elim (Bool-cases (any (is_orphan p k) rows)) [
  | inl e ↦ elim (Bool-cases (p == profile && k == key)) [
    | inl same ↦
        let a : p ≡ profile = ground arith in
        let b : k ≡ key = ground arith in rw (e) (same_orphan p profile k key rows a b ∙ e)
    | inr other ↦ ground (arith, e, other)
  ]
  | inr e ↦ ground (
    arith,
    e,
    any-append (is_orphan profile key) rows (record { profile_id = p; object_key = k } ∷ []),
  )
]

any-clear_orphan :
    (profile key p k : ℕ) (rows : List Orphan)
    → (p == profile && k == key) ≡ false
    → any (is_orphan profile key) rows ≡ true
    → any (is_orphan profile key) (clear_media_orphan p k rows) ≡ true
any-clear_orphan profile key p k [] n h = cc
any-clear_orphan profile key p k (o ∷ rows) n h =
    ground (arith, any-clear_orphan profile key p k rows n)

-- What a new row replaces is the row that was found.
any-put_avatar :
    (p : Avatar → Bool) (new : Avatar) (rows : List Avatar)
    → any p rows ≡ true
    → (any p (put_avatar new rows)
        || (elim (find_where (is_avatar new.account_id new.provider_id) rows) [
          | none ↦ false
          | some a ↦ p a
        ]))
      ≡ true
unfolding put_avatar
any-put_avatar p new [] h = cc
any-put_avatar p new (a ∷ rows) h = ground (arith, any-put_avatar p new rows)

any-put_new :
    (p : Avatar → Bool) (new : Avatar) (rows : List Avatar)
    → p new ≡ true
    → any p (put_avatar new rows) ≡ true
unfolding put_avatar
any-put_new p new [] h = ground (arith, h)
any-put_new p new (a ∷ rows) h = ground (arith, any-put_new p new rows h)

abbrev is_at : ℕ → ℕ → Option ℕ → Option ℕ → Bool
is_at profile key p k =
    (elim k [ none ↦ false | some j ↦ j == key ])
    && (elim p [ none ↦ false | some q ↦ q == profile ])

retire_key-named :
    (profile key new : ℕ) (p k : Option ℕ) (rows : List Orphan)
    → is_at profile key p k ≡ true
    → (new == key) ≡ false
    → any (is_orphan profile key) (retire_key p k new rows) ≡ true
retire_key-named profile key new p none rows h n = cc
retire_key-named profile key new none (some k) rows h n = ground (arith, h)
retire_key-named profile key new (some p) (some k) rows h n =
    ground (arith, any-insert_orphan profile key p k rows (ground (arith, h)))

-- The row that a save replaces hands its object over.
retire_previous-named :
    (profile key new : ℕ) (found : Option Avatar) (rows : List Orphan)
    → (elim found [ none ↦ false | some a ↦ names profile key a ]) ≡ true
    → (new == key) ≡ false
    → any (is_orphan profile key) (retire_previous found new rows) ≡ true
retire_previous-named profile key new none rows h n = cc
retire_previous-named profile key new (some a) rows h n =
    retire_key-named profile key new a.storage_profile_id a.object_key rows h n

any-retire_key :
    (profile key new : ℕ) (p k : Option ℕ) (rows : List Orphan)
    → any (is_orphan profile key) rows ≡ true
    → any (is_orphan profile key) (retire_key p k new rows) ≡ true
any-retire_key profile key new p none rows h = h
any-retire_key profile key new none (some k) rows h =
    ground (arith, any-insert_orphan profile key 0 k rows (ground (arith, h)))
any-retire_key profile key new (some p) (some k) rows h =
    ground (arith, any-insert_orphan profile key p k rows (ground (arith, h)))

any-retire_previous :
    (profile key new : ℕ) (found : Option Avatar) (rows : List Orphan)
    → any (is_orphan profile key) rows ≡ true
    → any (is_orphan profile key) (retire_previous found new rows) ≡ true
any-retire_previous profile key new none rows h = h
any-retire_previous profile key new (some a) rows h =
    any-retire_key profile key new a.storage_profile_id a.object_key rows h

-- A row that is retired hands its object over, and nothing else goes.
any-retire :
    (profile key : ℕ) (p k : Option ℕ) (rows : List Orphan)
    → (any (is_orphan profile key) rows || is_at profile key p k) ≡ true
    → any (is_orphan profile key) (retire p k rows) ≡ true
any-retire profile key none none rows h = ground (arith, h)
any-retire profile key none (some k) rows h = ground (arith, h)
any-retire profile key (some p) none rows h = ground (arith, h)
any-retire profile key (some p) (some k) rows h =
    any-insert_orphan profile key p k rows (ground (arith, h))

any-retire_all :
    (profile key account : ℕ) (rows : List Avatar) (orphans : List Orphan)
    → any (is_orphan profile key) orphans ≡ true
    → any (is_orphan profile key) (retire_all account rows orphans) ≡ true
unfolding retire_all
any-retire_all profile key account [] orphans h = h
any-retire_all profile key account (a ∷ rows) orphans h =
    any-retire_all profile key account rows
      (if a.account_id == account
        then retire a.storage_profile_id a.object_key orphans
        else orphans)
      (ground (
        arith,
        any-retire profile key a.storage_profile_id a.object_key orphans (ground (arith, h)),
      ))

any-clear_account :
    (profile key account : ℕ) (rows : List Avatar) (orphans : List Orphan)
    → any (names profile key) rows ≡ true
    → (any (names profile key) (delete_where (λ a. a.account_id == account) rows)
        || any (is_orphan profile key) (retire_all account rows orphans))
      ≡ true
unfolding retire_all
any-clear_account profile key account [] orphans h = cc
any-clear_account profile key account (a ∷ rows) orphans h =
    let next = retire a.storage_profile_id a.object_key orphans in
    elim (Bool-cases (a.account_id == account)) [
      | inl e ↦ elim (Bool-cases (names profile key a)) [
        | inl own ↦ ground (
          arith,
          e,
          any-retire_all profile key account rows next (
              any-retire profile key a.storage_profile_id a.object_key orphans
                (ground (arith, own))),
        )
        | inr other ↦ ground (arith, e, other, any-clear_account profile key account rows next)
      ]
      | inr e ↦ ground (arith, e, any-clear_account profile key account rows orphans)
    ]

avatar_row-named :
    (profile key : ℕ) (r : AvatarRecord)
    → key ≢ 0
    → r.object_key ≡ key
    → profile ≡ r.profile_id
    → names profile key (avatar_row r) ≡ true
avatar_row-named profile key r n same lives = ground (arith, n, same, lives)

save-is_tracked :
    (profile key : ℕ) (r : AvatarRecord) (s : Avatars)
    → key ≢ 0
    → (r.object_key ≡ key → profile ≡ r.profile_id)
    → is_tracked profile key s ≡ true
    → is_tracked profile key (kept s (save_avatar r s)) ≡ true
unfolding save_avatar
save-is_tracked profile key r s n homed h = elim (Bool-cases (is_refused r)) [
  | inl refused ↦ rw refused h
  | inr accepted ↦ elim (Bool-cases (r.object_key == key)) [
    | inl e ↦
        let same : r.object_key ≡ key = ground arith in
        let there =
          any-put_new (names profile key) (avatar_row r) s.rows
            (avatar_row-named profile key r n same (homed same)) in
        rw accepted (ground (arith, there))
    | inr e ↦
        let found = find_where (is_avatar r.account_id r.provider_id) s.rows in
        let row = any-put_avatar (names profile key) (avatar_row r) s.rows in
        let previous =
          λ (f : _). retire_previous-named profile key r.object_key found s.orphans f e in
        let kept_orphan = any-retire_previous profile key r.object_key found s.orphans in
        rw accepted (ground (arith, row, previous, kept_orphan, h))
  ]
]

touch-is_tracked :
    (profile key account provider checked : ℕ) (s : Avatars)
    → is_tracked profile key s ≡ true
    → is_tracked profile key (kept s (touch_avatar account provider checked s)) ≡ true
unfolding touch_avatar
touch-is_tracked profile key account provider checked s h = ground (
  arith,
  any-update_where (is_avatar account provider) (names profile key)
      (λ a. record a { checked_at = checked }) s.rows (λ a. refl),
)

apply-is_tracked :
    (home : ℕ → ℕ) (key : ℕ) (op : Op) (s : Avatars)
    → key ≢ 0
    → is_homed home op ≡ true
    → is_cleared (home key) key op ≡ false
    → is_tracked (home key) key s ≡ true
    → is_tracked (home key) key (apply op s) ≡ true
unfolding clear_account_avatars
apply-is_tracked home key (save r) s n homed c h =
    save-is_tracked (home key) key r s n (λ e. ap home (sym e) ∙ ground arith) h
apply-is_tracked home key (touch account provider checked) s n homed c h =
    touch-is_tracked (home key) key account provider checked s h
apply-is_tracked home key (clear_account account) s n homed c h = ground (
  arith,
  any-clear_account (home key) key account s.rows s.orphans,
  any-retire_all (home key) key account s.rows s.orphans,
)
apply-is_tracked home key (clear_orphan p k) s n homed c h =
    ground (arith, any-clear_orphan (home key) key p k s.orphans c)

run-is_tracked :
    (home : ℕ → ℕ) (key : ℕ) (ops : List Op) (s : Avatars)
    → key ≢ 0
    → any (λ op. not (is_homed home op)) ops ≡ false
    → any (is_cleared (home key) key) ops ≡ false
    → is_tracked (home key) key s ≡ true
    → is_tracked (home key) key (run ops s) ≡ true
unfolding run
run-is_tracked home key [] s n homed c h = h
run-is_tracked home key (op ∷ ops) s n homed c h =
    run-is_tracked home key ops (apply op s) n (ground (arith, homed)) (ground (arith, c))
      (apply-is_tracked home key op s n (ground (arith, homed)) (ground (arith, c)) h)

-- Once an avatar was saved with an object, its object is not lost: whatever is done with avatars
-- afterwards, an avatar names the object or it is on the list of those to be deleted, until it is
-- taken off that list. Each key belongs to one storage profile, under which it is saved.
pub save_avatar-is_tracked :
    (home : ℕ → ℕ) (r : AvatarRecord) (s after : Avatars) (ops : List Op)
    → save_avatar r s ≡ ok after
    → r.object_key ≢ 0
    → home r.object_key ≡ r.profile_id
    → any (λ op. not (is_homed home op)) ops ≡ false
    → any (is_cleared r.profile_id r.object_key) ops ≡ false
    → is_tracked r.profile_id r.object_key (run ops after) ≡ true
unfolding save_avatar
save_avatar-is_tracked home r s after ops e n lives homed c =
    let there =
      any-put_new (names r.profile_id r.object_key) (avatar_row r) s.rows
        (avatar_row-named r.profile_id r.object_key r n refl refl) in
    let saved : is_tracked r.profile_id r.object_key after ≡ true = ground (arith, there) in
    rw (← lives) (run-is_tracked home r.object_key ops after n homed (rw lives c) (rw lives saved))
