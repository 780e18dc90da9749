-- ===== src/Store/Reactions/Lookup.antt =====
-- What the table holds for a key, after an upsert.
use convomeow.Base.{◌≡◌, refl, true, Option, none, some, List, [], ◌∷◌, arith, if◌then◌else◌}
use convomeow.Store.Reactions.{Key, Row, key_eq, newer, upsert}
use convomeow.Store.Reactions.Order.{key_eq_refl, eq_of_key_eq}

-- The row under a key.
unfoldable pub find : Key → List Row → Option Row
find k [] = none
find k (r ∷ rs) = if key_eq r.key k then some r else find k rs

-- What is under the key once `r` has been merged into it.
unfoldable pub merged : Row → Option Row → Option Row
merged r none = some r
merged r (some x) = if newer r x then some r else some x

pub find-upsert :
    (k : Key) (r : Row) (rows : List Row)
    → find k (upsert r rows).0 ≡ (if key_eq r.key k then merged r (find k rows) else find k rows)
unfolding find upsert merged
find-upsert k r [] = ground arith
find-upsert k r (x ∷ xs) = ground (
  arith,
  find-upsert k r xs,
  eq_of_key_eq x.key r.key,
  eq_of_key_eq x.key k,
  eq_of_key_eq r.key k,
  key_eq_refl k,
  key_eq_refl x.key,
)

-- A row is affected exactly when what is found under its key changes to it.
pub upsert-changed :
    (r : Row) (rows : List Row)
    → (upsert r rows).1 ≡ elim (find r.key rows) [ none ↦ true | some x ↦ newer r x ]
unfolding find upsert
upsert-changed r [] = refl
upsert-changed r (x ∷ xs) = ground (arith, upsert-changed r xs)
