-- ===== src/Store/Reactions/Merge.antt =====
-- `mergeReactionParticipantsTx`: learning late that two participants are one gives what learning
-- it first would have given.
use convomeow.Base.{
  ℕ, ◌≡◌, refl, true, false, Option, none, some, List, [], ◌∷◌, arith, if◌then◌else◌, Bool-cases,
  inl, inr, ◌∙◌, ap, sym, ◌≢◌, map,
}
use convomeow.Store.Reactions.{
  Key, Row, key_eq, record_all, of_participant, rename, merge_alias, newer, newer_removal,
  newer_event, upsert,
}
use convomeow.Store.Reactions.Order.{key_eq_refl, newer_asym, eq_of_key_eq, newer_cotrans}
use convomeow.Store.Reactions.Lookup.{find, merged, find-upsert}
use convomeow.Store.Reactions.Converge.{
  seen, seen_all, find-record_all, IsAt, seen_comm, find-upsert-seen, find-IsAt,
}
use convomeow.Store.Reactions.Renamed.{
  IsKeyed, owned_by, at_participant, joined, key_eq-rename, key_eq_other, seen_differ,
  find-merge_alias,
}

-- The row under the name that its participant has after the merge.
pub canonical : ℕ → ℕ → ℕ → Row → Row
canonical account first alias r = if of_participant account alias r then rename first r else r

-- Of two rows at one key, seeing the older one as well adds nothing.
seen_absorb :
    (k : Key) (a b : Row) (o : Option Row)
    → key_eq a.key k ≡ key_eq b.key k
    → newer a b ≡ false
    → seen k a (seen k b o) ≡ seen k b o
unfolding seen merged
seen_absorb k a b none e h = ground arith
seen_absorb k a b (some x) e h = ground (arith, newer_cotrans a b x)

newer-rename : (first : ℕ) (a b : Row) → newer (rename first a) (rename first b) ≡ newer a b
unfolding rename newer newer_removal newer_event
newer-rename first a b = refl

-- Two rows of one key, merged in either order.
seen_twice :
    (k : Key) (a b : Row) (o : Option Row)
    → IsAt k o
    → key_eq a.key k ≡ true
    → key_eq b.key k ≡ true
    → seen k (if newer a b then a else b) o ≡ seen k a (seen k b o)
seen_twice k a b o v ea eb = elim (Bool-cases (newer a b)) [
  | inl h ↦ rw h (sym (seen_absorb k b a o (eb ∙ sym ea) (newer_asym a b h)) ∙ seen_comm k b a o v)
  | inr h ↦ rw h (sym (seen_absorb k a b o (ea ∙ sym eb) h))
]

key_eq-rename_at :
    (account : ℕ) (first alias : ℕ) (k : Key) (x : Row)
    → owned_by account first k ≡ true
    → x.key ≡ at_participant alias k
    → key_eq (rename first x).key k ≡ true
unfolding key_eq rename
key_eq-rename_at account first alias k x h e = rw e (ground arith)

-- A reaction of the alias reaches `first` in the same way before and after the merge.
joined-seen :
    (account : ℕ) (first alias : ℕ) (k : Key) (r : Row) (a b : Option Row)
    → owned_by account first k ≡ true
    → of_participant account alias r ≡ true
    → IsAt (at_participant alias k) a
    → IsAt k b
    → joined first k (seen (at_participant alias k) r a) b
      ≡ seen k (rename first r) (joined first k a b)
unfolding joined seen merged
joined-seen account first alias k r none b h mine ata atb =
    ground (arith, key_eq-rename account first alias k r h mine)
joined-seen account first alias k r (some x) b h mine ata atb =
    elim (Bool-cases (key_eq r.key (at_participant alias k))) [
      | inl same ↦ rw same (
          ground (
            arith,
            seen_twice k (rename first r) (rename first x) b atb,
            key_eq-rename account first alias k r h mine,
            key_eq-rename_at account first alias k x h ata,
            newer-rename first r x,
          ))
      | inr differ ↦ rw differ (sym (seen_differ account first alias k r _ h mine differ))
    ]

upsert-IsKeyed : (r : Row) (rows : List Row) → IsKeyed rows → IsKeyed (upsert r rows).0
unfolding upsert find
upsert-IsKeyed r [] v = ground arith
upsert-IsKeyed r (x ∷ xs) v = elim (Bool-cases (key_eq x.key r.key)) [
  | inl same ↦
      rw same (let e = eq_of_key_eq x.key r.key same in ground (arith, ap (λ key. find key xs) e))
  | inr differ ↦ rw differ (
    find-upsert x.key r xs ∙ ground (arith, eq_of_key_eq r.key x.key, key_eq_refl x.key),
    upsert-IsKeyed r xs v.1,
  )
]

canonical-other :
    (account : ℕ) (first alias : ℕ) (k : Key) (r : Row) (o : Option Row)
    → first ≢ alias
    → owned_by account alias k ≡ true
    → seen k (canonical account first alias r) o ≡ o
unfolding seen canonical key_eq of_participant rename
canonical-other account first alias k r o ne h = ground arith

canonical_untouched :
    (account : ℕ) (first alias : ℕ) (k : Key) (r : Row) (o : Option Row)
    → owned_by account alias k ≡ false
    → owned_by account first k ≡ false
    → seen k r o ≡ seen k (canonical account first alias r) o
unfolding seen canonical key_eq of_participant rename
canonical_untouched account first alias k r o ha hf = ground arith

seen_of_alias :
    (account : ℕ) (alias : ℕ) (k : Key) (r : Row) (o : Option Row)
    → owned_by account alias k ≡ false
    → of_participant account alias r ≡ true
    → seen k r o ≡ o
unfolding seen key_eq of_participant
seen_of_alias account alias k r o ha mine = ground arith

joined_comm :
    (first : ℕ) (k : Key) (r : Row) (a b : Option Row)
    → IsAt k b
    → joined first k a (seen k r b) ≡ seen k r (joined first k a b)
unfolding joined
joined_comm first k r none b h = refl
joined_comm first k r (some x) b h = seen_comm k (rename first x) r b h

seen_elsewhere :
    (account : ℕ) (first alias : ℕ) (k : Key) (r : Row) (o : Option Row)
    → owned_by account first k ≡ true
    → of_participant account alias r ≡ false
    → seen (at_participant alias k) r o ≡ o
unfolding seen
seen_elsewhere account first alias k r o h e =
    ground (arith, key_eq_other account first alias k r h e)

-- What one more reaction does at a key of `first`.
joined-canonical :
    (account : ℕ) (first alias : ℕ) (k : Key) (r : Row) (a b : Option Row)
    → owned_by account alias k ≡ false
    → owned_by account first k ≡ true
    → IsAt (at_participant alias k) a
    → IsAt k b
    → joined first k (seen (at_participant alias k) r a) (seen k r b)
      ≡ seen k (canonical account first alias r) (joined first k a b)
unfolding canonical
joined-canonical account first alias k r a b ha hf ata atb =
    elim (Bool-cases (of_participant account alias r)) [
      | inl mine ↦ rw mine (
          ap (joined first k (seen (at_participant alias k) r a))
            (seen_of_alias account alias k r b ha mine)
          ∙ joined-seen account first alias k r a b hf mine ata atb)
      | inr other ↦ rw other (
          ap (λ found. joined first k found (seen k r b))
            (seen_elsewhere account first alias k r a hf other)
          ∙ joined_comm first k r a b atb)
    ]

-- Saving a reaction and then merging the participants finds what merging them first, and saving
-- the reaction under the name that is left, finds.
merge_alias-upsert :
    (account : ℕ) (first alias : ℕ) (k : Key) (r : Row) (rows : List Row)
    → first ≢ alias
    → IsKeyed rows
    → find k (merge_alias account first alias (upsert r rows).0)
      ≡ seen k (canonical account first alias r) (find k (merge_alias account first alias rows))
merge_alias-upsert account first alias k r rows ne v =
    find-merge_alias account first alias k (upsert r rows).0 (upsert-IsKeyed r rows v)
    ∙ (elim (Bool-cases (owned_by account alias k)) [
      | inl gone ↦ rw gone (sym (canonical-other account first alias k r none ne gone))
      | inr kept ↦ rw kept (elim (Bool-cases (owned_by account first k)) [
        | inl target ↦
            rw (target, find-upsert-seen (at_participant alias k) r rows, find-upsert-seen k r rows)
              (joined-canonical account first alias k r _ _ kept target (find-IsAt _ rows)
                (find-IsAt k rows))
        | inr other ↦
            rw (other, find-upsert-seen k r rows)
              (canonical_untouched account first alias k r (find k rows) kept other)
      ])
    ]
        ∙ ap (seen k (canonical account first alias r))
            (sym (find-merge_alias account first alias k rows v)))

canonical_all : ℕ → ℕ → ℕ → List Row → List Row
canonical_all account first alias = map (canonical account first alias)

seen_all-canonical :
    (account : ℕ) (first alias : ℕ) (k : Key) (rs rows : List Row)
    → first ≢ alias
    → IsKeyed rows
    → find k (merge_alias account first alias (record_all rs rows))
      ≡ seen_all k
          (canonical_all account first alias rs)
          (find k (merge_alias account first alias rows))
unfolding record_all seen_all canonical_all
seen_all-canonical account first alias k [] rows ne v = refl
seen_all-canonical account first alias k (r ∷ rs) rows ne v =
    seen_all-canonical account first alias k rs (upsert r rows).0 ne (upsert-IsKeyed r rows v)
    ∙ ap (seen_all k (canonical_all account first alias rs))
        (merge_alias-upsert account first alias k r rows ne v)

-- A batch of reactions that is saved before a name of a participant is merged into another one
-- leaves, under every key, what the batch leaves under the other name when it is saved after the
-- merge, in a table with one row for a key.
pub merge_alias-record_all :
    (account : ℕ) (first alias : ℕ) (k : Key) (rs rows : List Row)
    → first ≢ alias
    → IsKeyed rows
    → find k (merge_alias account first alias (record_all rs rows))
      ≡ find k (
          record_all
            (map (canonical account first alias) rs)
            (merge_alias account first alias rows))
unfolding canonical_all
merge_alias-record_all account first alias k rs rows ne v =
    seen_all-canonical account first alias k rs rows ne v
    ∙ sym (
        find-record_all k (canonical_all account first alias rs)
          (merge_alias account first alias rows))
