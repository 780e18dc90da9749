-- ===== src/Store/Reactions/Renamed.antt =====
-- `mergeReactionParticipantsTx`: what is found in the table once one name has become another.
use convomeow.Base.{
  ℕ, ◌≡◌, refl, Bool, true, false, Option, none, some, List, [], ◌∷◌, ◌==◌, ◌&&◌, arith,
  if◌then◌else◌, Bool-cases, inl, inr, ◌∙◌, ap, sym,
}
use convomeow.Store.Reactions.{
  Key, Row, key_eq, record_all, of_participant, rename, renamed_rows, delete_rows, merge_alias,
}
use convomeow.Store.Reactions.Order.{eq_of_key_eq}
use convomeow.Store.Reactions.Lookup.{find}
use convomeow.Store.Reactions.Converge.{seen, seen_all, find-record_all}

-- The rows have distinct keys: the table's primary key.
abbrev pub IsKeyed : List Row → Type 0
IsKeyed [] = Unit {0}
IsKeyed (r ∷ rs) = (find r.key rs ≡ none) × IsKeyed rs

abbrev pub owned_by : ℕ → ℕ → Key → Bool
owned_by account p k = k.account_id == account && k.participant_id == p

abbrev pub at_participant : ℕ → Key → Key
at_participant p k = record k { participant_id = p }

find-delete_rows :
    (account : ℕ) (alias : ℕ) (k : Key) (rows : List Row)
    → find k (delete_rows account alias rows)
      ≡ (if owned_by account alias k then none else find k rows)
unfolding find delete_rows
find-delete_rows account alias k [] = ground arith
find-delete_rows account alias k (r ∷ rs) =
    ground (arith, find-delete_rows account alias k rs, eq_of_key_eq r.key k)

-- The rows of the alias, seen from a key of another participant than `first`, are not there.
seen_all-renamed_other :
    (account : ℕ) (first alias : ℕ) (k : Key) (rows : List Row) (o : Option Row)
    → owned_by account first k ≡ false
    → seen_all k (renamed_rows account first alias rows) o ≡ o
unfolding seen_all seen renamed_rows
seen_all-renamed_other account first alias k [] o h = refl
seen_all-renamed_other account first alias k (r ∷ rs) o h = ground (
  arith,
  seen_all-renamed_other account first alias k rs o h,
  eq_of_key_eq (rename first r).key k,
)

-- A found row of the alias, merged as a row of `first`.
unfoldable pub joined : ℕ → Key → Option Row → Option Row → Option Row
joined first k none o = o
joined first k (some x) o = seen k (rename first x) o

pub key_eq-rename :
    (account : ℕ) (first alias : ℕ) (k : Key) (r : Row)
    → owned_by account first k ≡ true
    → of_participant account alias r ≡ true
    → key_eq (rename first r).key k ≡ key_eq r.key (at_participant alias k)
unfolding key_eq of_participant rename
key_eq-rename account first alias k r h e = ground arith

pub key_eq_other :
    (account : ℕ) (first alias : ℕ) (k : Key) (r : Row)
    → owned_by account first k ≡ true
    → of_participant account alias r ≡ false
    → key_eq r.key (at_participant alias k) ≡ false
unfolding key_eq of_participant
key_eq_other account first alias k r h e = ground arith

pub seen_differ :
    (account : ℕ) (first alias : ℕ) (k : Key) (r : Row) (o : Option Row)
    → owned_by account first k ≡ true
    → of_participant account alias r ≡ true
    → key_eq r.key (at_participant alias k) ≡ false
    → seen k (rename first r) o ≡ o
unfolding seen
seen_differ account first alias k r o h e differ =
    ground (arith, key_eq-rename account first alias k r h e)

seen_all-renamed_first :
    (account : ℕ) (first alias : ℕ) (k : Key) (rows : List Row) (o : Option Row)
    → IsKeyed rows
    → owned_by account first k ≡ true
    → seen_all k (renamed_rows account first alias rows) o
      ≡ joined first k (find (at_participant alias k) rows) o
unfolding seen_all renamed_rows joined find
seen_all-renamed_first account first alias k [] o v h = refl
seen_all-renamed_first account first alias k (r ∷ rs) o v h =
    elim (Bool-cases (of_participant account alias r)) [
      | inr other ↦
          rw (other, key_eq_other account first alias k r h other)
            (seen_all-renamed_first account first alias k rs o v.1 h)
      | inl mine ↦ rw mine (elim (Bool-cases (key_eq r.key (at_participant alias k))) [
        | inl same ↦ rw same (
            seen_all-renamed_first account first alias k rs (seen k (rename first r) o) v.1 h
            ∙ ap (λ found. joined first k found (seen k (rename first r) o))
                (ap (λ key. find key rs) (sym (eq_of_key_eq r.key (at_participant alias k) same))
                  ∙ v.0))
        | inr differ ↦ rw differ (
            ap (seen_all k (renamed_rows account first alias rs))
              (seen_differ account first alias k r o h mine differ)
            ∙ seen_all-renamed_first account first alias k rs o v.1 h)
      ])
    ]

pub find-merge_alias :
    (account : ℕ) (first alias : ℕ) (k : Key) (rows : List Row)
    → IsKeyed rows
    → find k (merge_alias account first alias rows) ≡ (
        if owned_by account alias k
        then none
        else if owned_by account first k
        then joined first k (find (at_participant alias k) rows) (find k rows)
        else find k rows)
unfolding merge_alias
find-merge_alias account first alias k rows v = ground (
  arith,
  find-delete_rows account alias k (record_all (renamed_rows account first alias rows) rows),
  find-record_all k (renamed_rows account first alias rows) rows,
  seen_all-renamed_other account first alias k rows (find k rows),
  seen_all-renamed_first account first alias k rows (find k rows) v,
)
