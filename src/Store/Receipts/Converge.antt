-- ===== src/Store/Receipts/Converge.antt =====
-- The table as a join: the order in which receipts arrive does not matter.
use convomeow.Base.{
  ℕ, ◌≡◌, refl, sym, ap, ◌∙◌, inl, inr, true, false, Option, none, some, List, [], ◌∷◌, arith,
  if◌then◌else◌, Bool-cases,
}
use mathlib.Core.Logic.{∥∥₁_elim}
use mathlib.Core.List.{Perm, Permᴰ}
use native.Mathlib.Nat.{ℕ_set}
use convomeow.Store.Receipts.{
  Key, Row, key_eq, earliest, joined, is_earlier, is_news, upsert, record_all, find,
}

eq_of_key_eq : (a b : Key) → key_eq a b ≡ true → a ≡ b
unfolding key_eq
eq_of_key_eq a b h = ground arith

key_eq_refl : (a : Key) → key_eq a a ≡ true
unfolding key_eq
key_eq_refl a = ground arith

earliest_comm : (x a b : Option ℕ) → earliest (earliest x a) b ≡ earliest (earliest x b) a
unfolding earliest
earliest_comm none none none = refl
earliest_comm none none (some b) = refl
earliest_comm none (some a) none = refl
earliest_comm none (some a) (some b) = ground arith
earliest_comm (some x) none none = refl
earliest_comm (some x) none (some b) = ground arith
earliest_comm (some x) (some a) none = ground arith
earliest_comm (some x) (some a) (some b) = ground arith

earliest_old : (new old : Option ℕ) → is_earlier new old ≡ false → earliest old new ≡ old
unfolding earliest
earliest_old none none h = refl
earliest_old none (some old) h = refl
earliest_old (some new) none h = cc
earliest_old (some new) (some old) h = ground arith

earliest_swap : (a b : Option ℕ) → earliest a b ≡ earliest b a
unfolding earliest
earliest_swap none none = refl
earliest_swap none (some b) = refl
earliest_swap (some a) none = refl
earliest_swap (some a) (some b) = ground arith

-- A receipt that tells nothing new joins to what was there.
pub joined_old : (new old : Row) → is_news new old ≡ false → joined old new ≡ old
unfolding joined is_news
joined_old new old h =
    ground
      (arith, earliest_old new.delivered_at old.delivered_at, earliest_old new.read_at old.read_at)

key-joined : (old new : Row) → (joined old new).key ≡ old.key
unfolding joined
key-joined old new = refl

-- One receipt, as it is seen at a key.
abbrev pub with_receipt : Row → Option Row → Row
with_receipt r none = r
with_receipt r (some x) = joined x r

pub seen : Key → Row → Option Row → Option Row
seen k r o = if key_eq r.key k then some (with_receipt r o) else o

-- Saving a receipt changes what is found under its own key, and there to the join.
pub find-upsert :
    (k : Key) (r : Row) (rows : List Row) → find k (upsert r rows).0 ≡ seen k r (find k rows)
unfolding find upsert seen
find-upsert k r [] = ground arith
find-upsert k r (x ∷ xs) = ground (
  arith,
  find-upsert k r xs,
  joined_old r x,
  key-joined x r,
  eq_of_key_eq x.key r.key,
  eq_of_key_eq x.key k,
  eq_of_key_eq r.key k,
  key_eq_refl k,
  key_eq_refl x.key,
)

IsAt : Key → Option Row → Type 0
IsAt k none = Unit {0}
IsAt k (some x) = x.key ≡ k

find-IsAt : (k : Key) (rows : List Row) → IsAt k (find k rows)
unfolding find IsAt
find-IsAt k [] = tt
find-IsAt k (r ∷ rs) = elim (Bool-cases (key_eq r.key k)) [
  | inl here ↦ rw here (eq_of_key_eq r.key k here)
  | inr elsewhere ↦ rw elsewhere (find-IsAt k rs)
]

joined_comm : (x a b : Row) → joined (joined x a) b ≡ joined (joined x b) a
unfolding joined
joined_comm x a b = ground (
  arith,
  earliest_comm x.delivered_at a.delivered_at b.delivered_at,
  earliest_comm x.read_at a.read_at b.read_at,
)

joined_swap : (a b : Row) → a.key ≡ b.key → joined a b ≡ joined b a
unfolding joined
joined_swap a b e =
    ground
      (arith, e, earliest_swap a.delivered_at b.delivered_at, earliest_swap a.read_at b.read_at)

seen_comm : (k : Key) (a b : Row) (o : Option Row) → seen k a (seen k b o) ≡ seen k b (seen k a o)
unfolding seen
seen_comm k a b none = ground (arith, eq_of_key_eq a.key k, eq_of_key_eq b.key k, joined_swap a b)
seen_comm k a b (some x) = ground (arith, joined_comm x a b)

seen_all : Key → List Row → Option Row → Option Row
seen_all k [] o = o
seen_all k (r ∷ rs) o = seen_all k rs (seen k r o)

find-record_all :
    (k : Key) (rs rows : List Row) → find k (record_all rs rows) ≡ seen_all k rs (find k rows)
unfolding record_all seen_all
find-record_all k [] rows = refl
find-record_all k (r ∷ rs) rows =
    find-record_all k rs (upsert r rows).0 ∙ ap (seen_all k rs) (find-upsert k r rows)

seen_all-perm :
    (k : Key) {rs ss : List Row}
    → Permᴰ rs ss
    → (o : Option Row) → seen_all k rs o ≡ seen_all k ss o
unfolding seen_all
seen_all-perm k Permᴰ.nil o = refl
seen_all-perm k (Permᴰ.cons {a = a} {b = b} {l₁ = l} {l₂ = m} e d) o =
    rw (← e) (seen_all-perm k d (seen k a o))
seen_all-perm k (Permᴰ.swap {a = a} {b = b} {a' = c} {b' = d} {l = l} e f) o =
    rw (← e, ← f) (ap (seen_all k l) (seen_comm k b a o))
seen_all-perm k (Permᴰ.trans d e) o = seen_all-perm k d o ∙ seen_all-perm k e o

Option_row_set : IsSet (Option Row)
Option_row_set = hlevel ℕ_set

-- Whatever the order in which receipts are saved, each key ends with the same row.
pub receipts_converge :
    (k : Key) (rs ss rows : List Row)
    → Perm rs ss
    → find k (record_all rs rows) ≡ find k (record_all ss rows)
receipts_converge k rs ss rows p = ∥∥₁_elim p (Option_row_set _ _) λ d.
    find-record_all k rs rows ∙ (seen_all-perm k d (find k rows) ∙ sym (find-record_all k ss rows))
