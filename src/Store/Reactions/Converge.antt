-- ===== src/Store/Reactions/Converge.antt =====
-- The table as a join: the order in which reactions arrive does not matter.
use mathlib.Core.Logic.{∥∥₁_elim}
use mathlib.Core.List.{Perm, Permᴰ, Mem, Memᴰ}
use native.Mathlib.Nat.{ℕ_set}
use convomeow.Base.{
  ◌≡◌, refl, ◌∙◌, sym, ap, false, Option, none, some, List, [], ◌∷◌, arith, if◌then◌else◌,
  Bool-cases, inl, inr,
}
use convomeow.Store.Reactions.{Key, Row, key_eq, newer, upsert, record_all}
use convomeow.Store.Reactions.Order.{
  key_eq_refl, eq_of_key_eq, newer_irrefl, newer_trans, newer_total, newer_asym,
}
use convomeow.Store.Reactions.Lookup.{find, merged, find-upsert, upsert-changed}

-- One reaction, as it is seen at a key.
unfoldable pub seen : Key → Row → Option Row → Option Row
unfolding merged
seen k r o = if key_eq r.key k then merged r o else o

pub find-upsert-seen :
    (k : Key) (r : Row) (rows : List Row) → find k (upsert r rows).0 ≡ seen k r (find k rows)
unfolding seen
find-upsert-seen k r rows = find-upsert k r rows

-- What is under `k` belongs to `k`.
abbrev pub IsAt : Key → Option Row → Type 0
IsAt k none = Unit {0}
IsAt k (some x) = x.key ≡ k

pub find-IsAt : (k : Key) (rows : List Row) → IsAt k (find k rows)
unfolding find
find-IsAt k [] = tt
find-IsAt k (r ∷ rs) = elim (Bool-cases (key_eq r.key k)) [
  | inl here ↦ rw here (eq_of_key_eq r.key k here)
  | inr elsewhere ↦ rw elsewhere (find-IsAt k rs)
]

seen_comm_empty : (k : Key) (a b : Row) → seen k a (seen k b none) ≡ seen k b (seen k a none)
unfolding seen merged
seen_comm_empty k a b =
    ground (arith, eq_of_key_eq a.key k, eq_of_key_eq b.key k, newer_asym a b, newer_total a b)

seen_comm_full :
    (k : Key) (a b x : Row)
    → x.key ≡ k
    → seen k a (seen k b (some x)) ≡ seen k b (seen k a (some x))
unfolding seen merged
seen_comm_full k a b x e = ground (
  arith,
  eq_of_key_eq a.key k,
  eq_of_key_eq b.key k,
  newer_asym a b,
  newer_total a b,
  newer_trans a b x,
  newer_trans b a x,
)

pub seen_comm :
    (k : Key) (a b : Row) (o : Option Row)
    → IsAt k o
    → seen k a (seen k b o) ≡ seen k b (seen k a o)
seen_comm k a b none h = seen_comm_empty k a b
seen_comm k a b (some x) h = seen_comm_full k a b x h

-- The reactions `rs`, as they are seen at a key.
unfoldable pub seen_all : Key → List Row → Option Row → Option Row
seen_all k [] o = o
seen_all k (r ∷ rs) o = seen_all k rs (seen k r o)

pub find-record_all :
    (k : Key) (rs rows : List Row) → find k (record_all rs rows) ≡ seen_all k rs (find k rows)
unfolding record_all seen_all
find-record_all k [] rows = refl
find-record_all k (r ∷ rs) rows =
    find-record_all k rs (upsert r rows).0 ∙ ap (seen_all k rs) (find-upsert-seen k r rows)

seen-IsAt : (k : Key) (r : Row) (o : Option Row) → IsAt k o → IsAt k (seen k r o)
unfolding seen merged
seen-IsAt k r none h = ground (arith, eq_of_key_eq r.key k)
seen-IsAt k r (some x) h = ground (arith, eq_of_key_eq r.key k)

seen_all-perm :
    (k : Key) {rs ss : List Row}
    → Permᴰ rs ss
    → (o : Option Row) → IsAt k o
    → seen_all k rs o ≡ seen_all k ss o
unfolding seen_all
seen_all-perm k Permᴰ.nil o h = refl
seen_all-perm k (Permᴰ.cons {a = a} {b = b} {l₁ = l} {l₂ = m} e d) o h =
    rw (← e) (seen_all-perm k d (seen k a o) (seen-IsAt k a o h))
seen_all-perm k (Permᴰ.swap {a = a} {b = b} {a' = c} {b' = d} {l = l} e f) o h =
    rw (← e, ← f) (ap (seen_all k l) (seen_comm k b a o h))
seen_all-perm k (Permᴰ.trans d e) o h = seen_all-perm k d o h ∙ seen_all-perm k e o h

Option_row_set : IsSet (Option Row)
Option_row_set = hlevel ℕ_set

-- Whatever the order in which a batch of reactions is saved, each key ends with the same row.
pub record_all_converges :
    (k : Key) (rs ss rows : List Row)
    → Perm rs ss
    → find k (record_all rs rows) ≡ find k (record_all ss rows)
record_all_converges k rs ss rows p = ∥∥₁_elim p (Option_row_set _ _) λ d.
    find-record_all k rs rows
    ∙ (seen_all-perm k d (find k rows) (find-IsAt k rows) ∙ sym (find-record_all k ss rows))

-- The reaction `r` is in, or is superseded by, what is there.
abbrev Covers : Row → Option Row → Type 0
Covers r none = ⊥
Covers r (some x) = newer r x ≡ false

Covers-prop : (r : Row) (o : Option Row) → IsProp (Covers r o)
Covers-prop r none = hlevel
Covers-prop r (some x) = hlevel

Covers-seen : (k : Key) (r a : Row) (o : Option Row) → Covers r o → Covers r (seen k a o)
unfolding seen merged
Covers-seen k r a none h = absurd h
Covers-seen k r a (some x) h = ground (arith, newer_trans r a x)

seen-Covers : (r : Row) (o : Option Row) → Covers r (seen r.key r o)
unfolding seen merged
seen-Covers r none = ground (arith, key_eq_refl r.key, newer_irrefl r)
seen-Covers r (some x) = ground (arith, key_eq_refl r.key, newer_irrefl r)

Covers-seen_all :
    (k : Key) (r : Row) (rs : List Row) (o : Option Row) → Covers r o → Covers r (seen_all k rs o)
unfolding seen_all
Covers-seen_all k r [] o h = h
Covers-seen_all k r (a ∷ rs) o h = Covers-seen_all k r rs (seen k a o) (Covers-seen k r a o h)

seen_all-Covers :
    (r : Row) {rs : List Row} → Memᴰ r rs → (o : Option Row) → Covers r (seen_all r.key rs o)
unfolding seen_all
seen_all-Covers r (Memᴰ.head {xs = l} e) o =
    rw (← e) (Covers-seen_all r.key r l (seen r.key r o) (seen-Covers r o))
seen_all-Covers r (Memᴰ.tail {x = b} m) o = seen_all-Covers r m (seen r.key b o)

upsert-covered :
    (r : Row) (rows : List Row)
    → Covers r (find r.key rows)
    → (find r.key (upsert r rows).0 ≡ find r.key rows) × ((upsert r rows).1 ≡ false)
unfolding merged
upsert-covered r rows h =
    ground (arith, find-upsert r.key r rows, upsert-changed r rows, key_eq_refl r.key)

-- Saving a reaction of a batch again, after the batch, finds the same row under its key and
-- reports that nothing changed.
upsert_replay :
    (r : Row) (rs rows : List Row)
    → Mem r rs
    → (find r.key (upsert r (record_all rs rows)).0 ≡ find r.key (record_all rs rows))
      × ((upsert r (record_all rs rows)).1 ≡ false)
upsert_replay r rs rows m = upsert-covered r (record_all rs rows) (
    rw (find-record_all r.key rs rows)
      (∥∥₁_elim m (Covers-prop r _) (λ d. seen_all-Covers r d (find r.key rows))))
