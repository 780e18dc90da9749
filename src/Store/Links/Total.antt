-- ===== src/Store/Links/Total.antt =====
-- The fuel of `linked_jids` is enough: every identifier that is queued uses up a link.
use convomeow.Base.{
  ℕ, zero, suc, ◌+◌, ◌≤◌, ◌<◌, ◌≡◌, refl, inl, inr, Bool, true, false, some, List, [], ◌∷◌, ◌++◌,
  arith, ◌==◌, if◌then◌else◌, ◌||◌, ◌&&◌, length, length-append, Bool-cases,
}
use convomeow.Store.Tables.{Link}
use convomeow.Store.Links.{contains, peers, unseen, expand, linked_jids}
use convomeow.Store.Links.Members.{contains-append}

-- The links whose peer has not been seen.
fresh : List Link → List ℕ → ℕ
fresh [] seen = 0
fresh (l ∷ ls) seen = (if contains seen l.peer_jid then 0 else 1) + fresh ls seen

abbrev is_target : List Link → ℕ → Bool
is_target [] p = false
is_target (l ∷ ls) p = l.peer_jid == p || is_target ls p

fresh-le-length : (ls : List Link) (seen : List ℕ) → fresh ls seen ≤ length ls
unfolding fresh
fresh-le-length [] seen = omega arith
fresh-le-length (l ∷ ls) seen = ground (arith, fresh-le-length ls seen)

-- Only membership counts.
fresh_congr :
    (ls : List Link) (xs ys : List ℕ)
    → ((a : ℕ) → contains xs a ≡ contains ys a)
    → fresh ls xs ≡ fresh ls ys
unfolding fresh
fresh_congr [] xs ys h = refl
fresh_congr (l ∷ ls) xs ys h = rw (h l.peer_jid) (omega (arith, fresh_congr ls xs ys h))

fresh-cons-le : (ls : List Link) (p : ℕ) (seen : List ℕ) → fresh ls (p ∷ seen) ≤ fresh ls seen
unfolding fresh
fresh-cons-le [] p seen = omega arith
fresh-cons-le (l ∷ ls) p seen = ground (arith, fresh-cons-le ls p seen)

fresh-cons-lt :
    (ls : List Link) (p : ℕ) (seen : List ℕ)
    → is_target ls p ≡ true
    → contains seen p ≡ false
    → fresh ls (p ∷ seen) < fresh ls seen
unfolding fresh
fresh-cons-lt [] p seen h k = cc
fresh-cons-lt (l ∷ ls) p seen h k = ground (arith, fresh-cons-lt ls p seen, fresh-cons-le ls p seen)

or_false : (a b : Bool) → (a || b) ≡ false → b ≡ false
or_false a b h = ground arith

abbrev AllTargets : List Link → List ℕ → Type 0
AllTargets ls [] = Unit {0}
AllTargets ls (p ∷ ps) = (is_target ls p ≡ true) × AllTargets ls ps

swap_middle :
    (p : ℕ) (xs ys : List ℕ) (a : ℕ) → contains (p ∷ (xs ++ ys)) a ≡ contains (xs ++ p ∷ ys) a
swap_middle p xs ys a = ground (arith, contains-append xs ys a, contains-append xs (p ∷ ys) a)

fresh-unseen :
    (ls : List Link) (ps seen : List ℕ)
    → AllTargets ls ps
    → length (unseen ps seen) + fresh ls (unseen ps seen ++ seen) ≤ fresh ls seen
unfolding unseen
fresh-unseen ls [] seen h = omega arith
fresh-unseen ls (p ∷ ps) seen h = elim (Bool-cases (p == 0 || contains seen p)) [
  | inl skip ↦ rw skip (fresh-unseen ls ps seen h.1)
  | inr take ↦ rw take (
      omega (
        arith,
        fresh_congr ls (p ∷ (unseen ps (p ∷ seen) ++ seen)) (unseen ps (p ∷ seen) ++ p ∷ seen)
            (swap_middle p (unseen ps (p ∷ seen)) seen),
        fresh-unseen ls ps (p ∷ seen) h.1,
        fresh-cons-lt ls p seen h.0 (or_false (p == 0) (contains seen p) take),
      ))
]

AllTargets-cons :
    (l : Link) (ls : List Link) (ps : List ℕ) → AllTargets ls ps → AllTargets (l ∷ ls) ps
AllTargets-cons l ls [] h = tt
AllTargets-cons l ls (p ∷ ps) h = (ground (arith, h.0), AllTargets-cons l ls ps h.1)

peers-AllTargets : (account j : ℕ) (ls : List Link) → AllTargets ls (peers account j ls)
unfolding peers
peers-AllTargets account j [] = tt
peers-AllTargets account j (l ∷ ls) = elim (Bool-cases (l.account_id == account && l.jid == j)) [
  | inl it ↦ rw it (ground arith, AllTargets-cons l ls _ (peers-AllTargets account j ls))
  | inr other ↦ rw other (AllTargets-cons l ls _ (peers-AllTargets account j ls))
]

regroup :
    (done : List ℕ) (j : ℕ) (queue new : List ℕ) (a : ℕ)
    → contains ((done ++ j ∷ []) ++ (queue ++ new)) a ≡ contains (new ++ (done ++ j ∷ queue)) a
regroup done j queue new a = ground (
  arith,
  contains-append (done ++ j ∷ []) (queue ++ new) a,
  contains-append done (j ∷ []) a,
  contains-append queue new a,
  contains-append new (done ++ j ∷ queue) a,
  contains-append done (j ∷ queue) a,
)

expand_total :
    (fuel account : ℕ) (links : List Link) (done queue : List ℕ)
    → length queue + fresh links (done ++ queue) < fuel
    → (r : List ℕ) × (expand fuel account links done queue ≡ some r)
unfolding expand
expand_total zero account links done queue h = elim h [ ]
expand_total (suc fuel) account links done [] h = (done, refl)
expand_total (suc fuel) account links done (j ∷ queue) h =
    let new = unseen (peers account j links) (done ++ j ∷ queue) in
    expand_total fuel account links (done ++ j ∷ []) (queue ++ new) (
      omega (
        arith,
        length-append queue new,
        fresh_congr links ((done ++ j ∷ []) ++ (queue ++ new)) (new ++ (done ++ j ∷ queue))
            (regroup done j queue new),
        fresh-unseen links (peers account j links) (done ++ j ∷ queue)
            (peers-AllTargets account j links),
      ))

length-unseen-le : (ps seen : List ℕ) → length (unseen ps seen) ≤ length ps
unfolding unseen
length-unseen-le [] seen = omega arith
length-unseen-le (p ∷ ps) seen =
    ground (arith, length-unseen-le ps seen, length-unseen-le ps (p ∷ seen))

-- The search for linked identifiers never runs out of fuel: it returns a list.
pub linked_jids_total :
    (account : ℕ) (seeds : List ℕ) (links : List Link)
    → (r : List ℕ) × (linked_jids account seeds links ≡ some r)
unfolding linked_jids
linked_jids_total account seeds links =
    expand_total (suc (length seeds + length links)) account links [] (unseen seeds [])
      (omega (arith, length-unseen-le seeds [], fresh-le-length links (unseen seeds [])))
