-- ===== src/Store/Deliveries/Attempts.antt =====
-- A delivery is attempted at most five times.
use convomeow.Base.{
  ℕ, suc, ◌≤◌, ◌<◌, ◌≡◌, refl, ap, inl, inr, Bool, true, ◌||◌, not, Option, none, some, List, [],
  ◌∷◌, arith, ltb, leb, ◌==◌, Bool-cases, Option-cases, All, subst,
}
use convomeow.Base.Tables.{find_where, delete_where}
use convomeow.Core.{ok, not_found, or_fail, >>=-eq-ok}
use convomeow.Store.Deliveries.{
  Subscription, Delivery, Deliveries, Claimed, expire, claim, claim_found, soonest, due,
}

-- What is picked is one of the jobs.
soonest-All :
    (P : Delivery → Type 0) (jobs : List Delivery) (j : Delivery)
    → All P jobs
    → soonest jobs ≡ some j
    → P j
soonest-All P [] j v e = cc
soonest-All P (k ∷ jobs) j v e = elim (Option-cases (soonest jobs)) [
  | inl none_left ↦ let same : k ≡ j = ground (arith, none_left) in subst P same v.0
  | inr (l, f) ↦ elim (Bool-cases (ltb l.available_at k.available_at)) [
    | inl sooner ↦
        let same : l ≡ j = ground (arith, f, sooner) in subst P same (soonest-All P jobs l v.1 f)
    | inr later ↦ let same : k ≡ j = ground (arith, f, later) in subst P same v.0
  ]
]

due-All :
    (P : Delivery → Type 0) (now : ℕ) (jobs : List Delivery) → All P jobs → All P (due now jobs)
due-All P now [] v = tt
due-All P now (j ∷ jobs) v = elim (Bool-cases (leb j.available_at now)) [
  | inl e ↦ rw e (v.0, due-All P now jobs v.1)
  | inr e ↦ rw e (due-All P now jobs v.1)
]

-- A job that may still be delivered: not late, and attempted fewer than five times.
abbrev pub is_live : ℕ → Delivery → Bool
is_live now j = not (leb j.expires_at now || leb 5 j.attempts)

deleted-All :
    (now : ℕ) (jobs : List Delivery)
    → All
        (λ j. is_live now j ≡ true)
        (delete_where (λ j. leb j.expires_at now || leb 5 j.attempts) jobs)
deleted-All now [] = tt
deleted-All now (j ∷ jobs) = elim (Bool-cases (leb j.expires_at now || leb 5 j.attempts)) [
  | inl e ↦ rw e (deleted-All now jobs)
  | inr e ↦ rw e (ap not e, deleted-All now jobs)
]

expire-All :
    (generation now : ℕ) (d : Deliveries)
    → All (λ j. is_live now j ≡ true) (expire generation now d).jobs
unfolding expire
expire-All generation now d = deleted-All now _

claim_found-eq :
    (now : ℕ) (d after : Deliveries) (o : Option Delivery) (c : Claimed)
    → claim_found now d o ≡ ok (some c, after)
    → (j : Delivery) × (o ≡ some j) × (c.attempts ≡ suc j.attempts) × (c.expires_at ≡ j.expires_at)
claim_found-eq now d after none c e = cc
claim_found-eq now d after (some j) c e =
    let (s, f, g) =
      >>=-eq-ok
        (or_fail (find_where (λ (s : Subscription). s.id == j.subscription_id) d.subscriptions)
          not_found)
        _ e in
    (j, refl, ground arith, ground arith)

-- A delivery that is claimed is its first to its fifth attempt, and it has not expired.
pub claim-attempts :
    (generation now : ℕ) (d after : Deliveries) (c : Claimed)
    → claim generation now d ≡ ok (some c, after)
    → (1 ≤ c.attempts) × (c.attempts ≤ 5) × (now < c.expires_at)
unfolding claim
claim-attempts generation now d after c e =
    let live = expire generation now d in
    let (j, found, attempts, expires) =
      claim_found-eq now live after (soonest (due now live.jobs)) c e in
    let holds =
      soonest-All (λ j. is_live now j ≡ true) (due now live.jobs) j
        (due-All (λ j. is_live now j ≡ true) now live.jobs (expire-All generation now d)) found in
    ground (arith, attempts, expires, holds)
