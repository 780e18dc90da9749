-- ===== src/Store/Links/Closure.antt =====
-- What `linked_jids` returns: the seeds, and all that can be reached from them by links.
use convomeow.Base.{
  ℕ, zero, suc, ◌+◌, ◌≡◌, inl, inr, Bool, true, some, List, [], ◌∷◌, ◌++◌, arith, ◌==◌, ◌||◌, ◌&&◌,
  length, Bool-cases, not, ◌≢◌, ap, ◌∙◌,
}
use convomeow.Store.Tables.{Link}
use convomeow.Store.Links.{contains, peers, unseen, expand, linked_jids}
use convomeow.Store.Links.Members.{contains-append, contains-unseen, is_peer, contains-peers}
use convomeow.Store.Links.Total.{linked_jids_total}

-- The peers of the identifiers in `xs` that are not empty are in `ys`.
abbrev HasPeers : ℕ → List Link → List ℕ → List ℕ → Type 0
HasPeers account links xs ys =
    (a b : ℕ)
    → contains xs a ≡ true
    → is_peer account a b links ≡ true
    → b ≢ 0
    → contains ys b ≡ true

contains_next :
    (done : List ℕ) (j : ℕ) (queue new : List ℕ) (a : ℕ)
    → contains ((done ++ j ∷ []) ++ (queue ++ new)) a
      ≡ (contains (done ++ j ∷ queue) a || contains new a)
contains_next done j queue new a = ground (
  arith,
  contains-append (done ++ j ∷ []) (queue ++ new) a,
  contains-append done (j ∷ []) a,
  contains-append queue new a,
  contains-append done (j ∷ queue) a,
)

module _ (account : ℕ) (links : List Link) where
  abbrev found : List ℕ → ℕ → List ℕ → List ℕ
  found done j queue = unseen (peers account j links) (done ++ j ∷ queue)

  contains-found :
      (done : List ℕ) (j : ℕ) (queue : List ℕ) (b : ℕ)
      → contains (found done j queue) b
        ≡ (is_peer account j b links && not (b == 0) && not (contains (done ++ j ∷ queue) b))
  contains-found done j queue b =
      contains-unseen (peers account j links) (done ++ j ∷ queue) b
      ∙ ap (λ t. t && not (b == 0) && not (contains (done ++ j ∷ queue) b))
          (contains-peers account j b links)

  -- Behind `i`, every identifier has its peers in the list.
  HasPeers-next :
      (done : List ℕ) (j : ℕ) (queue : List ℕ)
      → HasPeers account links done (done ++ j ∷ queue)
      → HasPeers account links (done ++ j ∷ []) ((done ++ j ∷ []) ++ (queue ++ found done j queue))
  HasPeers-next done j queue inv a b m p ne = elim (Bool-cases (contains done a)) [
    | inl old ↦ ground (arith, contains_next done j queue (found done j queue) b, inv a b old p ne)
    | inr new ↦
        let e : a ≡ j = ground (arith, contains-append done (j ∷ []) a) in
        ground (
          arith,
          contains_next done j queue (found done j queue) b,
          contains-found done j queue b,
          ap (λ t. is_peer account t b links) e,
        )
  ]

  expand-grows :
      (fuel : ℕ) (done queue r : List ℕ) (a : ℕ)
      → expand fuel account links done queue ≡ some r
      → contains (done ++ queue) a ≡ true
      → contains r a ≡ true
  unfolding expand
  expand-grows zero done queue r a e m = cc
  expand-grows (suc fuel) done [] r a e m = ground (arith, contains-append done [] a)
  expand-grows (suc fuel) done (j ∷ queue) r a e m =
      expand-grows fuel (done ++ j ∷ []) (queue ++ found done j queue) r a e
        (ground (arith, contains_next done j queue (found done j queue) a))

  expand-HasPeers :
      (fuel : ℕ) (done queue r : List ℕ)
      → expand fuel account links done queue ≡ some r
      → HasPeers account links done (done ++ queue)
      → HasPeers account links r r
  unfolding expand
  expand-HasPeers zero done queue r e inv = cc
  expand-HasPeers (suc fuel) done [] r e inv =
      λ a b m p ne. ground (arith, inv a b, contains-append done [] b)
  expand-HasPeers (suc fuel) done (j ∷ queue) r e inv =
      expand-HasPeers fuel (done ++ j ∷ []) (queue ++ found done j queue) r e
        (HasPeers-next done j queue inv)

  -- A set that is closed under the links.
  abbrev pub IsClosed : (ℕ → Bool) → Type 0
  IsClosed S = (a b : ℕ) → S a ≡ true → is_peer account a b links ≡ true → b ≢ 0 → S b ≡ true

  expand-least :
      (S : ℕ → Bool) (fuel : ℕ) (done queue r : List ℕ)
      → IsClosed S
      → expand fuel account links done queue ≡ some r
      → ((a : ℕ) → contains (done ++ queue) a ≡ true → S a ≡ true)
      → (a : ℕ) → contains r a ≡ true
      → S a ≡ true
  unfolding expand
  expand-least S zero done queue r closed e h = cc
  expand-least S (suc fuel) done [] r closed e h =
      λ a m. ground (arith, h a, contains-append done [] a)
  expand-least S (suc fuel) done (j ∷ queue) r closed e h =
      expand-least S fuel (done ++ j ∷ []) (queue ++ found done j queue) r closed e (λ a m. ground (
        arith,
        h a,
        h j,
        closed j a,
        contains_next done j queue (found done j queue) a,
        contains-found done j queue a,
        contains-append done (j ∷ queue) j,
      ))

-- `linked_jids` returns, in every case, a list that holds exactly the seeds that are not empty and
-- what links lead to from them: it holds those seeds, it is closed under the links of the account,
-- and it lies within every set of which the same is true.
pub linked_jids_least :
    (account : ℕ) (seeds : List ℕ) (links : List Link)
    → (r : List ℕ) × (linked_jids account seeds links ≡ some r)
      × ((a : ℕ) → contains seeds a ≡ true → a ≢ 0 → contains r a ≡ true)
      × IsClosed account links (contains r)
      × ((S : ℕ → Bool)
          → IsClosed account links S
          → ((a : ℕ) → contains seeds a ≡ true → a ≢ 0 → S a ≡ true)
          → (a : ℕ) → contains r a ≡ true
          → S a ≡ true)
unfolding linked_jids
linked_jids_least account seeds links =
    let (r, e) = linked_jids_total account seeds links in
    (
      r,
      e,
      λ a m ne.
          expand-grows account links (suc (length seeds + length links)) [] (unseen seeds []) r a e
            (ground (arith, contains-unseen seeds [] a)),
      expand-HasPeers account links (suc (length seeds + length links)) [] (unseen seeds []) r e
          (λ a b m p ne. cc),
      λ S closed h.
          expand-least account links S (suc (length seeds + length links)) [] (unseen seeds []) r
            closed e (λ a m. ground (arith, h a, contains-unseen seeds [] a)),
    )
