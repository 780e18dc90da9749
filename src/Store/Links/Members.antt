-- ===== src/Store/Links/Members.antt =====
-- Membership in the lists of the loop.
use convomeow.Base.{ℕ, ◌≡◌, refl, Bool, false, List, [], ◌∷◌, ◌++◌, arith, ◌==◌, ◌||◌, ◌&&◌, not}
use convomeow.Store.Tables.{Link}
use convomeow.Store.Links.{contains, peers, unseen}

pub contains-append :
    (xs ys : List ℕ) (a : ℕ) → contains (xs ++ ys) a ≡ (contains xs a || contains ys a)
contains-append [] ys a = refl
contains-append (x ∷ xs) ys a = ground (arith, contains-append xs ys a)

-- A peer of `a` by some link of the account.
pub is_peer : ℕ → ℕ → ℕ → List Link → Bool
is_peer account a b [] = false
is_peer account a b (l ∷ ls) =
    (l.account_id == account && l.jid == a && l.peer_jid == b) || is_peer account a b ls

pub contains-peers :
    (account a b : ℕ) (links : List Link)
    → contains (peers account a links) b ≡ is_peer account a b links
unfolding peers is_peer
contains-peers account a b [] = refl
contains-peers account a b (l ∷ ls) = ground (arith, contains-peers account a b ls)

-- What is taken is exactly what is in the list, is not empty and has not been seen.
pub contains-unseen :
    (ps seen : List ℕ) (a : ℕ)
    → contains (unseen ps seen) a ≡ (contains ps a && not (a == 0) && not (contains seen a))
unfolding unseen
contains-unseen [] seen a = refl
contains-unseen (p ∷ ps) seen a =
    ground (arith, contains-unseen ps seen a, contains-unseen ps (p ∷ seen) a)
