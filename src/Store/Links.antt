-- ===== src/Store/Links.antt =====
-- internal/store/sqlite/aliases.go: the linked identifiers of an account, `linkedJIDsTx` and the
-- insertion of `addChatLinkTx`. The queue of the loop is the part of `jids` from `i` on.
pub mod Members
pub mod Total
pub mod Closure
pub mod Symmetric
use convomeow.Base.{
  ℕ, zero, suc, Bool, false, ◌||◌, ◌&&◌, Option, none, some, List, [], ◌∷◌, ◌++◌, ◌==◌,
  if◌then◌else◌, length, ◌+◌,
}
use convomeow.Base.Tables.{any}
use convomeow.Store.Tables.{Link}

abbrev pub contains : List ℕ → ℕ → Bool
contains [] a = false
contains (x ∷ xs) a = x == a || contains xs a

-- `SELECT peer_jid FROM jid_links WHERE account_id = ? AND jid = ?`
pub peers : ℕ → ℕ → List Link → List ℕ
peers account jid [] = []
peers account jid (l ∷ ls) =
    let rest = peers account jid ls in
    if l.account_id == account && l.jid == jid then l.peer_jid ∷ rest else rest

-- The identifiers of a list that are not empty and not seen yet, each once.
pub unseen : List ℕ → List ℕ → List ℕ
unseen [] seen = []
unseen (p ∷ ps) seen =
    let skipped = unseen ps seen in
    let taken = p ∷ unseen ps (p ∷ seen) in if p == 0 || contains seen p then skipped else taken

-- The loop over `jids`, with `done` the identifiers behind `i`; `none` means that the fuel ran out.
pub expand : ℕ → ℕ → List Link → List ℕ → List ℕ → Option (List ℕ)
unfolding peers unseen
expand zero account links done queue = none
expand (suc fuel) account links done [] = some done
expand (suc fuel) account links done (j ∷ queue) =
    expand fuel account links (done ++ j ∷ [])
      (queue ++ unseen (peers account j links) (done ++ j ∷ queue))

-- Each round takes one identifier from the queue, and each is a seed or the peer of some link.
unfoldable pub linked_jids : ℕ → List ℕ → List Link → Option (List ℕ)
unfolding expand
linked_jids account seeds links =
    expand (suc (length seeds + length links)) account links [] (unseen seeds [])

-- `INSERT OR IGNORE INTO jid_links`
pub insert_link : Link → List Link → List Link
insert_link l links =
    if any (λ r. r.account_id == l.account_id && (r.jid == l.jid && r.peer_jid == l.peer_jid)) links
    then links
    else links ++ l ∷ []

-- The links that `addChatLinkTx` adds: one in each direction.
pub link_pair : ℕ → ℕ → ℕ → List Link → List Link
unfolding insert_link
link_pair account first second links =
    if first == 0 || (second == 0 || first == second)
    then links
    else insert_link (record { account_id = account; jid = second; peer_jid = first })
        (insert_link (record { account_id = account; jid = first; peer_jid = second }) links)
