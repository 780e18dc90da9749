-- ===== src/Store/Chats/Joined.antt =====
-- Linked identifiers lead to one conversation.
use convomeow.Base.{
  ℕ, ◌≡◌, refl, ap, ◌∙◌, ◌≢◌, inl, inr, Bool, true, false, Option, none, some, List, [], ◌∷◌, arith,
  ◌==◌, if◌then◌else◌, Bool-cases, subst,
}
use convomeow.Base.Tables.{
  find_where, any, update_where, find_where-update_where, find_where-append, find_where-any,
  find_where_holds,
}
use convomeow.Core.{ok, err}
use convomeow.Store.Tables.{Conversation, Alias, Database}
use convomeow.Store.Links.{contains, linked_jids}
use convomeow.Store.Links.Closure.{linked_jids_least, IsClosed}
use convomeow.Store.Chats.{
  Draw, Ensured, by_jid, has_id, save_alias, save_aliases, with_aliases, ensure_among, with_jids,
  ensure_conversation, merge_duplicates, find_conversation_id, sort, candidates, new_conversation,
  Run, ◌>>=◌, with_found, aliased, insert_conversation,
}

-- The identifier leads to the conversation.
abbrev LeadsTo : ℕ → ℕ → ℕ → List Alias → Type 0
LeadsTo account conversation jid rows =
    (a : Alias) × (find_where (by_jid account jid) rows ≡ some a)
    × (a.conversation_id ≡ conversation)

find-any :
    (account jid : ℕ) (rows : List Alias)
    → any (by_jid account jid) rows ≡ true
    → (a : Alias) × (find_where (by_jid account jid) rows ≡ some a)
find-any account jid [] h = cc
find-any account jid (r ∷ rows) h = elim (Bool-cases (by_jid account jid r)) [
  | inl e ↦ (r, rw e refl)
  | inr e ↦
      let (a, f) = find-any account jid rows (ground (arith, e, h)) in (a, ground (arith, e, f))
]

-- The two ways of an upsert.
find-renamed :
    (account conversation i j : ℕ) (rows : List Alias) (a : Alias)
    → find_where (by_jid account i) rows ≡ some a
    → find_where
        (by_jid account i)
        (update_where (by_jid account j) (λ a. record a { conversation_id = conversation }) rows)
      ≡ some (if by_jid account j a then record a { conversation_id = conversation } else a)
find-renamed account conversation i j rows a f =
    find_where-update_where (by_jid account j) (by_jid account i)
      (λ a. record a { conversation_id = conversation }) rows (λ x h. refl)
    ∙ rw f refl

alias_saved :
    (account conversation jid : ℕ) (rows : List Alias)
    → LeadsTo account conversation jid (save_alias account conversation jid rows)
unfolding save_alias
alias_saved account conversation jid rows = elim (Bool-cases (any (by_jid account jid) rows)) [
  | inl old ↦
      let (a, f) = find-any account jid rows old in
      let hit = find_where_holds (by_jid account jid) rows a f in
      (
        record a { conversation_id = conversation },
        rw old (find-renamed account conversation jid jid rows a f ∙ rw hit refl),
        refl,
      )
  | inr new ↦ (
    record { account_id = account; jid = jid; conversation_id = conversation },
    rw new (
        ground (
          arith,
          find_where-append (by_jid account jid) rows
              (record { account_id = account; jid = jid; conversation_id = conversation } ∷ []),
          find_where-any (by_jid account jid) rows new,
        )),
    refl,
  )
]

alias_kept :
    (account conversation i j : ℕ) (rows : List Alias)
    → LeadsTo account conversation i rows
    → LeadsTo account conversation i (save_alias account conversation j rows)
unfolding save_alias
alias_kept account conversation i j rows (a, f, c) =
    elim (Bool-cases (any (by_jid account j) rows)) [
      | inl old ↦ (
        (if by_jid account j a then record a { conversation_id = conversation } else a),
        rw old (find-renamed account conversation i j rows a f),
        ground (arith, c),
      )
      | inr new ↦ (
        a,
        rw new (
            find_where-append (by_jid account i) rows
              (record { account_id = account; jid = j; conversation_id = conversation } ∷ [])
            ∙ rw f refl),
        c,
      )
    ]

aliases_kept :
    (account conversation i : ℕ) (jids : List ℕ) (rows : List Alias)
    → LeadsTo account conversation i rows
    → LeadsTo account conversation i (save_aliases account conversation jids rows)
unfolding save_aliases
aliases_kept account conversation i [] rows l = l
aliases_kept account conversation i (j ∷ jids) rows l =
    aliases_kept account conversation i jids (save_alias account conversation j rows)
      (alias_kept account conversation i j rows l)

aliases_saved :
    (account conversation i : ℕ) (jids : List ℕ) (rows : List Alias)
    → contains jids i ≡ true
    → LeadsTo account conversation i (save_aliases account conversation jids rows)
unfolding save_aliases
aliases_saved account conversation i [] rows h = cc
aliases_saved account conversation i (j ∷ jids) rows h = elim (Bool-cases (j == i)) [
  | inl same ↦
      let at : j ≡ i = ground (arith, same) in
      aliases_kept account conversation i jids (save_alias account conversation j rows) (
        subst (λ k. LeadsTo account conversation k (save_alias account conversation j rows)) at
          (alias_saved account conversation j rows))
  | inr other ↦
      aliases_saved account conversation i jids (save_alias account conversation j rows)
        (ground (arith, other, h))
]

-- What `with_aliases` leaves behind.
abbrev IsJoined : ℕ → List ℕ → Ensured → Type 0
IsJoined account jids e =
    (find_where (has_id e.conversation.id) e.after.conversations ≡ some e.conversation)
    × ((i : ℕ)
        → contains jids i ≡ true
        → find_conversation_id account i e.after ≡ ok e.conversation.id)

found-IsJoined :
    (account id : ℕ) (jids : List ℕ) (created : Bool) (db : Database) (found : Option Conversation)
    (e : Ensured)
    → find_where (has_id id) db.conversations ≡ found
    → with_found created (aliased account id jids db) found ≡ some (ok e)
    → IsJoined account jids e
unfolding find_conversation_id
found-IsJoined account id jids created db none e f h = cc
found-IsJoined account id jids created db (some c) e f h =
    let same : record { conversation = c; created = created; after = aliased account id jids db }
        ≡ e =
      ground arith in
    let own : c.id ≡ id = ground (arith, find_where_holds (has_id id) db.conversations c f) in
    subst (IsJoined account jids) same (
      ap (λ i. find_where (has_id i) db.conversations) own ∙ f,
      λ i m.
          let (a, g, to) = aliases_saved account id i jids db.aliases m in
          ground (arith, g, to, own),
    )

with_aliases-IsJoined :
    (account id : ℕ) (jids : List ℕ) (created : Bool) (db : Database) (e : Ensured)
    → with_aliases account id jids created db ≡ some (ok e)
    → IsJoined account jids e
unfolding with_aliases
with_aliases-IsJoined account id jids created db e h =
    found-IsJoined account id jids created db (find_where (has_id id) db.conversations) e refl h

-- The end of a chain that succeeds.
bind_ok :
    (r : Run Database) (next : Database → Run Ensured) (e : Ensured)
    → (r >>= next) ≡ some (ok e)
    → (db : Database) × (next db ≡ some (ok e))
bind_ok none next e h = cc
bind_ok (some (err failure)) next e h = cc
bind_ok (some (ok db)) next e h = (db, h)

ensure_among-IsJoined :
    (draw : Draw) (account chat at : ℕ) (jids : List ℕ) (cs : List Conversation) (db : Database)
    (e : Ensured)
    → ensure_among draw account chat at jids cs db ≡ some (ok e)
    → IsJoined account jids e
unfolding ensure_among
ensure_among-IsJoined draw account chat at jids [] db e h =
    let (mid, f) =
      bind_ok (insert_conversation (new_conversation draw.conversation account chat at) db)
        (with_aliases account draw.conversation jids true) e h in
    with_aliases-IsJoined account draw.conversation jids true mid e f
ensure_among-IsJoined draw account chat at jids (c ∷ cs) db e h =
    let (mid, f) =
      bind_ok (merge_duplicates draw c.id cs db) (with_aliases account c.id jids false) e h in
    with_aliases-IsJoined account c.id jids false mid e f

with_jids-IsJoined :
    (draw : Draw) (account chat at : ℕ) (db : Database) (found : Option (List ℕ)) (jids : List ℕ)
    (e : Ensured)
    → found ≡ some jids
    → with_jids draw account chat at db found ≡ some (ok e)
    → IsJoined account jids e
with_jids-IsJoined draw account chat at db none jids e f h = cc
with_jids-IsJoined draw account chat at db (some js) jids e f h =
    let same : js ≡ jids = ground arith in
    subst (λ js. IsJoined account js e) same
      (ensure_among-IsJoined draw account chat at js (sort (candidates account js db)) db e h)

-- Where a conversation is ensured for a chat and its aliases, the search over the links ends with
-- a set of identifiers, and each of them leads to that conversation afterwards; the conversation
-- itself is in the database. The set holds the chat and the aliases that are not empty, and what
-- links of the account lead to from its members.
pub ensure_conversation-joins :
    (draw : Draw) (account chat at : ℕ) (aliases : List ℕ) (db : Database) (e : Ensured)
    → ensure_conversation draw account chat aliases at db ≡ some (ok e)
    → (jids : List ℕ) × (linked_jids account (chat ∷ aliases) db.links ≡ some jids)
      × ((i : ℕ) → contains (chat ∷ aliases) i ≡ true → i ≢ 0 → contains jids i ≡ true)
      × IsClosed account db.links (contains jids)
      × ((i : ℕ)
          → contains jids i ≡ true
          → find_conversation_id account i e.after ≡ ok e.conversation.id)
      × (find_where (has_id e.conversation.id) e.after.conversations ≡ some e.conversation)
unfolding ensure_conversation
ensure_conversation-joins draw account chat at aliases db e h =
    let (jids, found, seeds, closed, least) = linked_jids_least account (chat ∷ aliases) db.links in
    let joined =
      with_jids-IsJoined draw account chat at db (linked_jids account (chat ∷ aliases) db.links)
        jids e found (ground (arith, h)) in
    (jids, found, seeds, closed, joined.1, joined.0)
