-- ===== src/Store/Chats/Total.antt =====
-- `ensureConversationTx` ends: the search over the links does, and so do the merges.
use convomeow.Base.{
  ℕ, ◌≡◌, refl, ◌∙◌, ◌≢◌, inl, inr, Bool, true, false, ◌||◌, Option, none, some, List, [], ◌∷◌,
  arith, ◌==◌, Bool-cases, Option-cases,
}
use convomeow.Base.Tables.{find_where, any}
use convomeow.Core.{ok, err}
use convomeow.Store.Tables.{Conversation, Database}
use convomeow.Store.Links.{linked_jids}
use convomeow.Store.Links.Total.{linked_jids_total}
use convomeow.Store.Merge.{merge_conversation}
use convomeow.Store.Merge.Carried.{IsUnique}
use convomeow.Store.Merge.Lossless.{merge_conversation-total, merge_conversation-IsUnique}
use convomeow.Store.Chats.{
  Draw, Run, ◌>>=◌, has_id, with_aliases, ensure_among, with_jids, ensure_conversation,
  merge_duplicates, sort, insert_sorted, candidates, candidate, add_candidate, insert_conversation,
  new_conversation, is_before,
}

abbrev AreDistinct : List Conversation → Type 0
AreDistinct [] = Unit {0}
AreDistinct (c ∷ cs) = (any (has_id c.id) cs ≡ false) × AreDistinct cs

candidates-AreDistinct :
    (account : ℕ) (jids : List ℕ) (db : Database) → AreDistinct (candidates account jids db)
unfolding candidates
candidates-AreDistinct account [] db = tt
candidates-AreDistinct account (j ∷ jids) db =
    added (candidate account j db) (candidates account jids db)
      (candidates-AreDistinct account jids db)
  where
    added :
        (o : Option Conversation) (cs : List Conversation)
        → AreDistinct cs
        → AreDistinct (add_candidate o cs)
    added none cs d = d
    added (some c) cs d = elim (Bool-cases (any (has_id c.id) cs)) [
      | inl old ↦ rw old d
      | inr new ↦ rw new (new, d)
    ]

any-insert_sorted :
    (i : ℕ) (c : Conversation) (cs : List Conversation)
    → any (has_id i) (insert_sorted c cs) ≡ (c.id == i || any (has_id i) cs)
unfolding insert_sorted
any-insert_sorted i c [] = refl
any-insert_sorted i c (d ∷ cs) = ground (arith, any-insert_sorted i c cs)

any-sort : (i : ℕ) (cs : List Conversation) → any (has_id i) (sort cs) ≡ any (has_id i) cs
unfolding sort
any-sort i [] = refl
any-sort i (c ∷ cs) = ground (arith, any-insert_sorted i c (sort cs), any-sort i cs)

insert_sorted-AreDistinct :
    (c : Conversation) (cs : List Conversation)
    → any (has_id c.id) cs ≡ false
    → AreDistinct cs
    → AreDistinct (insert_sorted c cs)
unfolding insert_sorted
insert_sorted-AreDistinct c [] h d = (refl, tt)
insert_sorted-AreDistinct c (x ∷ cs) h d = elim (Bool-cases (is_before x c)) [
  | inl e ↦ rw e (
    ground (arith, any-insert_sorted x.id c cs, d.0, h),
    insert_sorted-AreDistinct c cs (ground (arith, h)) d.1,
  )
  | inr e ↦ rw e (h, d)
]

sort-AreDistinct : (cs : List Conversation) → AreDistinct cs → AreDistinct (sort cs)
unfolding sort
sort-AreDistinct [] d = tt
sort-AreDistinct (c ∷ cs) d =
    insert_sorted-AreDistinct c (sort cs) (any-sort c.id cs ∙ d.0) (sort-AreDistinct cs d.1)

bind-total :
    {V W : Type 0} (r : Run V) (next : V → Run W)
    → r ≢ none
    → ((v : V) → r ≡ some (ok v) → next v ≢ none)
    → (r >>= next) ≢ none
bind-total none next ne h = λ f. ne refl
bind-total (some (err e)) next ne h = λ f. cc
bind-total (some (ok v)) next ne h = h v refl

merge_duplicates-total :
    (draw : Draw) (target : ℕ) (cs : List Conversation) (db : Database)
    → any (has_id target) cs ≡ false
    → IsUnique db.messages
    → merge_duplicates draw target cs db ≢ none
unfolding merge_duplicates
merge_duplicates-total draw target [] db h u = λ f. cc
merge_duplicates-total draw target (c ∷ cs) db h u =
    let ne : target ≢ c.id = λ same. ground arith in
    bind-total (merge_conversation draw.attachment target c.id db) (merge_duplicates draw target cs)
      (λ f.
        let (r, g) = merge_conversation-total draw.attachment target c.id db ne u in ground arith)
      (λ mid f.
        merge_duplicates-total draw target cs mid (ground (arith, h))
          (merge_conversation-IsUnique draw.attachment target c.id db mid ne u f))

with_aliases-total :
    (account id : ℕ) (jids : List ℕ) (created : Bool) (db : Database)
    → with_aliases account id jids created db ≢ none
unfolding with_aliases
with_aliases-total account id jids created db =
    elim (Option-cases (find_where (has_id id) db.conversations)) [
      | inl e ↦ λ f. ground (arith, e, f)
      | inr (c, e) ↦ λ f. ground (arith, e, f)
    ]

ensure_among-total :
    (draw : Draw) (account chat at : ℕ) (jids : List ℕ) (cs : List Conversation) (db : Database)
    → AreDistinct cs
    → IsUnique db.messages
    → ensure_among draw account chat at jids cs db ≢ none
unfolding ensure_among
ensure_among-total draw account chat at jids [] db d u =
    let c = new_conversation draw.conversation account chat at in
    bind-total (insert_conversation c db) (with_aliases account draw.conversation jids true)
      (λ f. ground arith) (λ mid f. with_aliases-total account draw.conversation jids true mid)
ensure_among-total draw account chat at jids (c ∷ cs) db d u =
    bind-total (merge_duplicates draw c.id cs db) (with_aliases account c.id jids false)
      (merge_duplicates-total draw c.id cs db d.0 u)
      (λ mid f. with_aliases-total account c.id jids false mid)

with_jids-total :
    (draw : Draw) (account chat at : ℕ) (db : Database) (jids : List ℕ) (found : Option (List ℕ))
    → found ≡ some jids
    → IsUnique db.messages
    → with_jids draw account chat at db found ≢ none
with_jids-total draw account chat at db jids none e u = cc
with_jids-total draw account chat at db jids (some js) e u =
    ensure_among-total draw account chat at js (sort (candidates account js db)) db
      (sort-AreDistinct (candidates account js db) (candidates-AreDistinct account js db)) u

-- Where message identifiers are unique, `ensure_conversation` always returns a result or an error:
-- neither the search over the links nor the loop of any merge runs out of rounds.
pub ensure_conversation-total :
    (draw : Draw) (account chat at : ℕ) (aliases : List ℕ) (db : Database)
    → IsUnique db.messages
    → ensure_conversation draw account chat aliases at db ≢ none
unfolding ensure_conversation
ensure_conversation-total draw account chat at aliases db u =
    let (jids, found) = linked_jids_total account (chat ∷ aliases) db.links in
    ground (
      arith,
      with_jids-total draw account chat at db jids (linked_jids account (chat ∷ aliases) db.links)
          found u,
    )
