-- ===== src/Store/Chats/Again.antt =====
-- A chat whose conversation was ensured leads to that conversation again.
use convomeow.Base.{
  ℕ, ◌≡◌, refl, sym, ap, ◌∙◌, inl, inr, Bool, true, false, Option, none, some, List, [], ◌∷◌, arith,
  Option-cases,
}
use convomeow.Base.Tables.{find_where, find_where_holds}
use convomeow.Core.{ok, err}
use convomeow.Store.Tables.{Conversation, Database}
use convomeow.Store.Links.{contains, linked_jids}
use convomeow.Store.Merge.{merge_conversation}
use convomeow.Store.Merge.Kept.{merge_conversation-links}
use convomeow.Store.Chats.{
  ◌>>=◌, Draw, Ensured, Run, by_jid, has_id, candidate, add_candidate, candidates, sort,
  insert_sorted, merge_duplicates, insert_conversation, new_conversation, with_found, aliased,
  with_aliases, ensure_among, with_jids, ensure_conversation, find_conversation_id,
}
use convomeow.Store.Chats.Joined.{ensure_conversation-joins}

with_found-eq :
    (created : Bool) (db : Database) (found : Option Conversation) (e : Ensured)
    → with_found created db found ≡ some (ok e)
    → (e.after ≡ db) × (found ≡ some e.conversation)
with_found-eq created db none e h = cc
with_found-eq created db (some c) e h = ground arith

-- What `with_aliases` leaves of the rest, and whom it answers with.
with_aliases-eq :
    (account id : ℕ) (jids : List ℕ) (created : Bool) (db : Database) (e : Ensured)
    → with_aliases account id jids created db ≡ some (ok e)
    → (e.after.links ≡ db.links) × (e.after.messages ≡ db.messages) × (e.conversation.id ≡ id)
unfolding with_aliases
with_aliases-eq account id jids created db e h =
    let (same, found) =
      with_found-eq created (aliased account id jids db) (find_where (has_id id) db.conversations) e
        h in
    let held = find_where_holds (has_id id) db.conversations e.conversation found in
    (
      ap (λ (d : Database). d.links) same,
      ap (λ (d : Database). d.messages) same,
      ground (arith, held),
    )

-- The parts of a chain that succeeds.
pub bound_ok :
    {V W : Type 0} (r : Run V) (next : V → Run W) (end : W)
    → (r >>= next) ≡ some (ok end)
    → (v : V) × (r ≡ some (ok v)) × (next v ≡ some (ok end))
bound_ok none next end h = cc
bound_ok (some (err e)) next end h = cc
bound_ok (some (ok v)) next end h = (v, refl, h)

merge_duplicates-links :
    (draw : Draw) (target : ℕ) (cs : List Conversation) (db after : Database)
    → merge_duplicates draw target cs db ≡ some (ok after)
    → after.links ≡ db.links
unfolding merge_duplicates
merge_duplicates-links draw target [] db after h = ground arith
merge_duplicates-links draw target (c ∷ cs) db after h =
    let (mid, f, g) =
      bound_ok (merge_conversation draw.attachment target c.id db) (merge_duplicates draw target cs)
        after h in
    merge_duplicates-links draw target cs mid after g
    ∙ merge_conversation-links draw.attachment target c.id db mid f

insert_conversation-links :
    (c : Conversation) (db after : Database)
    → insert_conversation c db ≡ some (ok after)
    → after.links ≡ db.links
insert_conversation-links c db after h = ground arith

ensure_among-links :
    (draw : Draw) (account chat at : ℕ) (jids : List ℕ) (cs : List Conversation) (db : Database)
    (e : Ensured)
    → ensure_among draw account chat at jids cs db ≡ some (ok e)
    → e.after.links ≡ db.links
unfolding ensure_among
ensure_among-links draw account chat at jids [] db e h =
    let c = new_conversation draw.conversation account chat at in
    let (mid, f, g) =
      bound_ok (insert_conversation c db) (with_aliases account draw.conversation jids true) e h in
    (with_aliases-eq account draw.conversation jids true mid e g).0
    ∙ insert_conversation-links c db mid f
ensure_among-links draw account chat at jids (c ∷ cs) db e h =
    let (mid, f, g) =
      bound_ok (merge_duplicates draw c.id cs db) (with_aliases account c.id jids false) e h in
    (with_aliases-eq account c.id jids false mid e g).0
    ∙ merge_duplicates-links draw c.id cs db mid f

with_jids-links :
    (draw : Draw) (account chat at : ℕ) (db : Database) (found : Option (List ℕ)) (e : Ensured)
    → with_jids draw account chat at db found ≡ some (ok e)
    → e.after.links ≡ db.links
with_jids-links draw account chat at db none e h = cc
with_jids-links draw account chat at db (some jids) e h =
    ensure_among-links draw account chat at jids (sort (candidates account jids db)) db e h

-- The identifiers that are linked to the chat all lead to the conversation, which is there.
pub record IsAt (account chat conversation : ℕ) (db : Database) : Type 0 where
  pub jids : List ℕ
  pub linked : linked_jids account (chat ∷ []) db.links ≡ some jids
  pub own : contains jids chat ≡ true
  pub leads : (i : ℕ) → contains jids i ≡ true → find_conversation_id account i db ≡ ok conversation
  pub row : Conversation
  pub found : find_where (has_id conversation) db.conversations ≡ some row

pub ensured-IsAt :
    (draw : Draw) (account chat at : ℕ) (db : Database) (e : Ensured)
    → ensure_conversation draw account chat [] at db ≡ some (ok e)
    → IsAt account chat e.conversation.id e.after
unfolding ensure_conversation
ensured-IsAt draw account chat at db e h =
    let (jids, found, seeds, closed, leads, row) =
      ensure_conversation-joins draw account chat at [] db e h in
    let links : e.after.links ≡ db.links =
      with_jids-links draw account chat at db (linked_jids account (chat ∷ []) db.links) e
        (ground (arith, h)) in
    record {
      jids = jids;
      linked = ap (linked_jids account (chat ∷ [])) links ∙ found;
      own = seeds chat (ground arith) (ground (arith, h));
      leads = leads;
      row = e.conversation;
      found = row;
    }

candidate-found :
    (account jid conversation : ℕ) (db : Database) (x : Conversation)
    → find_conversation_id account jid db ≡ ok conversation
    → find_where (has_id conversation) db.conversations ≡ some x
    → candidate account jid db ≡ some x
unfolding find_conversation_id
candidate-found account jid conversation db x h f =
    elim (Option-cases (find_where (by_jid account jid) db.aliases)) [
      | inl missing ↦ ground (arith, missing, h)
      | inr (a, found) ↦
          let same : a.conversation_id ≡ conversation = ground (arith, found, h) in
          ground (arith, found, ap (λ i. find_where (has_id i) db.conversations) same ∙ f)
    ]

candidates-one :
    (account j : ℕ) (jids : List ℕ) (db : Database) (x : Conversation)
    → ((i : ℕ) → contains (j ∷ jids) i ≡ true → candidate account i db ≡ some x)
    → candidates account (j ∷ jids) db ≡ x ∷ []
unfolding candidates
candidates-one account j [] db x h = rw (h j (ground arith)) refl
candidates-one account j (k ∷ jids) db x h =
    let rest = candidates-one account k jids db x (λ i c. h i (ground (arith, c))) in
    let here : candidate account j db ≡ some x = h j (ground arith) in
    ap (λ cs. add_candidate (candidate account j db) cs) rest
    ∙ (ap (λ c. add_candidate c (x ∷ [])) here ∙ ground arith)

candidates-joined :
    (account chat : ℕ) (jids : List ℕ) (db : Database) (x : Conversation)
    → contains jids chat ≡ true
    → ((i : ℕ) → contains jids i ≡ true → candidate account i db ≡ some x)
    → candidates account jids db ≡ x ∷ []
candidates-joined account chat [] db x c h = cc
candidates-joined account chat (j ∷ jids) db x c h = candidates-one account j jids db x h

-- To ensure the conversation of the chat once more changes no message and finds the same.
pub ensure_again :
    (draw : Draw) (account chat conversation at : ℕ) (db : Database) (e : Ensured)
    → IsAt account chat conversation db
    → ensure_conversation draw account chat [] at db ≡ some (ok e)
    → (e.conversation.id ≡ conversation) × (e.after.messages ≡ db.messages)
unfolding ensure_conversation ensure_among merge_duplicates sort insert_sorted
ensure_again draw account chat conversation at db e v h =
    let one =
      candidates-joined account chat v.jids db v.row v.own
        (λ i c. candidate-found account i conversation db v.row (v.leads i c) v.found) in
    let run : with_jids draw account chat at db (linked_jids account (chat ∷ []) db.links)
        ≡ some (ok e) =
      ground (arith, h) in
    let last : with_aliases account v.row.id v.jids false db ≡ some (ok e) =
      sym (ap (λ cs. ensure_among draw account chat at v.jids (sort cs) db) one)
      ∙ (sym (ap (with_jids draw account chat at db) v.linked) ∙ run) in
    let (links, messages, id) = with_aliases-eq account v.row.id v.jids false db e last in
    let held = find_where_holds (has_id conversation) db.conversations v.row v.found in
    (ground (arith, id, held), messages)

-- What the place of a chat depends on.
pub moved-IsAt :
    (account chat conversation : ℕ) (db after : Database) (row : Conversation)
    → after.links ≡ db.links
    → after.aliases ≡ db.aliases
    → find_where (has_id conversation) after.conversations ≡ some row
    → IsAt account chat conversation db
    → IsAt account chat conversation after
unfolding find_conversation_id
moved-IsAt account chat conversation db after row links aliases found v = record {
  jids = v.jids;
  linked = ap (linked_jids account (chat ∷ [])) links ∙ v.linked;
  own = v.own;
  leads = λ i c. ground (arith, ap (find_where (by_jid account i)) aliases, v.leads i c);
  row = row;
  found = found;
}
