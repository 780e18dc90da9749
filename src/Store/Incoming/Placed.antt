-- ===== src/Store/Incoming/Placed.antt =====
-- The conversation that a message which names none is put into.
use convomeow.Base.{
  ℕ, ◌≡◌, refl, sym, ap, ◌∙◌, inl, inr, Option, none, some, [], arith, ◌==◌, if◌then◌else◌,
  Bool-cases, Option-cases, subst,
}
use convomeow.Base.Tables.{find_where, find_where-update_where, select_where}
use convomeow.Core.{Result, ok, err}
use convomeow.Store.Tables.{Message, Conversation, Database}
use convomeow.Store.Conversations.{
  refresh_conversation, refresh_conversation-SameBut, latest, touch,
}
use convomeow.Store.Messages.{NewMessage}
use convomeow.Store.Chats.{Draw, Ensured, has_id, ensure_conversation}
use convomeow.Store.Chats.Again.{IsAt, ensured-IsAt, ensure_again, moved-IsAt, bound_ok}
use convomeow.Store.Incoming.{
  Saved, save_new, save_in_conversation, upsert_message, upserted, with_saved, with_parts,
  by_key_of, refreshed, in_ensured,
}
use convomeow.Store.Incoming.Once.{saved_with-ok}

-- A save into a conversation keeps the tables that lead to it.
abbrev KeepsPlaces : Database → Database → Type 0
KeepsPlaces db after =
    (after.links ≡ db.links)
    × (after.aliases ≡ db.aliases)
    × (after.conversations ≡ db.conversations)

upsert-KeepsPlaces :
    (m : NewMessage) (db after : Database) → upsert_message m db ≡ ok after → KeepsPlaces db after
unfolding upsert_message
upsert-KeepsPlaces m db after e = ground arith

parts-KeepsPlaces :
    (m : NewMessage) (id : ℕ) (db after : Database)
    → with_parts m id db ≡ ok after
    → KeepsPlaces db after
parts-KeepsPlaces m id db after e = ground arith

saved-KeepsPlaces :
    (m : NewMessage) (db : Database) (found : Option Message) (s : Saved)
    → with_saved m db found ≡ some (ok s)
    → KeepsPlaces db s.after
saved-KeepsPlaces m db none s e = cc
saved-KeepsPlaces m db (some x) s e =
    let (same, parts) = saved_with-ok x (with_parts m x.id db) s e in
    parts-KeepsPlaces m x.id db s.after parts

upserted-KeepsPlaces :
    (m : NewMessage) (db : Database) (r : Result Database) (s : Saved)
    → ((mid : Database) → r ≡ ok mid → KeepsPlaces db mid)
    → upserted m r ≡ some (ok s)
    → KeepsPlaces db s.after
upserted-KeepsPlaces m db (err e) s h f = cc
upserted-KeepsPlaces m db (ok mid) s h f =
    let (a, b, c) = h mid refl in
    let (x, y, z) = saved-KeepsPlaces m mid (find_where (by_key_of m) mid.messages) s f in
    (x ∙ a, y ∙ b, z ∙ c)

refresh-found :
    (id c : ℕ) (db : Database) (x : Conversation)
    → find_where (has_id c) db.conversations ≡ some x
    → (y : Conversation) × (find_where (has_id c) (refresh_conversation id db).conversations
        ≡ some y)
unfolding refresh_conversation
refresh-found id c db x f =
    elim (Option-cases (latest (select_where (λ m. m.conversation_id == id) db.messages))) [
      | inl e ↦ (x, ground (arith, e, f))
      | inr (m, e) ↦
          let there =
            find_where-update_where (λ r. r.id == id) (has_id c) (touch m) db.conversations
              (λ r h. refl) in
          ((if x.id == id then touch m x else x), ground (arith, e, f, there))
    ]

-- After a save the chat still leads to its conversation.
pub refreshed-IsAt :
    (account chat c : ℕ) (m : NewMessage) (db : Database) (s : Saved)
    → IsAt account chat c db
    → save_in_conversation m db ≡ some (ok s)
    → IsAt account chat c (refreshed s)
unfolding save_in_conversation
refreshed-IsAt account chat c m db s v e =
    let (links, aliases, conversations) =
      upserted-KeepsPlaces m db (upsert_message m db) s (λ mid f. upsert-KeepsPlaces m db mid f)
        e in
    let kept = refresh_conversation-SameBut s.message.conversation_id s.after in
    let (y, found) =
      refresh-found s.message.conversation_id c s.after v.row
        (ap (find_where (has_id c)) conversations ∙ v.found) in
    moved-IsAt account chat c db (refreshed s) y (kept.links ∙ links) (kept.aliases ∙ aliases) found
      v

-- The message, with the conversation that it is put into.
abbrev pub placed : NewMessage → ℕ → NewMessage
placed m c = record m { conversation_id = c }

pub save_new-placed :
    (draw : Draw) (m : NewMessage) (c : ℕ) (db : Database) (s : Saved)
    → IsAt m.account_id m.chat_id c db
    → save_new draw (placed m c) db ≡ some (ok s)
    → (d : Database) × IsAt m.account_id m.chat_id c d
      × (d.messages ≡ db.messages)
      × (save_in_conversation (placed m c) d ≡ some (ok s))
unfolding save_new
save_new-placed draw m c db s v e = elim (Bool-cases (c == 0)) [
  | inl empty ↦
      let (d, f, g) =
        bound_ok (ensure_conversation draw m.account_id m.chat_id [] m.ingested_at db)
          (λ (d : Ensured). save_in_conversation (in_ensured (placed m c) d) d.after) s
          (ground (arith, e, empty)) in
      let (same, messages) = ensure_again draw m.account_id m.chat_id c m.ingested_at db d v f in
      (
        d.after,
        subst (λ i. IsAt m.account_id m.chat_id i d.after) same
            (ensured-IsAt draw m.account_id m.chat_id m.ingested_at db d f),
        messages,
        ap (λ i. save_in_conversation (placed m i) d.after) (sym same) ∙ g,
      )
  | inr named ↦ (db, v, refl, ground (arith, e, named))
]
