-- ===== src/Store/Incoming/Once.antt =====
-- internal/store/sqlite/messages.go: what the upsert of a reported message leaves.
use convomeow.Base.{
  subst, ℕ, ◌≡◌, refl, sym, inl, inr, Bool, true, Option, none, some, List, [], ◌∷◌, arith, length,
  Bool-cases,
}
use convomeow.Base.Tables.{find_where, any, update_where, any-update_where, any-append}
use convomeow.Core.{Result, ok, err}
use convomeow.Store.Tables.{Message, Database}
use convomeow.Store.Messages.{NewMessage, row_of, next_order}
use convomeow.Store.Chats.{Run, ◌>>=◌}
use convomeow.Store.Incoming.{
  Saved, Recorded, save_in_conversation, upsert_message, upserted, with_saved, saved_with,
  with_parts, by_key_of, conflict_row, read_back,
}

pub length-update_where :
    (p : Message → Bool) (f : Message → Message) (rows : List Message)
    → length (update_where p f rows) ≡ length rows
length-update_where p f [] = refl
length-update_where p f (x ∷ rows) = ground (arith, length-update_where p f rows)

-- What an upsert of `m` leaves: the message is there, and is new only if it was not there.
abbrev pub IsStored : NewMessage → Database → List Message → Type 0
IsStored m db rows =
    (any (by_key_of m) rows ≡ true)
    × (any (by_key_of m) db.messages ≡ true → length rows ≡ length db.messages)

upsert-IsStored :
    (m : NewMessage) (db after : Database)
    → upsert_message m db ≡ ok after
    → IsStored m db after.messages
unfolding upsert_message row_of
upsert-IsStored m db after e = elim (Bool-cases (any (by_key_of m) db.messages)) [
  | inl old ↦ ground (
    arith,
    old,
    any-update_where (by_key_of m) (by_key_of m) (conflict_row m) db.messages (λ x. refl),
    length-update_where (by_key_of m) (conflict_row m) db.messages,
  )
  | inr new ↦
      ground
        (arith, new, any-append (by_key_of m) db.messages (row_of m (next_order db.messages) ∷ []))
]

pub parts-messages :
    (m : NewMessage) (id : ℕ) (db after : Database)
    → with_parts m id db ≡ ok after
    → after.messages ≡ db.messages
parts-messages m id db after e = ground arith

pub saved_with-ok :
    (x : Message) (r : Result Database) (s : Saved)
    → saved_with x r ≡ some (ok s)
    → (s.message ≡ x) × (r ≡ ok s.after)
saved_with-ok x (err e) s h = cc
saved_with-ok x (ok db) s h = ground arith

saved-IsStored :
    (m : NewMessage) (db mid : Database) (found : Option Message) (s : Saved)
    → IsStored m db mid.messages
    → with_saved m mid found ≡ some (ok s)
    → IsStored m db s.after.messages
saved-IsStored m db mid none s h e = cc
saved-IsStored m db mid (some x) s h e =
    let (same, parts) = saved_with-ok x (with_parts m x.id mid) s e in
    subst (IsStored m db) (sym (parts-messages m x.id mid s.after parts)) h

upserted-IsStored :
    (m : NewMessage) (db : Database) (r : Result Database) (s : Saved)
    → ((mid : Database) → r ≡ ok mid → IsStored m db mid.messages)
    → upserted m r ≡ some (ok s)
    → IsStored m db s.after.messages
upserted-IsStored m db (err e) s h f = cc
upserted-IsStored m db (ok mid) s h f =
    saved-IsStored m db mid (find_where (by_key_of m) mid.messages) s (h mid refl) f

-- What a save into the conversation of the message leaves.
pub save_in_conversation-IsStored :
    (m : NewMessage) (db : Database) (s : Saved)
    → save_in_conversation m db ≡ some (ok s)
    → IsStored m db s.after.messages
unfolding save_in_conversation
save_in_conversation-IsStored m db s e =
    upserted-IsStored m db (upsert_message m db) s (λ mid f. upsert-IsStored m db mid f) e

pub bind_ok :
    (r : Run Saved) (next : Saved → Run Recorded) (end : Recorded)
    → (r >>= next) ≡ some (ok end)
    → (s : Saved) × (r ≡ some (ok s)) × (next s ≡ some (ok end))
bind_ok none next end h = cc
bind_ok (some (err e)) next end h = cc
bind_ok (some (ok s)) next end h = (s, refl, h)

pub read_back-ok :
    (id : ℕ) (notified : Bool) (db : Database) (end : Recorded)
    → read_back id notified db ≡ some (ok end)
    → (end.notified ≡ notified) × (end.after ≡ db)
read_back-ok id notified db end h = ground arith
