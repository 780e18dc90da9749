-- ===== src/Store/Messages/Idempotency.antt =====
-- A send is reserved once: what a key stands for does not change.
use convomeow.Base.{
  ℕ, ◌≡◌, refl, ap, ◌∙◌, Bool, true, false, ◌||◌, Option, none, some, List, [], ◌∷◌, ◌++◌, arith,
  ◌==◌, if◌then◌else◌,
}
use convomeow.Base.Tables.{find_where, any}
use convomeow.Core.{ok, err, invalid, idempotency, MessageState, Result-cases, >>=-eq-ok, fail_if}
use convomeow.Store.Tables.{Message, SendKey, Database}
use convomeow.Store.Conversations.{refresh_conversation, refresh_conversation-SameBut}
use convomeow.Store.Messages.{
  NewMessage, Call, Reserved, by_id, by_key, is_incomplete, as_queued, prepare_message,
  insert_message, insert_send_key, reserve_new, reserve_send, lookup_send, get_message, row_of,
  next_order, reserve_rows, save_reply, is_empty, reserve_by_key, prepared,
}

-- What the insertions leave: the message is queued under its identifier, the key stands for it,
-- and every other message and key is as before.
pub record IsReserved (m : NewMessage) (actor key hash : ℕ) (db after : Database) : Type 0 where
  pub messages : after.messages ≡ db.messages ++ row_of m (next_order db.messages) ∷ []
  pub send_keys :
      after.send_keys
      ≡ db.send_keys
        ++ (record { actor_id = actor; key = key; request_hash = hash; message_id = m.id }) ∷ []
  pub fresh : any (by_id m.id) db.messages ≡ false
  pub free : any (by_key actor key) db.send_keys ≡ false

id-row_of : (m : NewMessage) (n : ℕ) → by_id m.id (row_of m n) ≡ true
unfolding row_of
id-row_of m n = ground arith

reserve_rows-IsReserved :
    (m : NewMessage) (actor key hash : ℕ) (db after : Database)
    → reserve_rows m actor key hash db ≡ ok after
    → IsReserved m actor key hash db after
unfolding reserve_rows insert_message insert_send_key
reserve_rows-IsReserved m actor key hash db after e =
    ground (arith, Result-cases (save_reply m.id m.reply db.replies))

pub reserve_new-IsReserved :
    (m : NewMessage) (actor key hash : ℕ) (db : Database) (r : Reserved)
    → reserve_new m actor key hash db ≡ ok r
    → IsReserved m actor key hash db r.after × (r.created ≡ true) × (r.message ≡ row_of m 0)
unfolding reserve_new
reserve_new-IsReserved m actor key hash db r e =
    let (keyed, f, g) = >>=-eq-ok (reserve_rows m actor key hash db) _ e in
    let v = reserve_rows-IsReserved m actor key hash db keyed f in
    let s = refresh_conversation-SameBut m.conversation_id keyed in
    let after : r.after ≡ refresh_conversation m.conversation_id keyed = ground arith in
    (
      record {
        messages = ap (λ (d : Database). d.messages) after ∙ (s.messages ∙ v.messages);
        send_keys = ap (λ (d : Database). d.send_keys) after ∙ (s.send_keys ∙ v.send_keys);
        fresh = v.fresh;
        free = v.free;
      },
      ground arith,
      ground arith,
    )

-- The key is found again, and stands for the message that was inserted.
find-appended :
    {A : Type 0} (p : A → Bool) (xs : List A) (a : A)
    → any p xs ≡ false
    → p a ≡ true
    → find_where p (xs ++ a ∷ []) ≡ some a
find-appended p [] a h k = ground arith
find-appended p (x ∷ xs) a h k = ground (arith, find-appended p xs a)

pub get_message-reserved :
    (m : NewMessage) (actor key hash : ℕ) (db after : Database)
    → IsReserved m actor key hash db after
    → get_message m.id after ≡ ok (row_of m (next_order db.messages))
unfolding get_message
get_message-reserved m actor key hash db after v = rw v.messages (
    rw
      (find-appended (by_id m.id) db.messages (row_of m (next_order db.messages)) v.fresh
        (id-row_of m (next_order db.messages)))
      refl)

pub find-reserved_key :
    (m : NewMessage) (actor key hash : ℕ) (db after : Database)
    → IsReserved m actor key hash db after
    → find_where (by_key actor key) after.send_keys
      ≡ some (record { actor_id = actor; key = key; request_hash = hash; message_id = m.id })
find-reserved_key m actor key hash db after v =
    rw v.send_keys (find-appended (by_key actor key) db.send_keys _ v.free (ground arith))

reserve_by_key-created :
    (o : Option SendKey) (m : NewMessage) (actor key hash : ℕ) (db : Database) (r : Reserved)
    → reserve_by_key o m actor key hash db ≡ ok r
    → r.created ≡ true
    → reserve_new m actor key hash db ≡ ok r
unfolding reserve_by_key
reserve_by_key-created none m actor key hash db r e new = e
reserve_by_key-created (some k) m actor key hash db r e new = ground arith

-- The reservation behind a success: the message as it was prepared, and what was inserted.
pub reserve_send-IsReserved :
    (c : Call) (m : NewMessage) (actor key hash : ℕ) (db : Database) (r : Reserved)
    → reserve_send c m actor key hash db ≡ ok r
    → r.created ≡ true
    → (p : NewMessage) × (prepare_message c (as_queued m) ≡ ok p)
      × IsReserved p actor key hash db r.after
unfolding reserve_send
reserve_send-IsReserved c m actor key hash db r e new =
    let (u, f, g) = >>=-eq-ok (fail_if (is_incomplete m actor key hash) invalid) _ e in
    let (p, prepared, h) = >>=-eq-ok (prepare_message c (as_queued m)) _ g in
    let s = find_where (by_key actor key) db.send_keys in
    (
      p,
      prepared,
      (reserve_new-IsReserved p actor key hash db r
          (reserve_by_key-created s p actor key hash db r h new)).0,
    )

-- The message that a new reservation answers with is the one that it has prepared.
pub message-reserve_send :
    (c : Call) (m p : NewMessage) (actor key hash : ℕ) (db : Database) (r : Reserved)
    → reserve_send c m actor key hash db ≡ ok r
    → r.created ≡ true
    → prepare_message c (as_queued m) ≡ ok p
    → r.message ≡ row_of p 0
unfolding reserve_send
message-reserve_send c m p actor key hash db r e new prep =
    let (u, f, g) = >>=-eq-ok (fail_if (is_incomplete m actor key hash) invalid) _ e in
    let (p2, prepared, h) = >>=-eq-ok (prepare_message c (as_queued m)) _ g in
    let s = find_where (by_key actor key) db.send_keys in
    let same : p2 ≡ p = ground (arith, prepared, prep) in
    (reserve_new-IsReserved p2 actor key hash db r
      (reserve_by_key-created s p2 actor key hash db r h new)).2
    ∙ ap (λ x. row_of x 0) same

pub state-prepare_message :
    (c : Call) (m p : NewMessage)
    → prepare_message c (as_queued m) ≡ ok p
    → p.state ≡ MessageState.queued
unfolding prepare_message prepared
state-prepare_message c m p e = ground arith

-- A request whose fields are given, and whose content, if there is any, is JSON.
abbrev pub IsComplete : Call → NewMessage → ℕ → ℕ → ℕ → Type 0
IsComplete c m actor key hash =
    (is_incomplete m actor key hash ≡ false) × (is_empty m.content || c.json_valid m.content ≡ true)

prepare_message_ok :
    (c : Call) (m : NewMessage)
    → is_empty m.content || c.json_valid m.content ≡ true
    → prepare_message c m ≡ ok (prepared c m)
unfolding prepare_message
prepare_message_ok c m h = ground arith

prepare_message-prepared :
    (c : Call) (m p : NewMessage) → prepare_message c m ≡ ok p → p ≡ prepared c m
unfolding prepare_message
prepare_message-prepared c m p e = ground arith

-- The row that a reservation of `m` adds.
pub reserved_row : Call → NewMessage → Database → Message
reserved_row c m db = row_of (prepared c (as_queued m)) (next_order db.messages)

-- Once a send has been reserved under a key, a later request with that key, if its fields are
-- given and its content is JSON or empty, reserves nothing: with the same request hash it gets the
-- message that was reserved and the database stays as it is, and with another hash it is refused.
pub reserve_send_replay :
    (c d : Call) (m n : NewMessage) (actor key hash hash' : ℕ) (db : Database) (r : Reserved)
    → reserve_send c m actor key hash db ≡ ok r
    → r.created ≡ true
    → IsComplete d n actor key hash'
    → reserve_send d n actor key hash' r.after ≡ (
        if hash == hash'
        then ok (record { message = reserved_row c m db; created = false; after = r.after })
        else err idempotency)
unfolding reserve_send reserved_row
reserve_send_replay c d m n actor key hash hash' db r e new complete =
    let (p, prep, v) = reserve_send-IsReserved c m actor key hash db r e new in
    ground (
      arith,
      complete.0,
      prepare_message_ok d (as_queued n) complete.1,
      prepare_message-prepared c (as_queued m) p prep,
      find-reserved_key p actor key hash db r.after v,
      get_message-reserved p actor key hash db r.after v,
    )

-- Once a send has been reserved under a key, a lookup of the key finds the message that was
-- reserved if it gives the same request hash, and is refused if it gives another.
pub lookup_send-reserve_send :
    (c : Call) (m : NewMessage) (actor key hash hash' : ℕ) (db : Database) (r : Reserved)
    → reserve_send c m actor key hash db ≡ ok r
    → r.created ≡ true
    → lookup_send actor key hash' r.after
      ≡ (if hash == hash' then ok (some (reserved_row c m db)) else err idempotency)
unfolding lookup_send reserved_row
lookup_send-reserve_send c m actor key hash hash' db r e new =
    let (p, prep, v) = reserve_send-IsReserved c m actor key hash db r e new in
    ground (
      arith,
      prepare_message-prepared c (as_queued m) p prep,
      find-reserved_key p actor key hash db r.after v,
      get_message-reserved p actor key hash db r.after v,
    )
