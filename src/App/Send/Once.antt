-- ===== src/App/Send/Once.antt =====
-- A key stands for one call of the provider.
use convomeow.Base.{
  ℕ, ◌≡◌, refl, sym, ap, ◌∙◌, ◌≢◌, inl, inr, ◌||◌, not, Option, none, some, arith, ltb, length,
  Bool-cases, subst,
}
use convomeow.Base.Tables.{find_where}
use convomeow.Core.{ok, Result-cases, >>=-eq-ok, fail_if}
use convomeow.Store.Tables.{Conversation, Message, SendKey, Database}
use convomeow.Store.Messages.{
  NewMessage, Reserved, by_key, lookup_send, reserve_send, complete_send,
}
use convomeow.Store.Messages.Idempotency.{reserve_send-IsReserved, find-reserved_key}
use convomeow.Store.Messages.Completion.{send_keys-complete_send}
use convomeow.App.Session.{Service}
use convomeow.Base.Text.{Text, is_empty}
use convomeow.Core.{unsupported, invalid}
use convomeow.App.Send.{
  Capability, Outside, Request, Begun, Prepared, control, send_text, begin_text, begin_by_key,
  continue_text, sent_or_replayed, transmit, result_of, request_hash, validate_send_key,
  get_conversation,
}

-- A key is taken.
abbrev pub IsTaken : ℕ → Database → Type 0
IsTaken key db = (k : SendKey) × (find_where (by_key control key) db.send_keys ≡ some k)

lookup_send-IsTaken :
    (key hash : ℕ) (db : Database) → IsTaken key db → lookup_send control key hash db ≢ ok none
unfolding lookup_send
lookup_send-IsTaken key hash db (k, e) h = ground (arith, e)

transmit-after :
    (o : Outside) (m : NewMessage) (p : Prepared) (r : Reserved)
    → (transmit o m p r).after.send_keys ≡ r.after.send_keys
transmit-after o m p r =
    let said = o.send p m.reply m.text in
    elim (Result-cases (complete_send r.message.id (result_of p said) said.0 r.after)) [
      | inl ((saved, after), e) ↦
          rw e
            (send_keys-complete_send r.message.id (result_of p said) said.0 r.after after saved e)
      | inr (failure, e) ↦ rw e refl
    ]

sent_or_replayed-IsTaken :
    (o : Outside) (m : NewMessage) (p : Prepared) (key hash : ℕ) (db : Database)
    → (sent_or_replayed o m p db (reserve_send o.call m control key hash db)).sends ≡ 1
    → IsTaken key (sent_or_replayed o m p db (reserve_send o.call m control key hash db)).after
sent_or_replayed-IsTaken o m p key hash db h =
    elim (Result-cases (reserve_send o.call m control key hash db)) [
      | inl (r, e) ↦ elim (Bool-cases r.created) [
        | inl new ↦
            let (n, prep, v) = reserve_send-IsReserved o.call m control key hash db r e new in
            rw (e, new)
              (
                record { actor_id = control; key = key; request_hash = hash; message_id = n.id },
                ap (find_where (by_key control key)) (transmit-after o m p r)
                    ∙ find-reserved_key n control key hash db r.after v,
              )
        | inr old ↦ ground (arith, e, old)
      ]
      | inr (failure, e) ↦ ground (arith, e)
    ]

send_text-IsTaken :
    (o : Outside) (q : Request) (s : Service) (db : Database)
    → (send_text o q s db).sends ≡ 1
    → IsTaken (o.number q.key) (send_text o q s db).after
unfolding send_text
send_text-IsTaken o q s db h = elim (Result-cases (begin_text o q s db)) [
  | inl (Begun.fresh m p, e) ↦
      let h2 : (sent_or_replayed o m p db
            (reserve_send o.call m control (o.number q.key) (request_hash o q) db)).sends
          ≡ 1 =
        ap (λ b. (continue_text o q db b).sends) (sym e) ∙ h in
      rw e (sent_or_replayed-IsTaken o m p (o.number q.key) (request_hash o q) db h2)
  | inl (Begun.replayed saved, e) ↦ ground (arith, e)
  | inr (failure, e) ↦ ground (arith, e)
]

begin_by_key-fresh :
    (found : Option Message) (o : Outside) (c : Conversation) (text : Text) (reply_id : ℕ)
    (s : Service) (db : Database) (m : NewMessage) (p : Prepared)
    → begin_by_key found o c text reply_id s db ≡ ok (Begun.fresh m p)
    → found ≡ none
begin_by_key-fresh none o c text reply_id s db m p e = refl
begin_by_key-fresh (some saved) o c text reply_id s db m p e = cc

begin_text-IsTaken :
    (o : Outside) (q : Request) (s : Service) (db : Database) (m : NewMessage) (p : Prepared)
    → IsTaken (o.number q.key) db
    → begin_text o q s db ≢ ok (Begun.fresh m p)
unfolding begin_text
begin_text-IsTaken o q s db m p taken e =
    let (u, f, g) = >>=-eq-ok (fail_if (not (o.capable Capability.text_sending)) unsupported) _ e in
    let (u2, f2, g2) =
      >>=-eq-ok
        (fail_if (is_empty (o.trim_space q.text) || ltb 4096 (length (o.trim_space q.text)))
          invalid)
        _ g in
    let (u3, f3, g3) = >>=-eq-ok (validate_send_key q.key) _ g2 in
    let (c, f4, g4) = >>=-eq-ok (get_conversation q.conversation_id db) _ g3 in
    let (found, f5, g5) =
      >>=-eq-ok (lookup_send control (o.number q.key) (request_hash o q) db) _ g4 in
    let none_there = begin_by_key-fresh found o c (o.trim_space q.text) q.reply_id s db m p g5 in
    lookup_send-IsTaken (o.number q.key) (request_hash o q) db taken (f5 ∙ ap ok none_there)

-- Once the provider has been asked to send under a key, whatever it answered, no later request with
-- that key asks it again, nor changes the database, whatever else the request holds.
pub send_text_once :
    (o again : Outside) (q later : Request) (s t : Service) (db : Database)
    → (send_text o q s db).sends ≡ 1
    → again.number later.key ≡ o.number q.key
    → ((send_text again later t (send_text o q s db).after).sends ≡ 0)
      × ((send_text again later t (send_text o q s db).after).after ≡ (send_text o q s db).after)
unfolding send_text
send_text_once o again q later s t db h same =
    let db2 = (send_text o q s db).after in
    let taken : IsTaken (again.number later.key) db2 =
      subst (λ k. IsTaken k db2) (sym same) (send_text-IsTaken o q s db h) in
    elim (Result-cases (begin_text again later t db2)) [
      | inl (Begun.fresh m p, e) ↦ absurd (begin_text-IsTaken again later t db2 m p taken e)
      | inl (Begun.replayed saved, e) ↦ rw e (refl, refl)
      | inr (failure, e) ↦ rw e (refl, refl)
    ]
