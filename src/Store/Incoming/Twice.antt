-- ===== src/Store/Incoming/Twice.antt =====
-- internal/store/sqlite/messages.go: a message that is reported again.
use convomeow.Base.{
  ℕ, ◌≡◌, refl, sym, ap, ◌∙◌, Bool, true, false, ◌&&◌, not, some, [], arith, length, subst,
}
use convomeow.Base.Tables.{any}
use convomeow.Core.{ok, is_inbound, is_outbound, Direction}
use convomeow.Store.Tables.{Database}
use convomeow.Store.Conversations.{refresh_conversation-SameBut}
use convomeow.Store.Messages.{NewMessage, Call, by_provider_id, prepare_message, prepared}
use convomeow.Store.Chats.{Draw, Ensured, ensure_conversation}
use convomeow.Store.Chats.Again.{IsAt, ensured-IsAt, ensure_again, bound_ok}
use convomeow.Store.Incoming.{
  Saved, Recorded, save_message, save_announced, place_and_save, save_and_refresh, save_message_tx,
  save_new, save_in_conversation, by_key_of, read_back, refreshed, in_ensured,
}
use convomeow.Store.Incoming.Once.{IsStored, save_in_conversation-IsStored, read_back-ok, bind_ok}
use convomeow.Store.Incoming.Placed.{placed, save_new-placed, refreshed-IsAt}

-- The last step of a save of an inbound message: where it was put, in which database.
record Arrival (m : NewMessage) (db : Database) (r : Recorded) : Type 0 where
  pub conversation : ℕ
  pub before : Database
  pub saved : Saved
  pub place : IsAt m.account_id m.chat_id conversation before
  pub save : save_in_conversation (placed m conversation) before ≡ some (ok saved)
  pub last : r.after ≡ refreshed saved
  pub quiet : any (by_key_of (placed m conversation)) before.messages ≡ true → r.notified ≡ false
  pub again :
      (c : ℕ)
      → IsAt m.account_id m.chat_id c db
      → (conversation ≡ c) × (before.messages ≡ db.messages)

-- The parts of a save of an inbound message.
and_refreshed :
    (draw : Draw) (m : NewMessage) (announced : Bool) (db : Database) (r : Recorded)
    → is_outbound m.direction ≡ false
    → save_and_refresh draw m announced db ≡ some (ok r)
    → (s : Saved) × (save_new draw m db ≡ some (ok s))
      × (r.after ≡ refreshed s)
      × (announced ≡ false → r.notified ≡ false)
unfolding save_and_refresh save_message_tx
and_refreshed draw m announced db r inbound e =
    let (s, f, g) =
      bind_ok (save_message_tx draw m db)
        (λ s. read_back s.message.id (announced && is_inbound s.message.direction) (refreshed s)) r
        e in
    let (told, last) =
      read_back-ok s.message.id (announced && is_inbound s.message.direction) (refreshed s) r g in
    (s, ground (arith, f, inbound), last, λ h. ground (arith, told, h))

-- With a generation of the session, the conversation is found before the save.
live-Arrival :
    (draw : Draw) (m : NewMessage) (db : Database) (r : Recorded)
    → is_outbound m.direction ≡ false
    → m.conversation_id ≡ 0
    → place_and_save draw m db ≡ some (ok r)
    → Arrival m db r
unfolding place_and_save save_announced
live-Arrival draw m db r inbound unnamed e =
    let (d, f, g) =
      bound_ok (ensure_conversation draw m.account_id m.chat_id [] m.ingested_at db)
        (λ (d : Ensured). save_announced draw (in_ensured m d) d.after) r
        (ground (arith, e, unnamed)) in
    let c = d.conversation.id in
    let v = ensured-IsAt draw m.account_id m.chat_id m.ingested_at db d f in
    let (s, t, last, quiet) =
      and_refreshed draw (placed m c) (not (any (by_key_of (placed m c)) d.after.messages)) d.after
        r inbound g in
    let (mid, place, same, save) = save_new-placed draw m c d.after s v t in
    record {
      conversation = c;
      before = mid;
      saved = s;
      place = place;
      save = save;
      last = last;
      quiet = λ h. quiet (ap not (ap (any (by_key_of (placed m c))) (sym same) ∙ h));
      again = λ c' w.
          let (there, kept) = ensure_again draw m.account_id m.chat_id c' m.ingested_at db d w f in
          (there, same ∙ kept);
    }

-- Without one, the save finds it, and nothing is announced.
plain-Arrival :
    (draw : Draw) (m : NewMessage) (db : Database) (r : Recorded)
    → is_outbound m.direction ≡ false
    → m.conversation_id ≡ 0
    → save_and_refresh draw m false db ≡ some (ok r)
    → Arrival m db r
unfolding save_new
plain-Arrival draw m db r inbound unnamed e =
    let (s, t, last, quiet) = and_refreshed draw m false db r inbound e in
    let (d, f, g) =
      bound_ok (ensure_conversation draw m.account_id m.chat_id [] m.ingested_at db)
        (λ (d : Ensured). save_in_conversation (in_ensured m d) d.after) s
        (ground (arith, t, unnamed)) in
    record {
      conversation = d.conversation.id;
      before = d.after;
      saved = s;
      place = ensured-IsAt draw m.account_id m.chat_id m.ingested_at db d f;
      save = g;
      last = last;
      quiet = λ h. quiet refl;
      again = λ c w. ensure_again draw m.account_id m.chat_id c m.ingested_at db d w f;
    }

only_inbound : (d : Direction) → is_inbound d ≡ true → is_outbound d ≡ false
only_inbound Direction.unset h = refl
only_inbound Direction.inbound h = refl
only_inbound Direction.outbound h = cc

save_message-Arrival :
    (draw : Draw) (call : Call) (live : Bool) (m : NewMessage) (db : Database) (r : Recorded)
    → is_inbound m.direction ≡ true
    → m.conversation_id ≡ 0
    → save_message draw call live m db ≡ some (ok r)
    → Arrival (prepared call m) db r
unfolding save_message prepare_message prepared
save_message-Arrival draw call true m db r inbound unnamed e =
    live-Arrival draw (prepared call m) db r (only_inbound m.direction inbound) unnamed
      (ground (arith, e, inbound))
save_message-Arrival draw call false m db r inbound unnamed e =
    plain-Arrival draw (prepared call m) db r (only_inbound m.direction inbound) unnamed
      (ground (arith, e))

-- After an arrival the chat leads to the conversation and the message is there.
arrived :
    (m : NewMessage) (db : Database) (r : Recorded) (v : Arrival m db r)
    → IsAt m.account_id m.chat_id v.conversation r.after
      × IsStored (placed m v.conversation) v.before r.after.messages
arrived m db r v =
    let same =
      (refresh_conversation-SameBut v.saved.message.conversation_id v.saved.after).messages in
    (
      subst (IsAt m.account_id m.chat_id v.conversation) (sym v.last) (
          refreshed-IsAt m.account_id m.chat_id v.conversation (placed m v.conversation) v.before
            v.saved v.place v.save),
      subst (IsStored (placed m v.conversation) v.before)
          (sym (ap (λ (d : Database). d.messages) v.last ∙ same))
          (save_in_conversation-IsStored (placed m v.conversation) v.before v.saved v.save),
    )

-- A message from outside is stored and announced once: after it was saved, a report of an inbound
-- message with the same account, chat and provider message adds no row and queues no notification.
-- Neither report names a conversation, so that each is put into that of its chat. The later one may
-- differ in all else, and may be live or not.
pub save_message_twice :
    (draw draw' : Draw) (call call' : Call) (live live' : Bool) (m m' : NewMessage) (db : Database)
    (r r' : Recorded)
    → is_inbound m.direction ≡ true
    → is_inbound m'.direction ≡ true
    → m.conversation_id ≡ 0
    → m'.conversation_id ≡ 0
    → m'.account_id ≡ m.account_id
    → m'.chat_id ≡ m.chat_id
    → m'.provider_message_id ≡ m.provider_message_id
    → save_message draw call live m db ≡ some (ok r)
    → save_message draw' call' live' m' r.after ≡ some (ok r')
    → (r'.notified ≡ false) × (length r'.after.messages ≡ length r.after.messages)
unfolding prepared
save_message_twice draw draw' call call' live live' m m' db r r' i i' u u' a c p e e' =
    let v = save_message-Arrival draw call live m db r i u e in
    let v' = save_message-Arrival draw' call' live' m' r.after r' i' u' e' in
    let (place, stored) = arrived (prepared call m) db r v in
    let stored' = (arrived (prepared call' m') r.after r' v').1 in
    let place' : IsAt m'.account_id m'.chat_id v.conversation r.after =
      subst (λ k. IsAt k m'.chat_id v.conversation r.after) (sym a)
        (subst (λ k. IsAt m.account_id k v.conversation r.after) (sym c) place) in
    let (same, kept) = v'.again v.conversation place' in
    let there : any (by_provider_id m'.account_id v'.conversation m'.provider_message_id)
          v'.before.messages
        ≡ true =
      rw (kept, same, a, p) stored.0 in
    (v'.quiet there, stored'.1 there ∙ ap length kept)
