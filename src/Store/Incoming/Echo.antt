-- ===== src/Store/Incoming/Echo.antt =====
-- A message that was sent from here comes back from the provider.
use convomeow.Base.{
  ◌≢◌, subst, length, ℕ, ◌≡◌, refl, sym, ap, ◌∙◌, Bool, true, false, ◌&&◌, some, List, [], ◌∷◌,
  arith, ◌==◌,
}
use convomeow.Base.Tables.{find_where, any, update_where, delete_where}
use convomeow.Core.{Result, ok, err, is_inbound, is_outbound, is_open, MessageState, Direction}
use convomeow.Store.Tables.{Message, Job, Database}
use convomeow.Store.Conversations.{refresh_conversation-SameBut}
use convomeow.Store.Messages.{NewMessage, Call, by_id, prepare_message, prepared, get_message}
use convomeow.Store.Merge.Carried.{IsUnique, find-own}
use convomeow.Store.Merge.Rows.{find-update_self}
use convomeow.Store.Chats.{Draw}
use convomeow.Store.Incoming.{
  Saved, Recorded, save_message, save_and_refresh, save_message_tx, save_echo, save_outbound,
  with_parts, without_job, is_echo, echo_row, read_back, refreshed,
}
use convomeow.Store.Incoming.Once.{length-update_where, bind_ok, saved_with-ok, parts-messages}

any-delete-own :
    (id : ℕ) (jobs : List Job)
    → any (λ j. j.message_id == id) (delete_where (λ j. j.message_id == id) jobs) ≡ false
any-delete-own id [] = refl
any-delete-own id (j ∷ jobs) = ground (arith, any-delete-own id jobs)

without_job-ok :
    (id : ℕ) (r : Result Database) (after : Database)
    → without_job id r ≡ ok after
    → (mid : Database) × (r ≡ ok mid)
      × (after.messages ≡ mid.messages)
      × (any (λ j. j.message_id == id) after.jobs ≡ false)
without_job-ok id (err e) after h = cc
without_job-ok id (ok mid) after h =
    (mid, refl, ground arith, ground (arith, any-delete-own id mid.jobs))

-- The message, and the tables, after the update of a message that came back.
abbrev IsEchoed : NewMessage → Message → Database → Database → Type 0
IsEchoed m old db after =
    (after.messages ≡ update_where (by_id old.id) (echo_row m) db.messages)
    × (any (λ j. j.message_id == old.id) after.jobs ≡ false)

save_echo-IsEchoed :
    (m : NewMessage) (old : Message) (db : Database) (s : Saved)
    → save_echo m old db ≡ some (ok s)
    → (s.message ≡ echo_row m old) × IsEchoed m old db s.after
unfolding save_echo
save_echo-IsEchoed m old db s e =
    let updated = record db { messages = update_where (by_id old.id) (echo_row m) db.messages } in
    let (same, f) =
      saved_with-ok (echo_row m old) (without_job old.id (with_parts m old.id updated)) s e in
    let (mid, g, rows, free) = without_job-ok old.id (with_parts m old.id updated) s.after f in
    (same, (rows ∙ parts-messages m old.id updated mid g, free))

tx-IsEchoed :
    (draw : Draw) (m : NewMessage) (old : Message) (db : Database) (s : Saved)
    → is_outbound m.direction ≡ true
    → find_where (is_echo m.account_id m.provider_message_id) db.messages ≡ some old
    → save_message_tx draw m db ≡ some (ok s)
    → (s.message ≡ echo_row m old) × IsEchoed m old db s.after
unfolding save_message_tx
tx-IsEchoed draw m old db s out found e =
    save_echo-IsEchoed m old db s
      (sym (ap (save_outbound draw m db) found) ∙ ground (arith, e, out))

not_inbound : (d : Direction) → is_outbound d ≡ true → is_inbound d ≡ false
not_inbound Direction.unset h = cc
not_inbound Direction.inbound h = cc
not_inbound Direction.outbound h = refl

read_back-message :
    (id : ℕ) (b : Bool) (db : Database) (m : Message) (r : Recorded)
    → find_where (by_id id) db.messages ≡ some m
    → read_back id b db ≡ some (ok r)
    → (r.message ≡ m) × (r.notified ≡ b) × (r.after ≡ db)
unfolding get_message
read_back-message id b db m r found e = ground (arith, found)

-- What is read back after the refresh.
echo_answer :
    (m : NewMessage) (old : Message) (db : Database) (s : Saved) (b : Bool) (r : Recorded)
    → find_where (by_id old.id) db.messages ≡ some old
    → (s.message ≡ echo_row m old) × IsEchoed m old db s.after
    → read_back s.message.id b (refreshed s) ≡ some (ok r)
    → (r.message ≡ echo_row m old) × (r.notified ≡ b) × IsEchoed m old db r.after
echo_answer m old db s b r found (same, (rows, free)) g =
    let id : s.message.id ≡ old.id = ap (λ (x : Message). x.id) same in
    let kept = refresh_conversation-SameBut s.message.conversation_id s.after in
    let own : find_where (by_id s.message.id) (refreshed s).messages ≡ some (echo_row m old) =
      ap (find_where (by_id s.message.id)) (kept.messages ∙ rows)
      ∙ (ap (λ i. find_where (by_id i) (update_where (by_id old.id) (echo_row m) db.messages)) id
          ∙ find-update_self old.id (echo_row m) db.messages old (λ x. refl) found) in
    let (answer, told, last) =
      read_back-message s.message.id b (refreshed s) (echo_row m old) r own g in
    (
      answer,
      told,
      (
        ap (λ (d : Database). d.messages) last ∙ (kept.messages ∙ rows),
        ap (λ (d : Database). any (λ j. j.message_id == old.id) d.jobs) last
            ∙ (ap (any (λ j. j.message_id == old.id)) kept.jobs ∙ free),
      ),
    )

echoed :
    (draw : Draw) (call : Call) (live : Bool) (m : NewMessage) (old : Message) (db : Database)
    (r : Recorded)
    → IsUnique db.messages
    → is_outbound m.direction ≡ true
    → find_where (is_echo m.account_id m.provider_message_id) db.messages ≡ some old
    → save_message draw call live m db ≡ some (ok r)
    → (r.message ≡ echo_row (prepared call m) old)
      × (r.notified ≡ false)
      × (r.after.messages ≡ update_where (by_id old.id) (echo_row (prepared call m)) db.messages)
      × (any (λ j. j.message_id == old.id) r.after.jobs ≡ false)
unfolding save_message prepare_message save_and_refresh prepared
echoed draw call live m old db r unique out found e =
    let p = prepared call m in
    let quiet = not_inbound m.direction out in
    let (s, f, g) =
      bind_ok (save_message_tx draw p db)
        (λ s. read_back s.message.id (false && is_inbound s.message.direction) (refreshed s)) r
        (ground (arith, e, quiet)) in
    let (answer, told, (rows, free)) =
      echo_answer p old db s (false && is_inbound s.message.direction) r
        (find-own (is_echo m.account_id m.provider_message_id) db.messages old unique found)
        (tx-IsEchoed draw p old db s out found f) g in
    (answer, told, rows, free)

find-update_other :
    (id i : ℕ) (f : Message → Message) (rows : List Message)
    → ((x : Message) → (f x).id ≡ x.id)
    → id ≢ i
    → find_where (by_id i) (update_where (by_id id) f rows) ≡ find_where (by_id i) rows
find-update_other id i f [] h n = refl
find-update_other id i f (x ∷ rows) h n = ground (arith, h x, n, find-update_other id i f rows h n)

-- What the report of a message leaves of the message that was sent.
pub record IsCompleted (old new : Message) : Type 0 where
  pub id : new.id ≡ old.id
  pub conversation : new.conversation_id ≡ old.conversation_id
  pub text : new.text ≡ old.text
  pub account : new.account_id ≡ old.account_id
  pub provider : new.provider_message_id ≡ old.provider_message_id
  pub direction : new.direction ≡ old.direction
  pub time_kept : is_open old.state ≡ false → new.occurred_at ≡ old.occurred_at
  pub open_sent : is_open old.state ≡ true → new.state ≡ MessageState.sent
  pub settled_kept : is_open old.state ≡ false → new.state ≡ old.state
  pub sender_kept : old.sender_id ≢ 0 → new.sender_id ≡ old.sender_id

row-IsCompleted : (m : NewMessage) (old : Message) → IsCompleted old (echo_row m old)
row-IsCompleted m old = record {
  id = refl;
  conversation = refl;
  text = refl;
  account = refl;
  provider = refl;
  direction = refl;
  time_kept = λ h. ground (arith, h);
  open_sent = λ h. ground (arith, h);
  settled_kept = λ h. ground (arith, h);
  sender_kept = λ n. ground (arith, n);
}

-- Where message identifiers are unique and the provider reports a message that was sent from here,
-- a save that succeeds completes that message: it is sent from then on if it was queued or its
-- outcome was unknown, and keeps its state otherwise; its identifiers, conversation, direction,
-- text and a sender that was known stay, and where it was settled its time does. The save returns the message as it is then stored, adds none,
-- changes no other, removes its job, and queues no notification.
pub save_message_echo :
    (draw : Draw) (call : Call) (live : Bool) (m : NewMessage) (old : Message) (db : Database)
    (r : Recorded)
    → IsUnique db.messages
    → is_outbound m.direction ≡ true
    → find_where (is_echo m.account_id m.provider_message_id) db.messages ≡ some old
    → save_message draw call live m db ≡ some (ok r)
    → IsCompleted old r.message
      × (find_where (by_id old.id) r.after.messages ≡ some r.message)
      × ((i : ℕ)
          → old.id ≢ i
          → find_where (by_id i) r.after.messages ≡ find_where (by_id i) db.messages)
      × (length r.after.messages ≡ length db.messages)
      × (any (λ j. j.message_id == old.id) r.after.jobs ≡ false)
      × (r.notified ≡ false)
save_message_echo draw call live m old db r unique out found e =
    let p = prepared call m in
    let (answer, told, rows, free) = echoed draw call live m old db r unique out found e in
    let own = find-own (is_echo m.account_id m.provider_message_id) db.messages old unique found in
    (
      subst (IsCompleted old) (sym answer) (row-IsCompleted p old),
      ap (find_where (by_id old.id)) rows
          ∙ (find-update_self old.id (echo_row p) db.messages old (λ x. refl) own
              ∙ ap some (sym answer)),
      λ i n.
          ap (find_where (by_id i)) rows
          ∙ find-update_other old.id i (echo_row p) db.messages (λ x. refl) n,
      ap length rows ∙ length-update_where (by_id old.id) (echo_row p) db.messages,
      free,
      told,
    )
