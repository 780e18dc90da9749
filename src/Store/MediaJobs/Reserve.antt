-- ===== src/Store/MediaJobs/Reserve.antt =====
-- What the transaction of `ReserveMediaSend` inserts.
use convomeow.Base.{ℕ, ◌≡◌, sym, ap, ◌∙◌, false, ◌&&◌, none, some, List, [], ◌∷◌, ◌++◌, arith, ◌==◌}
use convomeow.Base.Tables.{any, delete_where}
use convomeow.Core.{ok, >>=-eq-ok, validate_media_type}
use convomeow.Store.Tables.{Job, Phase, Upload, SendKey, Database}
use convomeow.Store.Messages.{
  NewMessage, Call, by_id, by_key, row_of, next_order, insert_message, insert_send_key,
}
use convomeow.Store.Attachments.{save_reply}
use convomeow.Store.Conversations.{refresh_conversation, refresh_conversation-SameBut}
use convomeow.Store.Uploads.{is_ready}
use convomeow.Store.MediaJobs.{
  by_message, attachment_of, insert_attachment, insert_job, reserve_media_rows, Attachment,
}

abbrev pub new_job : ℕ → Job
new_job id = record { message_id = id; phase = Phase.queued; attempts = 0; next_attempt_at = none }

pub record IsReserved (m : NewMessage) (actor key hash : ℕ) (u : Upload) (db after : Database)
    : Type 0 where
  pub allowed : validate_media_type m.kind (some u.mime_type) ≡ ok tt
  pub fresh : any (by_id m.id) db.messages ≡ false
  pub no_job : any (by_message m.id) db.jobs ≡ false
  pub free : any (by_key actor key) db.send_keys ≡ false
  pub messages : after.messages ≡ db.messages ++ row_of m (next_order db.messages) ∷ []
  pub jobs : after.jobs ≡ db.jobs ++ new_job m.id ∷ []
  pub attachments : after.attachments ≡ db.attachments ++ attachment_of m u ∷ []
  pub send_keys :
      after.send_keys
      ≡ db.send_keys
        ++ (record { actor_id = actor; key = key; request_hash = hash; message_id = m.id }) ∷ []
  pub uploads : after.uploads ≡ delete_where (λ r. r.id == u.id && is_ready r.state) db.uploads

insert_message-eq :
    (m : NewMessage) (db after : Database)
    → insert_message m db ≡ ok after
    → (any (by_id m.id) db.messages ≡ false)
      × (after ≡ record db { messages = db.messages ++ row_of m (next_order db.messages) ∷ [] })
unfolding insert_message
insert_message-eq m db after e = ground arith

insert_job-eq :
    (id : ℕ) (jobs after : List Job)
    → insert_job id jobs ≡ ok after
    → (any (by_message id) jobs ≡ false) × (after ≡ jobs ++ new_job id ∷ [])
unfolding insert_job
insert_job-eq id jobs after e = ground arith

insert_attachment-eq :
    (a : Attachment) (rows after : List Attachment)
    → insert_attachment a rows ≡ ok after
    → after ≡ rows ++ a ∷ []
unfolding insert_attachment
insert_attachment-eq a rows after e = ground arith

insert_send_key-eq :
    (k : SendKey) (db after : Database)
    → insert_send_key k db ≡ ok after
    → (any (by_key k.actor_id k.key) db.send_keys ≡ false)
      × (after ≡ record db { send_keys = db.send_keys ++ k ∷ [] })
unfolding insert_send_key
insert_send_key-eq k db after e = ground arith

pub reserve_media_rows-IsReserved :
    (c : Call) (m : NewMessage) (actor key hash : ℕ) (u : Upload) (db after : Database)
    → reserve_media_rows c m actor key hash u db ≡ ok after
    → IsReserved m actor key hash u db after
unfolding reserve_media_rows
reserve_media_rows-IsReserved c m actor key hash u db after e =
    let (t, e1, r1) = >>=-eq-ok (validate_media_type m.kind (some u.mime_type)) _ e in
    let (inserted, e2, r2) = >>=-eq-ok (insert_message m db) _ r1 in
    let (attachments, e3, r3) =
      >>=-eq-ok (insert_attachment (attachment_of m u) inserted.attachments) _ r2 in
    let (replies, e4, r4) = >>=-eq-ok (save_reply m.id m.reply inserted.replies) _ r3 in
    let (jobs, e5, r5) = >>=-eq-ok (insert_job m.id inserted.jobs) _ r4 in
    let row : Database = record inserted {
      attachments = attachments;
      replies = replies;
      jobs = jobs;
    } in
    let (keyed, e6, r6) =
      >>=-eq-ok
        (insert_send_key
          (record { actor_id = actor; key = key; request_hash = hash; message_id = m.id }) row)
        _ r5 in
    let last : Database = record keyed {
      uploads = delete_where (λ r. r.id == u.id && is_ready r.state) keyed.uploads;
    } in
    let s = refresh_conversation-SameBut m.conversation_id last in
    let i2 = insert_message-eq m db inserted e2 in
    let i3 = insert_attachment-eq (attachment_of m u) inserted.attachments attachments e3 in
    let i5 = insert_job-eq m.id inserted.jobs jobs e5 in
    let i6 =
      insert_send_key-eq
        (record { actor_id = actor; key = key; request_hash = hash; message_id = m.id }) row keyed
        e6 in
    let same : refresh_conversation m.conversation_id last ≡ after = ground arith in
    record {
      allowed = e1;
      fresh = i2.0;
      no_job = ground (arith, i2.1, i5);
      free = ground (arith, i2.1, i6);
      messages =
          ap (λ (d : Database). d.messages) (sym same) ∙ (s.messages ∙ ground (arith, i2.1, i6.1));
      jobs = ap (λ (d : Database). d.jobs) (sym same) ∙ (s.jobs ∙ ground (arith, i2.1, i5.1, i6.1));
      attachments =
          ap (λ (d : Database). d.attachments) (sym same)
          ∙ (s.attachments ∙ ground (arith, i2.1, i3, i6.1));
      send_keys =
          ap (λ (d : Database). d.send_keys) (sym same)
          ∙ (s.send_keys ∙ ground (arith, i2.1, i6.1));
      uploads =
          ap (λ (d : Database). d.uploads) (sym same) ∙ (s.uploads ∙ ground (arith, i2.1, i6.1));
    }
