-- ===== src/Store/MediaJobs.antt =====
-- internal/store/sqlite/outgoing_media.go: the jobs that send media, and the reservation of one.
pub mod Reserve
pub mod Recovery
pub mod Phases
pub mod Endings
pub mod Sending
pub mod Forward
pub mod Keyed
pub mod Held
pub mod Once
pub mod Claim
pub mod Taken
use convomeow.Base.{
  ℕ, ◌+◌, Bool, true, false, ◌&&◌, ◌||◌, not, Option, none, some, List, [], ◌∷◌, ◌++◌, ltb, leb,
  ◌==◌, if◌then◌else◌,
}
use convomeow.Base.Text.{Text}
use convomeow.Base.Tables.{find_where, any, select_where, update_where, delete_where}
use convomeow.Core.{
  Result, ok, err, invalid, conflict, not_found, idempotency, other, ◌>>=◌, ◌>>◌, fail_if, or_fail,
  MessageState, is_queued, is_sent, is_result, validate_media_type,
}
use convomeow.Store.Tables.{
  Message, Attachment, Availability, FailureCode, Upload, Job, Phase, SendKey, Database,
}
use convomeow.Store.Attachments.{save_reply}
use convomeow.Store.Conversations.{refresh_conversation}
use convomeow.Store.Messages.{
  NewMessage, Call, Reserved, SentMessage, by_id, by_key, is_incomplete, as_queued, prepare_message,
  insert_message, insert_send_key, row_of, get_message,
}
use convomeow.Store.Uploads.{update_one, is_ready}

abbrev pub by_message : ℕ → Job → Bool
by_message id j = j.message_id == id

abbrev is_waiting : Phase → Bool
is_waiting Phase.queued = true
is_waiting _ = false

abbrev is_uploading : Phase → Bool
is_uploading Phase.uploading = true
is_uploading _ = false

abbrev is_sending : Phase → Bool
is_sending Phase.sending = true
is_sending _ = false

-- `next_attempt_at IS NULL OR next_attempt_at <= ?`
abbrev pub is_due : Option ℕ → ℕ → Bool
is_due none now = true
is_due (some t) now = leb t now

-- The attachment of an upload: `INSERT INTO attachments(…) VALUES(?, ?, 0, …, 'ready', …)`.
abbrev pub attachment_of : NewMessage → Upload → Attachment
attachment_of m u = record {
  id = u.id;
  message_id = m.id;
  part_index = 0;
  kind = m.kind;
  mime_type = u.mime_type;
  file_name = u.file_name;
  size = u.size;
  availability = Availability.ready;
  provider_ref = none;
  auto_fetch = false;
  width = 0;
  height = 0;
  duration_seconds = 0;
  next_attempt_at = none;
  attempt_count = 0;
  failure_code = FailureCode.unset;
  required_bytes = 0;
  storage_profile_id = some u.profile_id;
  object_key = some u.object_key;
  stored_size = some u.size;
  stored_sha256 = some u.sha256;
  media_version = 0;
}

unfoldable pub insert_attachment : Attachment → List Attachment → Result (List Attachment)
insert_attachment a rows =
    if any (λ r. r.id == a.id || r.message_id == a.message_id && r.part_index == a.part_index) rows
    then err conflict
    else ok (rows ++ a ∷ [])

-- A taken key is an error of the database, which is passed on as it is.
unfoldable pub insert_job : ℕ → List Job → Result (List Job)
insert_job id jobs =
    if any (by_message id) jobs
    then err (other 0)
    else ok (
        jobs
        ++ record { message_id = id; phase = Phase.queued; attempts = 0; next_attempt_at = none }
          ∷ [])

-- The insertions of `ReserveMediaSend`, once the key is free and the upload is found.
unfoldable pub reserve_media_rows :
    Call → NewMessage → ℕ → ℕ → ℕ → Upload → Database → Result Database
unfolding insert_attachment
reserve_media_rows c m actor key hash u db = do
  validate_media_type m.kind (some u.mime_type)
  inserted ← insert_message m db
  attachments ← insert_attachment (attachment_of m u) inserted.attachments
  replies ← save_reply m.id m.reply inserted.replies
  jobs ← insert_job m.id inserted.jobs
  keyed ←
      insert_send_key
        (record { actor_id = actor; key = key; request_hash = hash; message_id = m.id })
        (record inserted { attachments = attachments; replies = replies; jobs = jobs })
  ok (
      refresh_conversation m.conversation_id (record keyed {
        uploads = delete_where (λ r. r.id == u.id && is_ready r.state) keyed.uploads;
      }))

-- The upload that a send may take: of the account, ready, and not expired.
abbrev pub is_usable : ℕ → ℕ → ℕ → Upload → Bool
is_usable account id now u =
    u.id == id && (u.account_id == account && (is_ready u.state && ltb now u.expires_at))

-- What `ReserveMediaSend` does by the key that it finds.
unfoldable pub reserve_media_by_key :
    Option SendKey → Call → NewMessage → ℕ → ℕ → ℕ → ℕ → Database → Result Reserved
reserve_media_by_key none c m actor key hash upload db = do
  u ← or_fail (find_where (is_usable m.account_id upload c.now) db.uploads) not_found
  after ← reserve_media_rows c m actor key hash u db
  ok (record { message = row_of m 0; created = true; after = after })
reserve_media_by_key (some k) c m actor key hash upload db =
    if k.request_hash == hash
    then get_message k.message_id db
      >>= (λ saved. ok (record { message = saved; created = false; after = db }))
    else err idempotency

-- `ReserveMediaSend`
unfoldable pub reserve_media_send : Call → NewMessage → ℕ → ℕ → ℕ → ℕ → Database → Result Reserved
unfolding reserve_media_by_key
reserve_media_send c m actor key hash upload db = do
  fail_if (is_incomplete m actor key hash || upload == 0) invalid
  p ← prepare_message c (as_queued m)
  reserve_media_by_key (find_where (by_key actor key) db.send_keys) c p actor key hash upload db

-- `SELECT 1 FROM messages m WHERE m.public_id = ? AND m.state = 'queued'`
abbrev is_message_queued : ℕ → Database → Bool
is_message_queued id db = any (λ m. m.id == id && is_queued m.state) db.messages

-- `ListPendingMediaSends`, before the order and the limit.
pub pending_media_sends : ℕ → Database → List Job
pending_media_sends now db =
    select_where
      (λ j.
        is_waiting j.phase && (is_message_queued j.message_id db && is_due j.next_attempt_at now))
      db.jobs

-- `core.OutgoingMediaJob`, as far as the worker reads it.
pub record OutgoingJob : Type 0 where
  pub message : Message
  pub profile_id : ℕ
  pub object_key : ℕ
  pub size : ℕ
  pub sha256 : Text
  pub attempts : ℕ

-- Its scan: a column that is NULL is an error.
abbrev pub outgoing_job : Message → Attachment → Job → Result OutgoingJob
outgoing_job m a j = do
  profile ← or_fail a.storage_profile_id (other 0)
  key ← or_fail a.object_key (other 0)
  size ← or_fail a.stored_size (other 0)
  sha256 ← or_fail a.stored_sha256 (other 0)
  ok (record {
    message = m;
    profile_id = profile;
    object_key = key;
    size = size;
    sha256 = sha256;
    attempts = j.attempts;
  })

abbrev with_jobs : Database → Result (List Job) → Result Database
with_jobs db (ok rows) = ok (record db { jobs = rows })
with_jobs db (err e) = err e

-- The update of `ClaimMediaSend`.
unfoldable pub claim_job : ℕ → ℕ → Database → Result Database
claim_job id now db = with_jobs db (
    update_one
      (λ j.
        j.message_id == id
        && (is_waiting j.phase
            && (is_due j.next_attempt_at now && is_message_queued j.message_id db)))
      (λ j. record j { phase = Phase.uploading }) db.jobs)

-- `ClaimMediaSend`
unfoldable pub claim_media_send : ℕ → ℕ → Database → Result (OutgoingJob × Database)
claim_media_send id now db = do
  claimed ← claim_job id now db
  j ← or_fail (find_where (by_message id) claimed.jobs) (other 0)
  m ← or_fail (find_where (by_id id) claimed.messages) (other 0)
  a ←
      or_fail (find_where (λ a. a.message_id == id && a.part_index == 0) claimed.attachments)
        (other 0)
  job ← outgoing_job m a j
  ok (job, claimed)

-- `RetryMediaSend`
pub retry_media_send : ℕ → ℕ → ℕ → Database → Result Database
retry_media_send id next attempts db = with_jobs db (
    update_one (λ j. j.message_id == id && is_uploading j.phase)
      (λ j. record j { phase = Phase.queued; next_attempt_at = some next; attempts = attempts })
      db.jobs)

-- `BeginMediaSend`
pub begin_media_send : ℕ → Database → Result Database
begin_media_send id db = with_jobs db (
    update_one (λ j. j.message_id == id && is_uploading j.phase)
      (λ j. record j { phase = Phase.sending }) db.jobs)

abbrev keep_sent : MessageState → MessageState → MessageState
keep_sent MessageState.sent new = MessageState.sent
keep_sent old new = new

abbrev pub complete_media_row : MessageState → SentMessage → Message → Message
complete_media_row state sent m = record m {
  state = keep_sent m.state state;
  sender_id = if sent.sender_id == 0 then m.sender_id else sent.sender_id;
  occurred_at = if sent.timestamp == 0 then m.occurred_at else sent.timestamp;
}

-- `CompleteMediaSend`
pub complete_media_send : ℕ → MessageState → SentMessage → Database → Result Database
complete_media_send id state sent db = do
  fail_if (not (is_result state)) invalid
  let updated = record db {
    messages =
        update_where (λ m. m.id == id && (is_queued m.state || is_sent m.state))
          (complete_media_row state sent) db.messages;
    jobs = delete_where (by_message id) db.jobs;
  }
  m ← or_fail (find_where (by_id id) updated.messages) (other 0)
  ok (refresh_conversation m.conversation_id updated)

abbrev lost_state : Option Job → MessageState
lost_state none = MessageState.failed
lost_state (some j) =
    if is_sending j.phase then MessageState.outcome_unknown else MessageState.failed

-- `FailMediaSendsForAccount`
pub fail_media_sends : ℕ → Database → Database
fail_media_sends account db = record db {
  messages =
      update_where
        (λ m. m.account_id == account && (is_queued m.state && any (by_message m.id) db.jobs))
        (λ m. record m { state = lost_state (find_where (by_message m.id) db.jobs) }) db.messages;
  jobs =
      delete_where (λ j. any (λ m. m.id == j.message_id && m.account_id == account) db.messages)
        db.jobs;
}
