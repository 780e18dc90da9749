-- ===== src/Store/MediaJobs/Held.antt =====
-- A job that a worker has claimed, and what the worker's next operation on it leaves.
use convomeow.Base.{
  ℕ, ◌≡◌, refl, sym, ap, ◌∙◌, inl, inr, Bool, true, false, ◌&&◌, ◌||◌, none, some, List, [], ◌∷◌,
  arith, ◌==◌, if◌then◌else◌, Bool-cases, Option-cases,
}
use convomeow.Base.Tables.{
  find_where, any, update_where, delete_where, find_where-update_where, find_where-delete_where,
  find_where_holds,
}
use convomeow.Core.{ok, MessageState, is_queued, is_sent, is_result}
use convomeow.Store.Tables.{Message, Job, Phase, Database}
use convomeow.Store.Messages.{by_id, SentMessage}
use convomeow.Store.Conversations.{refresh_conversation, refresh_conversation-SameBut}
use convomeow.Store.MediaJobs.{
  by_message, is_uploading, is_waiting, is_due, is_message_queued, OutgoingJob, claim_job,
  claim_media_send, retry_media_send, begin_media_send, complete_media_send, complete_media_row,
}
use convomeow.Store.MediaJobs.Keyed.{IsKeyed}
use convomeow.Store.MediaJobs.Claim.{claim_media_send-eq}

any-and :
    (id : ℕ) (p : Job → Bool) (jobs : List Job)
    → any (by_message id) jobs ≡ false
    → any (λ j. j.message_id == id && p j) jobs ≡ false
any-and id p [] h = refl
any-and id p (j ∷ js) h = ground (arith, any-and id p js)

-- The one job of a message is the one that an update selects.
find-any_keyed :
    (id : ℕ) (p : Job → Bool) (jobs : List Job) (j : Job)
    → IsKeyed jobs
    → any (λ j. j.message_id == id && p j) jobs ≡ true
    → find_where (by_message id) jobs ≡ some j
    → p j ≡ true
find-any_keyed id p [] j v h f = cc
find-any_keyed id p (k ∷ js) j v h f = elim (Bool-cases (k.message_id == id)) [
  | inl e ↦
      let same : k.message_id ≡ id = ground arith in
      let none_left = any-and id p js (ap (λ i. any (by_message i) js) (sym same) ∙ v.0) in
      ground (arith, e, none_left)
  | inr e ↦ ground (arith, e, find-any_keyed id p js j)
]

-- A message that a worker has claimed: its job is the worker's.
pub record IsHeld (id : ℕ) (db : Database) : Type 0 where
  pub job : Job
  pub found : find_where (by_message id) db.jobs ≡ some job
  pub uploading : is_uploading job.phase ≡ true

-- The update of a claim, with a name for the condition.
abbrev is_ready_at : ℕ → ℕ → Database → Job → Bool
is_ready_at id now db j =
    is_waiting j.phase && (is_due j.next_attempt_at now && is_message_queued id db)

any-is_ready_at :
    (id now : ℕ) (db : Database) (jobs : List Job)
    → any
        (λ j.
          j.message_id == id
          && (is_waiting j.phase
              && (is_due j.next_attempt_at now && is_message_queued j.message_id db)))
        jobs
      ≡ any (λ j. j.message_id == id && is_ready_at id now db j) jobs
any-is_ready_at id now db [] = refl
any-is_ready_at id now db (j ∷ js) = elim (Bool-cases (j.message_id == id)) [
  | inl e ↦
      let same : j.message_id ≡ id = ground arith in rw (any-is_ready_at id now db js, same) refl
  | inr e ↦ rw (any-is_ready_at id now db js, e) refl
]

claim_job-uploading :
    (id now : ℕ) (db after : Database) (j : Job)
    → claim_job id now db ≡ ok after
    → IsKeyed db.jobs
    → find_where (by_message id) after.jobs ≡ some j
    → (is_uploading j.phase ≡ true) × (after.messages ≡ db.messages)
unfolding claim_job
claim_job-uploading id now db after j e v f =
    let again =
      find_where-update_where
        (λ j.
          j.message_id == id
          && (is_waiting j.phase
              && (is_due j.next_attempt_at now && is_message_queued j.message_id db)))
        (by_message id) (λ j. record j { phase = Phase.uploading }) db.jobs (λ j h. refl) in
    elim (Option-cases (find_where (by_message id) db.jobs)) [
      | inl missing ↦ ground (arith, again, missing)
      | inr (k, found) ↦
          let ready : is_ready_at id now db k ≡ true =
            find-any_keyed id (is_ready_at id now db) db.jobs k v
              (sym (any-is_ready_at id now db db.jobs) ∙ ground arith) found in
          let held = find_where_holds (by_message id) db.jobs k found in
          let same : k.message_id ≡ id = ground arith in
          ground (arith, again, found, ready, held, ap (λ i. is_message_queued i db) same)
    ]

pub claim_media_send-IsHeld :
    (id now : ℕ) (db claimed : Database) (job : OutgoingJob)
    → claim_media_send id now db ≡ ok (job, claimed)
    → IsKeyed db.jobs
    → (h : IsHeld id claimed) × (h.job.attempts ≡ job.attempts)
      × (find_where (by_id id) claimed.messages ≡ some job.message)
      × (claimed.messages ≡ db.messages)
claim_media_send-IsHeld id now db claimed job e v =
    let (j, c, found, message, attempts) = claim_media_send-eq id now db claimed job e in
    let (uploading, messages) = claim_job-uploading id now db claimed j c v found in
    (record { job = j; found = found; uploading = uploading }, sym attempts, message, messages)

any-held :
    (id : ℕ) (jobs : List Job) (j : Job)
    → find_where (by_message id) jobs ≡ some j
    → is_uploading j.phase ≡ true
    → any (λ k. k.message_id == id && is_uploading k.phase) jobs ≡ true
any-held id [] j f u = cc
any-held id (k ∷ js) j f u = ground (arith, any-held id js j)

pub retry_media_send-held :
    (id next attempts : ℕ) (db : Database) (h : IsHeld id db)
    → (after : Database) × (retry_media_send id next attempts db ≡ ok after)
      × (find_where (by_message id) after.jobs
          ≡ some (record h.job {
            phase = Phase.queued;
            next_attempt_at = some next;
            attempts = attempts;
          }))
unfolding retry_media_send
retry_media_send-held id next attempts db h =
    let held = any-held id db.jobs h.job h.found h.uploading in
    let own = find_where_holds (by_message id) db.jobs h.job h.found in
    let again =
      find_where-update_where (λ j. j.message_id == id && is_uploading j.phase) (by_message id)
        (λ j. record j { phase = Phase.queued; next_attempt_at = some next; attempts = attempts })
        db.jobs (λ j h. refl) in
    (
      record db {
        jobs =
            update_where (λ j. j.message_id == id && is_uploading j.phase)
              (λ j. record j {
                phase = Phase.queued;
                next_attempt_at = some next;
                attempts = attempts;
              })
              db.jobs;
      },
      rw held refl,
      again ∙ rw (h.found, own, h.uploading) refl,
    )

pub begin_media_send-held :
    (id : ℕ) (db : Database)
    → IsHeld id db
    → (after : Database) × (begin_media_send id db ≡ ok after) × (after.messages ≡ db.messages)
unfolding begin_media_send
begin_media_send-held id db h = (
  record db {
    jobs =
        update_where (λ j. j.message_id == id && is_uploading j.phase)
          (λ j. record j { phase = Phase.sending }) db.jobs;
  },
  rw (any-held id db.jobs h.job h.found h.uploading) refl,
  refl,
)

ended :
    (state : MessageState) (sent : SentMessage) (m : Message)
    → is_result state ≡ true
    → is_queued
        (if is_queued m.state || is_sent m.state then complete_media_row state sent m else m).state
      ≡ false
ended state sent m r = ground arith

-- A completion ends the job, and the message is not queued any more.
pub complete_media_send-ends :
    (id : ℕ) (state : MessageState) (sent : SentMessage) (db : Database) (m : Message)
    → is_result state ≡ true
    → find_where (by_id id) db.messages ≡ some m
    → (after : Database) × (n : Message) × (complete_media_send id state sent db ≡ ok after)
      × (find_where (by_message id) after.jobs ≡ none)
      × (find_where (by_id id) after.messages ≡ some n)
      × (is_queued n.state ≡ false)
unfolding complete_media_send
complete_media_send-ends id state sent db m r f =
    let found =
      find_where-update_where (λ m. m.id == id && (is_queued m.state || is_sent m.state)) (by_id id)
        (complete_media_row state sent) db.messages (λ m h. refl) in
    let own = find_where_holds (by_id id) db.messages m f in
    let n = if is_queued m.state || is_sent m.state then complete_media_row state sent m else m in
    let rows = record db {
      messages =
          update_where (λ m. m.id == id && (is_queued m.state || is_sent m.state))
            (complete_media_row state sent) db.messages;
      jobs = delete_where (by_message id) db.jobs;
    } in
    let there : find_where (by_id id) rows.messages ≡ some n = found ∙ rw (f, own) refl in
    let same = refresh_conversation-SameBut n.conversation_id rows in
    (
      refresh_conversation n.conversation_id rows,
      n,
      rw (r, there) refl,
      ap (find_where (by_message id)) same.jobs ∙ find_where-delete_where (by_message id) db.jobs,
      ap (find_where (by_id id)) same.messages ∙ there,
      ended state sent m r,
    )
