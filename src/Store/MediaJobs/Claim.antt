-- ===== src/Store/MediaJobs/Claim.antt =====
-- What a claim that succeeds has read and written.
use convomeow.Base.{ℕ, ◌≡◌, sym, ap, ◌∙◌, ◌&&◌, some, arith, ◌==◌, Option-cases}
use convomeow.Core.{ok, >>=-eq-ok, or_fail, other}
use convomeow.Base.Tables.{find_where, find_where_holds}
use convomeow.Store.Tables.{Message, Attachment, Job, Database}
use convomeow.Store.Messages.{by_id}
use convomeow.Store.MediaJobs.{outgoing_job, claim_job, by_message, OutgoingJob, claim_media_send}

outgoing_job-eq :
    (m : Message) (a : Attachment) (j : Job) (o : OutgoingJob)
    → outgoing_job m a j ≡ ok o
    → (o.message ≡ m) × (o.attempts ≡ j.attempts)
outgoing_job-eq m a j o e = ground (
  arith,
  Option-cases a.storage_profile_id,
  Option-cases a.object_key,
  Option-cases a.stored_size,
  Option-cases a.stored_sha256,
)

-- The job and the message that a claim returns are those of the database that it leaves.
pub claim_media_send-eq :
    (id now : ℕ) (db claimed : Database) (job : OutgoingJob)
    → claim_media_send id now db ≡ ok (job, claimed)
    → (j : Job) × (claim_job id now db ≡ ok claimed)
      × (find_where (by_message id) claimed.jobs ≡ some j)
      × (find_where (by_id id) claimed.messages ≡ some job.message)
      × (job.attempts ≡ j.attempts)
unfolding claim_media_send
claim_media_send-eq id now db claimed job e =
    let (c, f, g) = >>=-eq-ok (claim_job id now db) _ e in
    let (j, f1, g1) = >>=-eq-ok (or_fail (find_where (by_message id) c.jobs) (other 0)) _ g in
    let (m, f2, g2) = >>=-eq-ok (or_fail (find_where (by_id id) c.messages) (other 0)) _ g1 in
    let (a, f3, g3) =
      >>=-eq-ok
        (or_fail (find_where (λ a. a.message_id == id && a.part_index == 0) c.attachments)
          (other 0))
        _ g2 in
    let (o, f4, g4) = >>=-eq-ok (outgoing_job m a j) _ g3 in
    let last : c ≡ claimed = ground arith in
    let same : o ≡ job = ground arith in
    let job_found : find_where (by_message id) c.jobs ≡ some j = ground arith in
    let found : find_where (by_id id) c.messages ≡ some m = ground arith in
    let (message, attempts) = outgoing_job-eq m a j o f4 in
    (
      j,
      f ∙ ap ok last,
      ap (λ (x : Database). find_where (by_message id) x.jobs) (sym last) ∙ job_found,
      ap (λ (x : Database). find_where (by_id id) x.messages) (sym last)
          ∙ (found ∙ ap some (sym message ∙ ap (λ (x : OutgoingJob). x.message) same)),
      ap (λ (x : OutgoingJob). x.attempts) (sym same) ∙ attempts,
    )

pub id-claim_media_send :
    (id now : ℕ) (db claimed : Database) (job : OutgoingJob)
    → claim_media_send id now db ≡ ok (job, claimed)
    → job.message.id ≡ id
id-claim_media_send id now db claimed job e =
    let (j, c, j_found, found, attempts) = claim_media_send-eq id now db claimed job e in
    let held = find_where_holds (by_id id) claimed.messages job.message found in ground arith
