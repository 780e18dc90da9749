-- ===== src/Store/MediaJobs/Sending.antt =====
-- No step of the sending of a message, from the claim of its job to its end, takes it back.
use convomeow.Base.{
  ℕ, ◌≤◌, ◌≡◌, refl, sym, ap, ◌∙◌, inl, inr, Bool, true, ◌&&◌, ◌||◌, not, none, some, List, [], ◌∷◌,
  arith, ◌==◌, if◌then◌else◌, Bool-cases,
}
use convomeow.Base.Tables.{
  find_where, any, update_where, delete_where, any-update_where, find_where-update_where,
}
use convomeow.Core.{
  ok, MessageState, >>=-eq-ok, or_fail, other, fail_if, is_queued, is_result, is_sent, invalid,
}
use convomeow.Store.Tables.{Message, Job, Phase, Database}
use convomeow.Store.Messages.{SentMessage, by_id}
use convomeow.Store.Conversations.{refresh_conversation-SameBut, refresh_conversation}
use convomeow.Store.MediaJobs.{
  by_message, claim_media_send, retry_media_send, begin_media_send, complete_media_send,
  fail_media_sends, is_uploading, OutgoingJob, claim_job, is_waiting, is_due, is_message_queued,
  lost_state, complete_media_row,
}
use convomeow.Store.MediaJobs.Claim.{claim_media_send-eq}
use convomeow.Store.MediaJobs.Phases.{rank}

pub rank-begin :
    (i id : ℕ) (db after : Database) → begin_media_send id db ≡ ok after → rank i db ≤ rank i after
unfolding rank begin_media_send
rank-begin i id db after e = ground (
  arith,
  find_where-update_where (λ j. j.message_id == id && is_uploading j.phase) (by_message i)
      (λ j. record j { phase = Phase.sending }) db.jobs (λ j h. refl),
)

pub rank-retry :
    (i id next attempts : ℕ) (db after : Database)
    → retry_media_send id next attempts db ≡ ok after
    → rank i db ≤ rank i after
unfolding rank retry_media_send
rank-retry i id next attempts db after e = ground (
  arith,
  find_where-update_where (λ j. j.message_id == id && is_uploading j.phase) (by_message i)
      (λ j. record j { phase = Phase.queued; next_attempt_at = some next; attempts = attempts })
      db.jobs (λ j h. refl),
)

rank-claim_job :
    (i id now : ℕ) (db after : Database) → claim_job id now db ≡ ok after → rank i db ≤ rank i after
unfolding rank claim_job
rank-claim_job i id now db after e = ground (
  arith,
  find_where-update_where
      (λ j.
        j.message_id == id
        && (is_waiting j.phase
            && (is_due j.next_attempt_at now && is_message_queued j.message_id db)))
      (by_message i) (λ j. record j { phase = Phase.uploading }) db.jobs (λ j h. refl),
)

pub rank-claim :
    (i id now : ℕ) (db after : Database) (job : OutgoingJob)
    → claim_media_send id now db ≡ ok (job, after)
    → rank i db ≤ rank i after
rank-claim i id now db after job e =
    let (j, c, found, message, attempts) = claim_media_send-eq id now db after job e in
    rank-claim_job i id now db after c

-- Deleting the jobs of some messages leaves those of the others.
pub find-delete_jobs :
    (i : ℕ) (q : ℕ → Bool) (jobs : List Job)
    → find_where (by_message i) (delete_where (λ j. q j.message_id) jobs)
      ≡ (if q i then none else find_where (by_message i) jobs)
find-delete_jobs i q [] = ground arith
find-delete_jobs i q (j ∷ jobs) = elim (Bool-cases (j.message_id == i)) [
  | inl same ↦
      let e : j.message_id ≡ i = ground arith in rw e (ground (arith, find-delete_jobs i q jobs))
  | inr differ ↦ ground (arith, find-delete_jobs i q jobs)
]

any_of_find :
    (i : ℕ) (messages : List Message) (m : Message)
    → find_where (by_id i) messages ≡ some m
    → any (by_id i) messages ≡ true
any_of_find i [] m h = cc
any_of_find i (x ∷ xs) m h = ground (arith, any_of_find i xs m)

rank_congr :
    (i : ℕ) (a b : Database) → a.jobs ≡ b.jobs → a.messages ≡ b.messages → rank i a ≡ rank i b
unfolding rank
rank_congr i a b h k = rw (h, k)

abbrev pub completed_rows : ℕ → MessageState → SentMessage → Database → Database
completed_rows id state sent db = record db {
  messages =
      update_where (λ m. m.id == id && (is_queued m.state || is_sent m.state))
        (complete_media_row state sent) db.messages;
  jobs = delete_where (by_message id) db.jobs;
}

rank-completed_rows :
    (i id : ℕ) (state : MessageState) (sent : SentMessage) (db : Database) (m : Message)
    → find_where (by_id id) (completed_rows id state sent db).messages ≡ some m
    → rank i db ≤ rank i (completed_rows id state sent db)
unfolding rank
rank-completed_rows i id state sent db m found =
    let known = any_of_find id (completed_rows id state sent db).messages m found in
    let same =
      any-update_where (λ m. m.id == id && (is_queued m.state || is_sent m.state)) (by_id i)
        (complete_media_row state sent) db.messages (λ m. refl) in
    let jobs = find-delete_jobs i (λ k. k == id) db.jobs in
    rw (jobs, same)
      (elim (Bool-cases (i == id)) [
        | inl e ↦
            let here : i ≡ id = ground arith in
            let known_i : any (by_id i) db.messages ≡ true =
              ap (λ k. any (by_id k) db.messages) here
              ∙ (sym (
                    any-update_where (λ m. m.id == id && (is_queued m.state || is_sent m.state))
                      (by_id id) (complete_media_row state sent) db.messages (λ m. refl))
                  ∙ known) in
            rw e (ground arith)
        | inr ne ↦ rw ne (omega arith)
      ])

pub rank_complete :
    (i id : ℕ) (state : MessageState) (sent : SentMessage) (db after : Database)
    → complete_media_send id state sent db ≡ ok after
    → rank i db ≤ rank i after
unfolding complete_media_send
rank_complete i id state sent db after e =
    let (u, f, g) = >>=-eq-ok (fail_if (not (is_result state)) invalid) _ e in
    let (m, found, h) =
      >>=-eq-ok
        (or_fail (find_where (by_id id) (completed_rows id state sent db).messages) (other 0)) _
        g in
    let s = refresh_conversation-SameBut m.conversation_id (completed_rows id state sent db) in
    let there : find_where (by_id id) (completed_rows id state sent db).messages ≡ some m =
      ground arith in
    let same : refresh_conversation m.conversation_id (completed_rows id state sent db) ≡ after =
      ground arith in
    rw
      (
        ← same,
        rank_congr i (refresh_conversation m.conversation_id (completed_rows id state sent db))
            (completed_rows id state sent db) s.jobs s.messages,
      )
      (rank-completed_rows i id state sent db m there)

any_of_account :
    (i account : ℕ) (messages : List Message)
    → any (λ m. m.id == i && m.account_id == account) messages ≡ true
    → any (by_id i) messages ≡ true
any_of_account i account [] h = cc
any_of_account i account (m ∷ ms) h = ground (arith, any_of_account i account ms)

pub rank-fail : (i account : ℕ) (db : Database) → rank i db ≤ rank i (fail_media_sends account db)
unfolding rank fail_media_sends
rank-fail i account db = ground (
  arith,
  any_of_account i account db.messages,
  find-delete_jobs i (λ k. any (λ m. m.id == k && m.account_id == account) db.messages) db.jobs,
  any-update_where
      (λ m. m.account_id == account && (is_queued m.state && any (by_message m.id) db.jobs))
      (by_id i) (λ m. record m { state = lost_state (find_where (by_message m.id) db.jobs) })
      db.messages (λ m. refl),
)
