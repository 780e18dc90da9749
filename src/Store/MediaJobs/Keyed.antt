-- ===== src/Store/MediaJobs/Keyed.antt =====
-- Every operation keeps the primary key of `outgoing_media_jobs`.
use convomeow.Base.{
  ℕ, ◌≡◌, refl, ap, ◌∙◌, inl, inr, Bool, true, false, ◌&&◌, ◌||◌, not, Option, none, some, List, [],
  ◌∷◌, ◌++◌, arith, ◌==◌, if◌then◌else◌,
}
use convomeow.Base.Tables.{
  find_where, any, update_where, delete_where, any-update_where, any-append,
}
use convomeow.Core.{
  ok, >>=-eq-ok, Result-cases, MessageState, fail_if, is_result, or_fail, invalid, other, not_found,
  err,
}
use convomeow.Store.Tables.{Job, Phase, Database}
use convomeow.Store.Conversations.{refresh_conversation, refresh_conversation-SameBut}
use convomeow.Store.Messages.{by_key, NewMessage, Call, Reserved, SentMessage, by_id}
use convomeow.Store.MediaJobs.{
  by_message, reserve_media_send, claim_media_send, retry_media_send, begin_media_send,
  complete_media_send, fail_media_sends, is_uploading, OutgoingJob, claim_job, is_waiting,
  reserve_media_by_key, SendKey, is_due, is_incomplete, is_message_queued, is_usable,
  prepare_message, as_queued, reserve_media_rows, by_key,
}
use convomeow.Store.MediaJobs.Reserve.{new_job, reserve_media_rows-IsReserved}
use convomeow.Store.MediaJobs.Claim.{claim_media_send-eq}
use convomeow.Store.Chats.{Run}
use convomeow.Store.Tables.{Message}
use convomeow.Base.{Bool-cases}
use convomeow.Store.Incoming.{Saved, is_echo, save_echo}
use convomeow.Store.MediaJobs.Recovery.{are_valid, restart, recover_sends, is_lost, is_over}
use convomeow.Store.MediaJobs.Endings.{save_echo-eq}
use convomeow.Store.MediaJobs.Phases.{Op, apply, apply_echo, kept_saved}
use convomeow.Store.MediaJobs.Forward.{replayed_after}
use convomeow.Store.MediaJobs.Sending.{completed_rows}

-- The primary key of `outgoing_media_jobs`.
abbrev pub IsKeyed : List Job → Type 0
IsKeyed [] = Unit {0}
IsKeyed (j ∷ js) = (any (by_message j.message_id) js ≡ false) × IsKeyed js

update_where-IsKeyed :
    (p : Job → Bool) (f : Job → Job) (jobs : List Job)
    → ((j : Job) → (f j).message_id ≡ j.message_id)
    → IsKeyed jobs
    → IsKeyed (update_where p f jobs)
update_where-IsKeyed p f [] h v = tt
update_where-IsKeyed p f (j ∷ js) h v =
    let e : (if p j then f j else j).message_id ≡ j.message_id = ground (arith, h j) in
    (
      ap (λ k. any (by_message k) (update_where p f js)) e
          ∙ (any-update_where p (by_message j.message_id) f js
                (λ x. ap (λ k. k == j.message_id) (h x))
              ∙ v.0),
      update_where-IsKeyed p f js h v.1,
    )

any-delete_where :
    {A : Type 0} (p q : A → Bool) (xs : List A)
    → any q xs ≡ false
    → any q (delete_where p xs) ≡ false
any-delete_where p q [] h = refl
any-delete_where p q (x ∷ xs) h = ground (arith, any-delete_where p q xs)

delete_where-IsKeyed :
    (p : Job → Bool) (jobs : List Job) → IsKeyed jobs → IsKeyed (delete_where p jobs)
delete_where-IsKeyed p [] v = tt
delete_where-IsKeyed p (j ∷ js) v =
    ground (arith, any-delete_where p (by_message j.message_id) js, delete_where-IsKeyed p js)

append-IsKeyed :
    (id : ℕ) (jobs : List Job)
    → any (by_message id) jobs ≡ false
    → IsKeyed jobs
    → IsKeyed (jobs ++ new_job id ∷ [])
append-IsKeyed id [] h v = (refl, tt)
append-IsKeyed id (j ∷ js) h v =
    ground (arith, append-IsKeyed id js, any-append (by_message j.message_id) js (new_job id ∷ []))

-- What the updates of a job have done when they succeed.
pub begin_media_send-eq :
    (id : ℕ) (db after : Database)
    → begin_media_send id db ≡ ok after
    → (any (λ j. j.message_id == id && is_uploading j.phase) db.jobs ≡ true)
      × (after.jobs
          ≡ update_where
              (λ j. j.message_id == id && is_uploading j.phase)
              (λ j. record j { phase = Phase.sending })
              db.jobs)
unfolding begin_media_send
begin_media_send-eq id db after e = ground arith

retry_media_send-eq :
    (id next attempts : ℕ) (db after : Database)
    → retry_media_send id next attempts db ≡ ok after
    → after.jobs
      ≡ update_where
          (λ j. j.message_id == id && is_uploading j.phase)
          (λ j. record j { phase = Phase.queued; next_attempt_at = some next; attempts = attempts })
          db.jobs
unfolding retry_media_send
retry_media_send-eq id next attempts db after e = ground arith

abbrev is_claimable : ℕ → ℕ → Database → Job → Bool
is_claimable id now db j =
    j.message_id == id
    && (is_waiting j.phase && (is_due j.next_attempt_at now && is_message_queued j.message_id db))

claim_job-eq :
    (id now : ℕ) (db after : Database)
    → claim_job id now db ≡ ok after
    → after.jobs
      ≡ update_where (is_claimable id now db) (λ j. record j { phase = Phase.uploading }) db.jobs
unfolding claim_job
claim_job-eq id now db after e = ground arith

claim-IsKeyed :
    (id now : ℕ) (db after : Database) (job : OutgoingJob)
    → claim_media_send id now db ≡ ok (job, after)
    → IsKeyed db.jobs
    → IsKeyed after.jobs
claim-IsKeyed id now db after job e v =
    let (j, c, found, message, attempts) = claim_media_send-eq id now db after job e in
    rw (claim_job-eq id now db after c) (
      update_where-IsKeyed (is_claimable id now db) (λ j. record j { phase = Phase.uploading })
        db.jobs (λ j. refl) v)

complete-IsKeyed :
    (id : ℕ) (state : MessageState) (sent : SentMessage) (db after : Database)
    → complete_media_send id state sent db ≡ ok after
    → IsKeyed db.jobs
    → IsKeyed after.jobs
unfolding complete_media_send
complete-IsKeyed id state sent db after e v =
    let (u, f, g) = >>=-eq-ok (fail_if (not (is_result state)) invalid) _ e in
    let (m, found, h) =
      >>=-eq-ok
        (or_fail (find_where (by_id id) (completed_rows id state sent db).messages) (other 0)) _
        g in
    let s = refresh_conversation-SameBut m.conversation_id (completed_rows id state sent db) in
    let same : refresh_conversation m.conversation_id (completed_rows id state sent db) ≡ after =
      ground arith in
    rw (← same, s.jobs) (delete_where-IsKeyed (by_message id) db.jobs v)

by_key-IsKeyed :
    (o : Option SendKey) (c : Call) (m : NewMessage) (actor key hash upload : ℕ) (db : Database)
    (r : Reserved)
    → reserve_media_by_key o c m actor key hash upload db ≡ ok r
    → IsKeyed db.jobs
    → IsKeyed r.after.jobs
unfolding reserve_media_by_key
by_key-IsKeyed none c m actor key hash upload db r e v =
    let (u, f, g) =
      >>=-eq-ok (or_fail (find_where (is_usable m.account_id upload c.now) db.uploads) not_found) _
        e in
    let (after, f2, g2) = >>=-eq-ok (reserve_media_rows c m actor key hash u db) _ g in
    let same : after ≡ r.after = ground arith in
    let i = reserve_media_rows-IsReserved c m actor key hash u db after f2 in
    rw (← same, i.jobs) (append-IsKeyed m.id db.jobs i.no_job v)
by_key-IsKeyed (some k) c m actor key hash upload db r e v =
    let same : r.after ≡ db = replayed_after k hash db r e in rw same v

reserve-IsKeyed :
    (c : Call) (m : NewMessage) (actor key hash upload : ℕ) (db : Database) (r : Reserved)
    → reserve_media_send c m actor key hash upload db ≡ ok r
    → IsKeyed db.jobs
    → IsKeyed r.after.jobs
unfolding reserve_media_send
reserve-IsKeyed c m actor key hash upload db r e v =
    let (u, f, g) =
      >>=-eq-ok (fail_if (is_incomplete m actor key hash || upload == 0) invalid) _ e in
    let (p, f2, g2) = >>=-eq-ok (prepare_message c (as_queued m)) _ g in
    by_key-IsKeyed (find_where (by_key actor key) db.send_keys) c p actor key hash upload db r g2 v

restart-IsKeyed : (db : Database) → IsKeyed db.jobs → IsKeyed (restart db).jobs
unfolding recover_sends
restart-IsKeyed db v =
    let lost =
      update_where (is_lost db.jobs) (λ m. record m { state = MessageState.outcome_unknown })
        db.messages in
    elim (Bool-cases (are_valid db.messages db.jobs)) [
      | inl e ↦ rw e (
          update_where-IsKeyed (λ j. is_uploading j.phase) (λ j. record j { phase = Phase.queued })
            (delete_where (is_over lost) db.jobs) (λ j. refl)
            (delete_where-IsKeyed (is_over lost) db.jobs v))
      | inr e ↦ rw e v
    ]

kept_saved-IsKeyed :
    (db : Database) (r : Run Saved)
    → ((s : Saved) → r ≡ some (ok s) → IsKeyed s.after.jobs)
    → IsKeyed db.jobs
    → IsKeyed (kept_saved db r).jobs
kept_saved-IsKeyed db none h v = v
kept_saved-IsKeyed db (some (err e)) h v = v
kept_saved-IsKeyed db (some (ok s)) h v = h s refl

echo-IsKeyed :
    (m : NewMessage) (db : Database) (found : Option Message)
    → IsKeyed db.jobs
    → IsKeyed (apply_echo m db found).jobs
echo-IsKeyed m db none v = v
echo-IsKeyed m db (some old) v =
    kept_saved-IsKeyed db (save_echo m old db)
      (λ s e.
        rw ((save_echo-eq m old db s e).0)
          (delete_where-IsKeyed (λ j. j.message_id == old.id) db.jobs v))
      v

pub apply-IsKeyed : (op : Op) (db : Database) → IsKeyed db.jobs → IsKeyed (apply op db).jobs
unfolding apply fail_media_sends
apply-IsKeyed (Op.reserve c m actor key hash upload) db v =
    elim (Result-cases (reserve_media_send c m actor key hash upload db)) [
      | inl (r, e) ↦ rw e (reserve-IsKeyed c m actor key hash upload db r e v)
      | inr (failure, e) ↦ rw e v
    ]
apply-IsKeyed (Op.claim id now) db v = elim (Result-cases (claim_media_send id now db)) [
  | inl ((job, after), e) ↦ rw e (claim-IsKeyed id now db after job e v)
  | inr (failure, e) ↦ rw e v
]
apply-IsKeyed (Op.retry id next attempts) db v =
    elim (Result-cases (retry_media_send id next attempts db)) [
      | inl (after, e) ↦
          rw (e, retry_media_send-eq id next attempts db after e)
            (update_where-IsKeyed (λ j. j.message_id == id && is_uploading j.phase)
              (λ j. record j {
                phase = Phase.queued;
                next_attempt_at = some next;
                attempts = attempts;
              })
              db.jobs (λ j. refl) v)
      | inr (failure, e) ↦ rw e v
    ]
apply-IsKeyed (Op.begin id) db v = elim (Result-cases (begin_media_send id db)) [
  | inl (after, e) ↦
      rw (e, (begin_media_send-eq id db after e).1)
        (update_where-IsKeyed (λ j. j.message_id == id && is_uploading j.phase)
          (λ j. record j { phase = Phase.sending }) db.jobs (λ j. refl) v)
  | inr (failure, e) ↦ rw e v
]
apply-IsKeyed (Op.complete id state sent) db v =
    elim (Result-cases (complete_media_send id state sent db)) [
      | inl (after, e) ↦ rw e (complete-IsKeyed id state sent db after e v)
      | inr (failure, e) ↦ rw e v
    ]
apply-IsKeyed (Op.fail_account account) db v =
    delete_where-IsKeyed
      (λ j. any (λ m. m.id == j.message_id && m.account_id == account) db.messages) db.jobs v
apply-IsKeyed Op.recover db v = restart-IsKeyed db v
apply-IsKeyed (Op.echo m) db v =
    echo-IsKeyed m db (find_where (is_echo m.account_id m.provider_message_id) db.messages) v
