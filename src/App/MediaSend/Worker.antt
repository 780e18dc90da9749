-- ===== src/App/MediaSend/Worker.antt =====
-- The worker does nothing that the operations of the jobs do not do.
use convomeow.Base.{
  ℕ, suc, ◌+◌, ◌≤◌, ◌≡◌, refl, ap, ◌∙◌, inl, inr, Bool, true, false, ◌&&◌, not, List, [], ◌∷◌, ◌++◌,
  arith, leb, if◌then◌else◌, subst,
}
use convomeow.Core.{Result, ok, err, Error, Result-cases, MessageState, ◌>>=◌}
use convomeow.Store.Tables.{Database}
use convomeow.Store.Messages.{get_message}
use convomeow.Store.MediaJobs.{OutgoingJob, claim_media_send, retry_media_send, begin_media_send}
use convomeow.Store.MediaJobs.Claim.{id-claim_media_send}
use convomeow.Store.MediaJobs.Phases.{Op, apply, kept}
use convomeow.Store.MediaJobs.Once.{handed_over, hands_over, handed_over_once}
use convomeow.Store.MediaJobs.Keyed.{IsKeyed}
use convomeow.App.Session.{State, Service, Runtime, runtime}
use convomeow.App.Session.Logins.{is_connected}
use convomeow.App.MediaSend.{
  counts, needs_login, World, Attempt, Outcome, attempt_upload, nothing_sent, fail_media_send,
  retry_logged_in, retry_runtime, retry_job, media_result, unsent, settle, work, work_connected,
  process_media_send, delay, is_final, is_none,
}

-- The operations, one after the other.
pub run : List Op → Database → Database
run [] db = db
run (op ∷ ops) db = run ops (apply op db)

-- A change of the database that operations explain, with as many calls of the provider as they hand
-- over messages.
pub record IsRun (id : ℕ) (db after : Database) (sends : ℕ) : Type 0 where
  pub ops : List Op
  pub runs : run ops db ≡ after
  pub hands : handed_over id ops db ≡ sends

nothing-IsRun : (id : ℕ) (db : Database) → IsRun id db db 0
unfolding run handed_over
nothing-IsRun id db = record { ops = []; runs = refl; hands = refl }

branch-IsRun :
    (id : ℕ) (b : Bool) (db x y : Database)
    → IsRun id db x 0
    → IsRun id db y 0
    → IsRun id db (if b then x else y) 0
branch-IsRun id true db x y h k = h
branch-IsRun id false db x y h k = k

retry_media_send-IsRun :
    (id job next attempts : ℕ) (db : Database)
    → IsRun id db (kept db (retry_media_send job next attempts db)) 0
unfolding run handed_over hands_over apply
retry_media_send-IsRun id job next attempts db = record {
  ops = Op.retry job next attempts ∷ [];
  runs = refl;
  hands = refl;
}

fail_media_send-IsRun :
    (id : ℕ) (job : OutgoingJob) (db : Database) → IsRun id db (fail_media_send job db) 0
unfolding run handed_over hands_over fail_media_send apply
fail_media_send-IsRun id job db = record {
  ops = Op.complete job.message.id MessageState.failed nothing_sent ∷ [];
  runs = refl;
  hands = refl;
}

retry_logged_in-IsRun :
    (id : ℕ) (w : World) (job : OutgoingJob) (e : Error) (state : State) (db : Database)
    → IsRun id db (retry_logged_in w job e state db) 0
unfolding retry_logged_in
retry_logged_in-IsRun id w job e state db =
    let attempts = if counts state e then suc job.attempts else job.attempts in
    let wait = if counts state e then delay attempts else 0 in
    let again = kept db (retry_media_send job.message.id (w.now + wait) attempts db) in
    branch-IsRun id (is_final e) db (fail_media_send job db)
      (if leb 5 attempts then fail_media_send job db else again) (fail_media_send-IsRun id job db)
      (branch-IsRun id (leb 5 attempts) db (fail_media_send job db) again
        (fail_media_send-IsRun id job db)
        (retry_media_send-IsRun id job.message.id (w.now + wait) attempts db))

retry_runtime-IsRun :
    (id : ℕ) (w : World) (job : OutgoingJob) (e : Error) (rt : Result Runtime) (db : Database)
    → IsRun id db (retry_runtime w job e rt db) 0
retry_runtime-IsRun id w job e (ok rt) db =
    branch-IsRun id (needs_login rt.state) db db (retry_logged_in w job e rt.state db)
      (nothing-IsRun id db) (retry_logged_in-IsRun id w job e rt.state db)
retry_runtime-IsRun id w job e (err failure) db = nothing-IsRun id db

retry_job-IsRun :
    (id : ℕ) (w : World) (job : OutgoingJob) (e : Error) (s : Service) (db : Database)
    → IsRun id db (retry_job w job e s db) 0
unfolding retry_job
retry_job-IsRun id w job e s db =
    let rt = runtime job.message.account_id (w.meanwhile s) in
    branch-IsRun id w.closed db db (retry_runtime w job e rt db) (nothing-IsRun id db)
      (retry_runtime-IsRun id w job e rt db)

settle-IsRun :
    (w : World) (job : OutgoingJob) (s : Service) (db : Database) (a : Attempt)
    → IsRun job.message.id db (settle w job s db a).after (settle w job s db a).sends
unfolding run handed_over hands_over apply
settle-IsRun w job s db (Attempt.retry e) = retry_job-IsRun job.message.id w job e s db
settle-IsRun w job s db (Attempt.fail e) = fail_media_send-IsRun job.message.id job db
settle-IsRun w job s db Attempt.ready = elim (Result-cases (begin_media_send job.message.id db)) [
  | inl (begun, e) ↦
      let said = w.send job.message.id in
      let state = media_result job.message.provider_message_id said in
      record {
        ops = Op.begin job.message.id ∷ Op.complete job.message.id state said.0 ∷ [];
        runs = rw e refl;
        hands = rw e (ground arith);
      }
  | inr (failure, e) ↦ rw e (retry_job-IsRun job.message.id w job failure s db)
]

claim_media_send-IsRun :
    (id now : ℕ) (db claimed after : Database) (job : OutgoingJob) (sends : ℕ)
    → claim_media_send id now db ≡ ok (job, claimed)
    → IsRun id claimed after sends
    → IsRun id db after sends
unfolding run handed_over hands_over apply
claim_media_send-IsRun id now db claimed after job sends e v = record {
  ops = Op.claim id now ∷ v.ops;
  runs = rw e v.runs;
  hands = rw e (ground (arith, v.hands));
}

work-IsRun :
    (w : World) (id : ℕ) (s : Service) (db : Database)
    → IsRun id db
        (work w s db (claim_media_send id w.now db)).after
        (work w s db (claim_media_send id w.now db)).sends
work-IsRun w id s db = elim (Result-cases (claim_media_send id w.now db)) [
  | inl ((job, claimed), e) ↦
      let out = settle w job s claimed (attempt_upload w job) in
      let same = id-claim_media_send id w.now db claimed job e in
      rw e (
        claim_media_send-IsRun id w.now db claimed out.after job out.sends e (
          subst (λ i. IsRun i claimed out.after out.sends) same
            (settle-IsRun w job s claimed (attempt_upload w job))))
  | inr (failure, e) ↦ rw e (nothing-IsRun id db)
]

branch_outcome-IsRun :
    (id : ℕ) (b : Bool) (db : Database) (x y : Outcome)
    → IsRun id db x.after x.sends
    → IsRun id db y.after y.sends
    → IsRun id db (if b then x else y).after (if b then x else y).sends
branch_outcome-IsRun id true db x y h k = h
branch_outcome-IsRun id false db x y h k = k

work_connected-IsRun :
    (w : World) (id : ℕ) (s : Service) (db : Database) (rt : Result Runtime)
    → IsRun id db (work_connected w id s db rt).after (work_connected w id s db rt).sends
work_connected-IsRun w id s db (ok rt) =
    branch_outcome-IsRun id (is_connected rt.state && not (is_none rt.session)) db
      (work w s db (claim_media_send id w.now db)) (unsent db) (work-IsRun w id s db)
      (nothing-IsRun id db)
work_connected-IsRun w id s db (err failure) = nothing-IsRun id db

-- The worker's pass over a message is a sequence of the operations on jobs, whatever the file
-- system, the store of objects and the provider answer, and it calls the provider exactly as often
-- as these hand the message over.
pub process_media_send-IsRun :
    (w : World) (id : ℕ) (s : Service) (db : Database)
    → IsRun id db (process_media_send w id s db).after (process_media_send w id s db).sends
unfolding process_media_send
process_media_send-IsRun w id s db =
    work_connected-IsRun w id s db (get_message id db >>= λ m. runtime m.account_id s)

run-append : (ops more : List Op) (db : Database) → run (ops ++ more) db ≡ run more (run ops db)
unfolding run
run-append [] more db = refl
run-append (op ∷ ops) more db = run-append ops more (apply op db)

handed_over-append :
    (id : ℕ) (ops more : List Op) (db : Database)
    → handed_over id (ops ++ more) db ≡ handed_over id ops db + handed_over id more (run ops db)
unfolding run handed_over
handed_over-append id [] more db = omega arith
handed_over-append id (op ∷ ops) more db =
    omega (arith, handed_over-append id ops more (apply op db))

-- Two passes of the worker over a message, with any operations on jobs between them, call the
-- provider at most once together, in a database where a message has at most one job.
pub process_media_send_once :
    (w v : World) (id : ℕ) (s t : Service) (between : List Op) (db : Database)
    → IsKeyed db.jobs
    → (process_media_send w id s db).sends
        + (process_media_send v id t (run between (process_media_send w id s db).after)).sends
      ≤ 1
process_media_send_once w v id s t between db keyed =
    let first = process_media_send-IsRun w id s db in
    let last = process_media_send-IsRun v id t (run between (process_media_send w id s db).after) in
    let middle : run (first.ops ++ between) db ≡ run between (process_media_send w id s db).after =
      run-append first.ops between db ∙ ap (run between) first.runs in
    let sum = handed_over-append id (first.ops ++ between) last.ops db in
    let front = handed_over-append id first.ops between db in
    let tail : handed_over id last.ops (run (first.ops ++ between) db)
        ≡ (process_media_send v id t (run between (process_media_send w id s db).after)).sends =
      ap (handed_over id last.ops) middle ∙ last.hands in
    omega (
      arith,
      sum,
      front,
      tail,
      first.hands,
      handed_over_once id ((first.ops ++ between) ++ last.ops) db keyed,
    )
