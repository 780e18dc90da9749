-- ===== src/App/MediaSend/Settled.antt =====
-- What a pass of the worker leaves of the job that it has claimed.
use convomeow.Base.{
  ℕ, suc, ◌+◌, ◌<◌, ◌≡◌, refl, sym, ap, ◌∙◌, ◌⊎◌, inl, inr, Bool, true, false, Option, none, some,
  arith, leb, if◌then◌else◌,
}
use convomeow.Base.{subst}
use convomeow.Base.Tables.{find_where}
use convomeow.Core.{ok, Error, MessageState, is_queued, is_result}
use convomeow.Store.Tables.{Message, Job, Phase, Database}
use convomeow.Store.Messages.{by_id, get_message, SentMessage}
use convomeow.Store.MediaJobs.{
  by_message, OutgoingJob, claim_media_send, retry_media_send, complete_media_send,
}
use convomeow.Store.MediaJobs.Keyed.{IsKeyed}
use convomeow.Store.MediaJobs.Claim.{id-claim_media_send}
use convomeow.Store.MediaJobs.Held.{
  IsHeld, claim_media_send-IsHeld, retry_media_send-held, begin_media_send-held,
  complete_media_send-ends,
}
use convomeow.Store.MediaJobs.Phases.{kept}
use convomeow.App.Session.{State, Service, Runtime, runtime}
use convomeow.App.Session.Logins.{is_connected}
use convomeow.App.MediaSend.{
  counts, needs_login, World, Attempt, attempt_upload, nothing_sent, fail_media_send,
  retry_logged_in, retry_job, media_result, settle, process_media_send, delay, is_final, is_none,
  retry_runtime,
}

-- The message has no job any more, and is not queued.
abbrev pub IsEnded : ℕ → Database → Type 0
IsEnded id db =
    (m : Message) × (find_where (by_message id) db.jobs ≡ none)
    × (find_where (by_id id) db.messages ≡ some m)
    × (is_queued m.state ≡ false)

-- The job is queued again. After a failure that counts it has one attempt more than `n` and waits;
-- else the account went offline, and it waits for that alone.
abbrev pub IsRequeued : ℕ → ℕ → ℕ → Database → Type 0
IsRequeued id now n db =
    (j : Job) × (find_where (by_message id) db.jobs ≡ some j)
    × (j.phase ≡ Phase.queued)
    × (j.attempts < 5)
    × ((j.attempts ≡ n) × (j.next_attempt_at ≡ some now)
        ⊎ (j.attempts ≡ suc n) × (j.next_attempt_at ≡ some (now + delay (suc n))))

abbrev pub IsSettled : ℕ → ℕ → ℕ → Database → Type 0
IsSettled id now n db = IsEnded id db ⊎ IsRequeued id now n db

either :
    {A : Type 0} (P : A → Type 0) (b : Bool) (x y : A)
    → (b ≡ true → P x)
    → (b ≡ false → P y)
    → P (if b then x else y)
either P true x y h k = h refl
either P false x y h k = k refl

complete-IsEnded :
    (id : ℕ) (state : MessageState) (sent : SentMessage) (db : Database) (m : Message)
    → is_result state ≡ true
    → find_where (by_id id) db.messages ≡ some m
    → IsEnded id (kept db (complete_media_send id state sent db))
complete-IsEnded id state sent db m r f =
    let (after, n, e, gone, there, quiet) = complete_media_send-ends id state sent db m r f in
    rw e (n, gone, there, quiet)

fail-IsEnded :
    (job : OutgoingJob) (db : Database) (m : Message)
    → find_where (by_id job.message.id) db.messages ≡ some m
    → IsEnded job.message.id (fail_media_send job db)
unfolding fail_media_send
fail-IsEnded job db m f =
    complete-IsEnded job.message.id MessageState.failed nothing_sent db m refl f

requeued :
    (id next attempts now n : ℕ) (db : Database)
    → IsHeld id db
    → attempts < 5
    → ((attempts ≡ n) × (next ≡ now) ⊎ (attempts ≡ suc n) × (next ≡ now + delay (suc n)))
    → IsRequeued id now n (kept db (retry_media_send id next attempts db))
requeued id next attempts now n db h l c =
    let (after, e, found) = retry_media_send-held id next attempts db h in
    rw e (
      record h.job { phase = Phase.queued; next_attempt_at = some next; attempts = attempts },
      found,
      refl,
      l,
      elim c [ inl (a, b) ↦ inl (a, ap some b) | inr (a, b) ↦ inr (a, ap some b) ],
    )

waits :
    (b : Bool) (n now : ℕ)
    → let attempts = if b then suc n else n in
      (attempts ≡ n) × (now + (if b then delay attempts else 0) ≡ now)
      ⊎ (attempts ≡ suc n) × (now + (if b then delay attempts else 0) ≡ now + delay (suc n))
waits true n now = inr (refl, refl)
waits false n now = inl (refl, omega arith)

retry_logged_in-IsSettled :
    (w : World) (job : OutgoingJob) (e : Error) (state : State) (db : Database) (m : Message)
    → IsHeld job.message.id db
    → find_where (by_id job.message.id) db.messages ≡ some m
    → IsSettled job.message.id w.now job.attempts (retry_logged_in w job e state db)
unfolding retry_logged_in
retry_logged_in-IsSettled w job e state db m h f =
    let id = job.message.id in
    let attempts = if counts state e then suc job.attempts else job.attempts in
    let next = w.now + (if counts state e then delay attempts else 0) in
    let again = kept db (retry_media_send id next attempts db) in
    let P = IsSettled id w.now job.attempts in
    let failed : P (fail_media_send job db) = inl (fail-IsEnded job db m f) in
    either P (is_final e) (fail_media_send job db)
      (if leb 5 attempts then fail_media_send job db else again) (λ t. failed)
      (λ t.
        either P (leb 5 attempts) (fail_media_send job db) again (λ t. failed)
          (λ t. inr (
            requeued id next attempts w.now job.attempts db h (ground arith)
              (waits (counts state e) job.attempts w.now))))

-- The job is settled, or stays claimed while the server shuts down or the account needs a login.
abbrev IsLeft : ℕ → World → ℕ → Runtime → Database → Type 0
IsLeft id w n rt db =
    IsSettled id w.now n db ⊎ IsHeld id db × ((w.closed ≡ true) ⊎ (needs_login rt.state ≡ true))

retry_job-IsLeft :
    (w : World) (job : OutgoingJob) (e : Error) (s : Service) (rt : Runtime) (db : Database)
    (m : Message)
    → runtime job.message.account_id (w.meanwhile s) ≡ ok rt
    → IsHeld job.message.id db
    → find_where (by_id job.message.id) db.messages ≡ some m
    → IsLeft job.message.id w job.attempts rt (retry_job w job e s db)
unfolding retry_job
retry_job-IsLeft w job e s rt db m known h f =
    let id = job.message.id in
    let P = IsLeft id w job.attempts rt in
    either P w.closed db (retry_runtime w job e (runtime job.message.account_id (w.meanwhile s)) db)
      (λ c. inr (h, inl c))
      (λ c. rw known (
        either P (needs_login rt.state) db (retry_logged_in w job e rt.state db)
          (λ l. inr (h, inr l)) (λ l. inl (retry_logged_in-IsSettled w job e rt.state db m h f))))

media_result-final :
    (expected : ℕ) (said : SentMessage × Option Error)
    → is_result (media_result expected said) ≡ true
unfolding media_result
media_result-final expected (sent, none) = ground arith
media_result-final expected (sent, some e) = ground arith

settle-IsLeft :
    (w : World) (job : OutgoingJob) (s : Service) (rt : Runtime) (db : Database) (m : Message)
    (a : Attempt)
    → runtime job.message.account_id (w.meanwhile s) ≡ ok rt
    → IsHeld job.message.id db
    → find_where (by_id job.message.id) db.messages ≡ some m
    → IsLeft job.message.id w job.attempts rt (settle w job s db a).after
settle-IsLeft w job s rt db m (Attempt.retry e) known h f =
    retry_job-IsLeft w job e s rt db m known h f
settle-IsLeft w job s rt db m (Attempt.fail e) known h f = inl (inl (fail-IsEnded job db m f))
settle-IsLeft w job s rt db m Attempt.ready known h f =
    let id = job.message.id in
    let (begun, e, messages) = begin_media_send-held id db h in
    let said = w.send id in
    let state = media_result job.message.provider_message_id said in
    rw e (
      inl (
        inl (
          complete-IsEnded id state said.0 begun m
            (media_result-final job.message.provider_message_id said)
            (ap (find_where (by_id id)) messages ∙ f))))

-- A pass of the worker that claims the job of a message of a connected account settles it, whatever
-- the file system, the object store and the provider answer: the job is gone and the message is not
-- queued any more, or the job is queued again with at most 4 attempts. In the second case it has
-- one attempt more, and is due again after the delay of that attempt, or the same number and is due
-- at once. Only where the server shuts down or the account has come to need a login by then may the
-- job stay claimed. Messages have one job each, and the account is still there.
pub process_media_send-IsSettled :
    (w : World) (id : ℕ) (s : Service) (db claimed : Database) (m : Message) (rt later : Runtime)
    (job : OutgoingJob)
    → IsKeyed db.jobs
    → get_message id db ≡ ok m
    → runtime m.account_id s ≡ ok rt
    → is_connected rt.state ≡ true
    → is_none rt.session ≡ false
    → runtime m.account_id (w.meanwhile s) ≡ ok later
    → claim_media_send id w.now db ≡ ok (job, claimed)
    → IsSettled id w.now job.attempts (process_media_send w id s db).after
      ⊎ IsHeld id (process_media_send w id s db).after
        × ((w.closed ≡ true) ⊎ (needs_login later.state ≡ true))
unfolding process_media_send get_message
process_media_send-IsSettled w id s db claimed m rt later job keyed found known connected on still
      e =
    let (h, attempts, there, messages) = claim_media_send-IsHeld id w.now db claimed job e keyed in
    let here : find_where (by_id id) db.messages ≡ some m = ground arith in
    let same : job.message ≡ m = cc (there, here, ap (find_where (by_id id)) messages) in
    let own = id-claim_media_send id w.now db claimed job e in
    let account : runtime job.message.account_id (w.meanwhile s) ≡ ok later =
      ap (λ (x : Message). runtime x.account_id (w.meanwhile s)) same ∙ still in
    let settled =
      settle-IsLeft w job s later claimed job.message (attempt_upload w job) account
        (subst (λ i. IsHeld i claimed) (sym own) h)
        (ap (λ i. find_where (by_id i) claimed.messages) own ∙ there) in
    rw (here, known, connected, on, e)
      (subst
        (λ i. IsLeft i w job.attempts later (settle w job s claimed (attempt_upload w job)).after)
        own settled)
