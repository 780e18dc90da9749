-- ===== src/App/MediaSend.antt =====
-- internal/app/media_send.go: the worker that uploads the media of a message and sends it.
pub mod Worker
pub mod Settled
use convomeow.Base.{
  ℕ, suc, ◌+◌, ◌*◌, ◌^◌, Bool, true, false, ◌&&◌, ◌||◌, not, Option, none, some, leb, ◌==◌,
  if◌then◌else◌, is_none,
}
use Prim.Native.Nat.{min}
use convomeow.Base.Text.{Text, text_eq}
use convomeow.Core.{
  Result, ok, err, Error, media_storage, not_connected, ◌>>=◌, MessageState, Kind, second,
}
use convomeow.Store.Tables.{Database}
use convomeow.Store.Messages.{SentMessage, get_message}
use convomeow.Store.MediaJobs.{
  OutgoingJob, claim_media_send, retry_media_send, begin_media_send, complete_media_send,
}
use convomeow.Store.MediaJobs.Phases.{kept}
use convomeow.App.Session.{Service, Runtime, State, runtime}
use convomeow.App.Session.Logins.{is_connected}
use convomeow.App.Send.{is_invalid}

-- What `store.Open` answers: an object, that there is none, or another error.
pub data Opened : Type 0 where
  opened missing : Opened
  unopened : Error → Opened

-- `core.UploadedMedia`
pub record Uploaded : Type 0 where
  pub size : ℕ
  pub sha256 : Text

-- What the worker gets from the file system, the object store and the provider. `connected` says
-- whether the session is still the one that uploaded. While the file is on its way the accounts go
-- on: `meanwhile` is what becomes of them until a failure is dealt with. The database is that of the
-- claim throughout: no operation of another worker comes in between.
pub record World : Type 0 where
  pub closed : Bool
  pub now : ℕ
  pub reserve_temp : Result (Unit {0})
  pub stage : Result (Unit {0})
  pub has_store : ℕ → Bool
  pub open_object : ℕ → Opened
  pub sticker_header : Result (Unit {0})
  pub upload : Kind → ℕ → Result (Option Uploaded)
  pub connected : Bool
  pub meanwhile : Service → Service
  pub send : ℕ → SentMessage × Option Error

-- How an attempt to upload ends.
pub data Attempt : Type 0 where
  retry fail : Error → Attempt
  ready : Attempt

abbrev is_sticker : Kind → Bool
is_sticker Kind.sticker = true
is_sticker _ = false

abbrev check_uploaded : World → OutgoingJob → Result (Option Uploaded) → Attempt
check_uploaded w job (err e) = Attempt.retry e
check_uploaded w job (ok none) = Attempt.fail (Error.other 0)
check_uploaded w job (ok (some u)) =
    if not (u.size == job.size) || not (text_eq u.sha256 job.sha256)
    then Attempt.fail (Error.other 0)
    else if w.connected
    then Attempt.ready
    else Attempt.retry not_connected

abbrev upload_opened : World → OutgoingJob → Result (Unit {0}) → Attempt
upload_opened w job (ok u) = check_uploaded w job (w.upload job.message.kind job.size)
upload_opened w job (err e) = Attempt.fail e

abbrev read_opened : World → OutgoingJob → Opened → Attempt
read_opened w job Opened.opened =
    upload_opened w job (if is_sticker job.message.kind then w.sticker_header else ok tt)
read_opened w job Opened.missing = Attempt.fail Error.not_found
read_opened w job (Opened.unopened e) = Attempt.retry e

abbrev staged : World → OutgoingJob → Result (Unit {0}) → Attempt
staged w job (ok u) =
    if w.has_store job.profile_id
    then read_opened w job (w.open_object job.object_key)
    else Attempt.retry media_storage
staged w job (err e) = Attempt.retry e

-- `processMediaSend` between the claim and `BeginMediaSend`.
pub attempt_upload : World → OutgoingJob → Attempt
attempt_upload w job = staged w job (w.reserve_temp >>= λ u. w.stage)

-- `core.SentMessage{}`
abbrev pub nothing_sent : SentMessage
nothing_sent = record { provider_message_id = 0; sender_id = 0; timestamp = 0 }

-- `failMediaSend`
pub fail_media_send : OutgoingJob → Database → Database
fail_media_send job db =
    kept db (complete_media_send job.message.id MessageState.failed nothing_sent db)

abbrev is_final : Error → Bool
is_final Error.invalid = true
is_final Error.media_too_large = true
is_final _ = false

abbrev is_offline : Error → Bool
is_offline Error.not_connected = true
is_offline _ = false

abbrev pub needs_login : State → Bool
needs_login State.needs_login = true
needs_login _ = false

-- `time.Duration(1<<min(attempts, 5)) * 15 * time.Second`
abbrev pub delay : ℕ → ℕ
delay attempts = 2 ^ (min attempts 5) * 15 * second

-- Whether a failure counts as an attempt: not one that only says that the account is offline.
abbrev counts : State → Error → Bool
counts state e = is_connected state && not (is_offline e)

-- `retryMediaSend` on an account that is logged in.
pub retry_logged_in : World → OutgoingJob → Error → State → Database → Database
unfolding fail_media_send
retry_logged_in w job e state db =
    let attempts = if counts state e then suc job.attempts else job.attempts in
    let wait = if counts state e then delay attempts else 0 in
    if is_final e
    then fail_media_send job db
    else if leb 5 attempts
    then fail_media_send job db
    else kept db (retry_media_send job.message.id (w.now + wait) attempts db)

abbrev pub retry_runtime : World → OutgoingJob → Error → Result Runtime → Database → Database
retry_runtime w job e (ok rt) db =
    if needs_login rt.state then db else retry_logged_in w job e rt.state db
retry_runtime w job e (err failure) db = db

-- `retryMediaSend`, which reads the account anew
pub retry_job : World → OutgoingJob → Error → Service → Database → Database
unfolding retry_logged_in
retry_job w job e s db =
    if w.closed
    then db
    else retry_runtime w job e (runtime job.message.account_id (w.meanwhile s)) db

-- The state that the provider's answer stands for.
pub media_result : ℕ → SentMessage × Option Error → MessageState
media_result expected (sent, none) =
    if sent.provider_message_id == expected then MessageState.sent else MessageState.outcome_unknown
media_result expected (sent, some e) =
    if is_invalid e then MessageState.failed else MessageState.outcome_unknown

-- What the worker leaves: the database, and how often it asked the provider to send.
pub record Outcome : Type 0 where
  pub after : Database
  pub sends : ℕ

abbrev pub unsent : Database → Outcome
unsent db = record { after = db; sends = 0 }

abbrev pub hand_over : World → OutgoingJob → Service → Database → Result Database → Outcome
hand_over w job s claimed (ok begun) =
    let said = w.send job.message.id in
    record {
      after = kept begun (
          complete_media_send job.message.id (media_result job.message.provider_message_id said)
            said.0 begun);
      sends = 1;
    }
hand_over w job s claimed (err e) = unsent (retry_job w job e s claimed)

abbrev pub settle : World → OutgoingJob → Service → Database → Attempt → Outcome
settle w job s claimed (Attempt.retry e) = unsent (retry_job w job e s claimed)
settle w job s claimed (Attempt.fail e) = unsent (fail_media_send job claimed)
settle w job s claimed Attempt.ready =
    hand_over w job s claimed (begin_media_send job.message.id claimed)

abbrev pub work : World → Service → Database → Result (OutgoingJob × Database) → Outcome
work w s db (ok (job, claimed)) = settle w job s claimed (attempt_upload w job)
work w s db (err e) = unsent db

abbrev pub work_connected : World → ℕ → Service → Database → Result Runtime → Outcome
work_connected w id s db (ok rt) =
    if is_connected rt.state && not (is_none rt.session)
    then work w s db (claim_media_send id w.now db)
    else unsent db
work_connected w id s db (err e) = unsent db

-- `processMediaSend`
pub process_media_send : World → ℕ → Service → Database → Outcome
unfolding retry_job attempt_upload media_result
process_media_send w id s db =
    work_connected w id s db (get_message id db >>= λ m. runtime m.account_id s)
