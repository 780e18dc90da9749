-- ===== src/Store/MediaJobs/Recovery.antt =====
-- internal/store/sqlite/store.go: what the start of the server makes of sends that were under way.
use convomeow.Base.{Bool, true, ◌&&◌, ◌||◌, not, List, [], ◌∷◌, ◌==◌, if◌then◌else◌}
use convomeow.Base.Tables.{any, update_where, delete_where}
use convomeow.Core.{MessageState, is_queued}
use convomeow.Store.Tables.{Message, Job, Phase, Database}
use convomeow.Store.Messages.{by_id}
use convomeow.Store.MediaJobs.{by_message, is_sending, is_uploading}

-- A queued message whose send nobody goes on with: it has no job, or was handed over.
abbrev pub is_lost : List Job → Message → Bool
is_lost jobs m =
    is_queued m.state
    && (not (any (by_message m.id) jobs)
        || any (λ j. j.message_id == m.id && is_sending j.phase) jobs)

abbrev pub is_over : List Message → Job → Bool
is_over messages j =
    is_sending j.phase || any (λ m. m.id == j.message_id && not (is_queued m.state)) messages

-- `recoverSends`
unfoldable pub recover_sends : Database → Database
recover_sends db =
    let messages =
      update_where (is_lost db.jobs) (λ m. record m { state = MessageState.outcome_unknown })
        db.messages in
    record db {
      messages = messages;
      jobs =
          update_where (λ j. is_uploading j.phase) (λ j. record j { phase = Phase.queued })
            (delete_where (is_over messages) db.jobs);
    }

-- The primary key and the foreign key of `outgoing_media_jobs`: a message has one job, and a job its
-- message.
abbrev pub are_valid : List Message → List Job → Bool
are_valid messages [] = true
are_valid messages (j ∷ js) =
    not (any (by_message j.message_id) js)
    && (any (by_id j.message_id) messages && are_valid messages js)

-- The start of the server, on a database that keeps both.
abbrev pub restart : Database → Database
restart db = if are_valid db.messages db.jobs then recover_sends db else db
