-- ===== src/Tests/Jobs.antt =====
-- The jobs that send media.
use convomeow.Base.{◌+◌, ◌≤◌, ◌≡◌, refl, ◌≢◌, true, false, none, some, List, [], ◌∷◌}
use convomeow.Core.{validate_media_type, ok, Kind, MessageState}
use convomeow.Base.Tables.{find_where}
use convomeow.Store.Messages.{
  by_key, Reserved, prepare_message, prepared, insert_message, insert_send_key, row_of, next_order,
  get_message,
}
use convomeow.Store.Attachments.{save_reply}
use convomeow.Store.Conversations.{refresh_conversation}
use convomeow.Store.MediaJobs.{
  reserve_media_send, reserve_media_by_key, reserve_media_rows, insert_attachment, insert_job,
  OutgoingJob, claim_media_send, claim_job,
}
use convomeow.Store.MediaJobs.Phases.{Op, apply, rank}
use convomeow.Store.MediaJobs.Forward.{rank-apply}
use convomeow.Store.MediaJobs.Once.{handed_over, handed_over_once}
use convomeow.Store.MediaJobs.Taken.{reserve_media_send-taken}
use convomeow.Base.{◌⊎◌}
use convomeow.Store.MediaJobs.Held.{IsHeld}
use convomeow.App.MediaSend.{needs_login, World, Opened, process_media_send}
use convomeow.App.MediaSend.Worker.{run, IsRun, process_media_send-IsRun, process_media_send_once}
use convomeow.Core.{err, media_storage}
use convomeow.Store.Tables.{Message, Database}
use convomeow.Store.Messages.{get_message}
use convomeow.Store.MediaJobs.{OutgoingJob, claim_job, claim_media_send}
use convomeow.Store.MediaJobs.Keyed.{IsKeyed}
use convomeow.App.Session.{runtime}
use convomeow.App.MediaSend.Settled.{IsSettled, process_media_send-IsSettled}
use convomeow.Base.{ap}
use convomeow.Tests.Sample.{is_ok, account, ok_of, call, database, outgoing, sent, service, hash}

abbrev history : List Op
history =
    Op.reserve call (outgoing Kind.image 20) 1 2 3 5
    ∷ Op.claim 7 1_000
    ∷ Op.retry 7 2_000 1
    ∷ Op.claim 7 3_000
    ∷ Op.begin 7
    ∷ Op.begin 7
    ∷ Op.complete 7 MessageState.sent sent
    ∷ []

abbrev world : World
world = record {
  closed = false;
  now = 3_000;
  reserve_temp = ok tt;
  stage = ok tt;
  has_store = λ profile. true;
  open_object = λ key. Opened.opened;
  sticker_header = ok tt;
  upload = λ kind size. ok (some (record { size = size; sha256 = hash }));
  connected = true;
  meanwhile = λ s. s;
  send = λ id. (sent, none);
}

handed_over_once_example : handed_over 7 history database ≤ 1
handed_over_once_example = handed_over_once 7 history database tt

rank-apply_example :
    rank 7 database ≤ rank 7 (apply (Op.reserve call (outgoing Kind.image 20) 1 2 3 5) database)
rank-apply_example = rank-apply 7 (Op.reserve call (outgoing Kind.image 20) 1 2 3 5) database

process_media_send-IsRun_example :
    IsRun 7 database
      (process_media_send world 7 service database).after
      (process_media_send world 7 service database).sends
process_media_send-IsRun_example = process_media_send-IsRun world 7 service database

process_media_send_once_example :
    (process_media_send world 7 service database).sends
      + (process_media_send world 7 service
          (run history (process_media_send world 7 service database).after)).sends
    ≤ 1
process_media_send_once_example =
    process_media_send_once world world 7 service service history database tt

taken_ok : is_ok (reserve_media_send call (outgoing Kind.image 20) 1 2 3 5 database) ≡ true
unfolding reserve_media_send reserve_media_by_key reserve_media_rows insert_attachment insert_job
    prepare_message prepared insert_message insert_send_key row_of next_order save_reply
    refresh_conversation validate_media_type
taken_ok = refl

abbrev taken :
    (r : Reserved) × (reserve_media_send call (outgoing Kind.image 20) 1 2 3 5 database ≡ ok r)
taken = ok_of (reserve_media_send call (outgoing Kind.image 20) 1 2 3 5 database) taken_ok

taken_created : taken.0.created ≡ true
unfolding reserve_media_send reserve_media_by_key reserve_media_rows insert_attachment insert_job
    prepare_message prepared insert_message insert_send_key row_of next_order save_reply
    refresh_conversation validate_media_type
taken_created = refl

other_key_free : find_where (by_key 1 9) taken.0.after.send_keys ≡ none
unfolding reserve_media_send reserve_media_by_key reserve_media_rows insert_attachment insert_job
    prepare_message prepared insert_message insert_send_key row_of next_order save_reply
    refresh_conversation validate_media_type
other_key_free = refl

reserve_media_send-taken_example :
    reserve_media_send call (outgoing Kind.image 21) 1 9 3 5 taken.0.after ≢ ok taken.0
reserve_media_send-taken_example =
    reserve_media_send-taken call call (outgoing Kind.image 20) (outgoing Kind.image 21) 1 2 3 5 1 9
      3 database taken.0 taken.1 taken_created other_key_free taken.0

claim_ok : is_ok (claim_media_send 7 3_000 taken.0.after) ≡ true
unfolding claim_media_send claim_job reserve_media_send reserve_media_by_key reserve_media_rows
    insert_attachment insert_job prepare_message prepared insert_message insert_send_key row_of
    next_order save_reply refresh_conversation validate_media_type
claim_ok = refl

abbrev claimed : (r : OutgoingJob × Database) × (claim_media_send 7 3_000 taken.0.after ≡ ok r)
claimed = ok_of (claim_media_send 7 3_000 taken.0.after) claim_ok

reserved_ok : is_ok (get_message 7 taken.0.after) ≡ true
unfolding get_message reserve_media_send reserve_media_by_key reserve_media_rows insert_attachment
    insert_job prepare_message prepared insert_message insert_send_key row_of next_order save_reply
    refresh_conversation validate_media_type
reserved_ok = refl

abbrev reserved : (m : Message) × (get_message 7 taken.0.after ≡ ok m)
reserved = ok_of (get_message 7 taken.0.after) reserved_ok

reserved-IsKeyed : IsKeyed taken.0.after.jobs
unfolding reserve_media_send reserve_media_by_key reserve_media_rows insert_attachment insert_job
    prepare_message prepared insert_message insert_send_key row_of next_order save_reply
    refresh_conversation validate_media_type
reserved-IsKeyed = (refl, tt)

reserved_account : reserved.0.account_id ≡ 1
unfolding get_message reserve_media_send reserve_media_by_key reserve_media_rows insert_attachment
    insert_job prepare_message prepared insert_message insert_send_key row_of next_order save_reply
    refresh_conversation validate_media_type
reserved_account = refl

abbrev failing : World
failing = record world { upload = λ kind size. err media_storage }

process_media_send-IsSettled_example :
    IsSettled 7 3_000 claimed.0.0.attempts
      (process_media_send failing 7 service taken.0.after).after
    ⊎ IsHeld 7 (process_media_send failing 7 service taken.0.after).after
      × ((false ≡ true) ⊎ (needs_login account.state ≡ true))
process_media_send-IsSettled_example =
    process_media_send-IsSettled failing 7 service taken.0.after claimed.0.1 reserved.0 account
      account claimed.0.0 reserved-IsKeyed reserved.1 (ap (λ i. runtime i service) reserved_account)
      refl refl (ap (λ i. runtime i service) reserved_account) claimed.1
