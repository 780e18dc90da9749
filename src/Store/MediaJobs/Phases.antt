-- ===== src/Store/MediaJobs/Phases.antt =====
-- The operations on the jobs that send media, and how far the sending of a message has come.
use convomeow.Base.{ℕ, Bool, true, false, Option, none, some}
use convomeow.Base.Tables.{find_where, any}
use convomeow.Core.{Result, ok, err, MessageState}
use convomeow.Store.Tables.{Job, Phase, Database}
use convomeow.Store.Chats.{Run}
use convomeow.Store.Incoming.{Saved, save_echo, is_echo}
use convomeow.Store.MediaJobs.Recovery.{restart}
use convomeow.Store.Messages.{NewMessage, Call, Reserved, SentMessage, by_id}
use convomeow.Store.MediaJobs.{
  by_message, reserve_media_send, claim_media_send, retry_media_send, begin_media_send,
  complete_media_send, fail_media_sends, Message,
}

abbrev pub rank_of : Option Job → Bool → ℕ
rank_of none false = 0
rank_of none true = 3
rank_of (some j) known = elim j.phase [ Phase.queued ↦ 1 | Phase.uploading ↦ 1 | Phase.sending ↦ 2 ]

-- How far the sending of a message has come: 0 before it is reserved, 1 while it is queued or
-- uploaded, 2 while it is handed to the provider, 3 when there is no job any more.
unfoldable pub rank : ℕ → Database → ℕ
rank id db = rank_of (find_where (by_message id) db.jobs) (any (by_id id) db.messages)

-- The operations on jobs: those of outgoing_media.go, the start of the server, and the report of a
-- message that was sent from here, which ends its job. A failure leaves the database as it was.
pub data Op : Type 0 where
  reserve : Call → NewMessage → ℕ → ℕ → ℕ → ℕ → Op
  claim : ℕ → ℕ → Op
  retry : ℕ → ℕ → ℕ → Op
  begin : ℕ → Op
  complete : ℕ → MessageState → SentMessage → Op
  fail_account : ℕ → Op
  recover : Op
  echo : NewMessage → Op

abbrev pub kept : Database → Result Database → Database
kept db (ok after) = after
kept db (err e) = db

abbrev pub kept_reserved : Database → Result Reserved → Database
kept_reserved db (ok r) = r.after
kept_reserved db (err e) = db

abbrev pub kept_claim : {A : Type 0} → Database → Result (A × Database) → Database
kept_claim db (ok (job, after)) = after
kept_claim db (err e) = db

abbrev pub kept_saved : Database → Run Saved → Database
kept_saved db (some (ok s)) = s.after
kept_saved db (some (err e)) = db
kept_saved db none = db

-- `saveMessageTx`, for a message that is found as sent from here.
abbrev pub apply_echo : NewMessage → Database → Option Message → Database
apply_echo m db none = db
apply_echo m db (some old) = kept_saved db (save_echo m old db)

unfoldable pub apply : Op → Database → Database
apply (reserve c m actor key hash upload) db =
    kept_reserved db (reserve_media_send c m actor key hash upload db)
apply (claim id now) db = kept_claim db (claim_media_send id now db)
apply (retry id next attempts) db = kept db (retry_media_send id next attempts db)
apply (begin id) db = kept db (begin_media_send id db)
apply (complete id state sent) db = kept db (complete_media_send id state sent db)
apply (fail_account account) db = fail_media_sends account db
apply recover db = restart db
apply (echo m) db =
    apply_echo m db (find_where (is_echo m.account_id m.provider_message_id) db.messages)
