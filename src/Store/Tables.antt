-- ===== src/Store/Tables.antt =====
-- The tables of internal/store/sqlite/schema.go that the operations of the store change, as lists
-- of rows, and the database as the record of its tables.
use convomeow.Base.{ℕ, Bool, Option, List}
use convomeow.Base.Text.{Text}
use convomeow.Core.{Direction, MessageState, Kind, MediaType}

-- `conversations`; a `last_message_id` of 0 is NULL.
pub record Conversation : Type 0 where
  pub id : ℕ
  pub account_id : ℕ
  pub provider_chat_id : ℕ
  pub is_group : Bool
  pub display_name : ℕ
  pub description : ℕ
  pub created_at : ℕ
  pub updated_at : ℕ
  pub last_message_id : ℕ

-- `conversation_aliases`
pub record Alias : Type 0 where
  pub account_id : ℕ
  pub jid : ℕ
  pub conversation_id : ℕ

-- `jid_links`
pub record Link : Type 0 where
  pub account_id : ℕ
  pub jid : ℕ
  pub peer_jid : ℕ

-- `messages`
pub record Message : Type 0 where
  pub id : ℕ
  pub account_id : ℕ
  pub conversation_id : ℕ
  pub chat_id : ℕ
  pub provider_message_id : ℕ
  pub direction : Direction
  pub state : MessageState
  pub sender_id : ℕ
  pub kind : Kind
  pub text : Text
  pub content : Text
  pub occurred_at : ℕ
  pub ingested_at : ℕ
  pub provider_order : Option ℕ
  pub local_order : ℕ

-- `message_replies`
pub record Reply : Type 0 where
  pub message_id : ℕ
  pub provider_message_id : ℕ
  pub sender_id : ℕ
  pub kind : Kind
  pub text : Text

-- `availability`
pub data Availability : Type 0 where
  unset remote ready unavailable : Availability

pub data FailureCode : Type 0 where
  unset too_large quota other : FailureCode

-- `attachments`
pub record Attachment : Type 0 where
  pub id : ℕ
  pub message_id : ℕ
  pub part_index : ℕ
  pub kind : Kind
  pub mime_type : MediaType
  pub file_name : ℕ
  pub size : ℕ
  pub availability : Availability
  pub provider_ref : Option ℕ
  pub auto_fetch : Bool
  pub width : ℕ
  pub height : ℕ
  pub duration_seconds : ℕ
  pub next_attempt_at : Option ℕ
  pub attempt_count : ℕ
  pub failure_code : FailureCode
  pub required_bytes : ℕ
  pub storage_profile_id : Option ℕ
  pub object_key : Option ℕ
  pub stored_size : Option ℕ
  pub stored_sha256 : Option Text
  pub media_version : ℕ

-- `send_keys`
pub record SendKey : Type 0 where
  pub actor_id : ℕ
  pub key : ℕ
  pub request_hash : ℕ
  pub message_id : ℕ

pub data UploadState : Type 0 where
  staging ready deleting : UploadState

-- `uploads`
pub record Upload : Type 0 where
  pub id : ℕ
  pub account_id : ℕ
  pub profile_id : ℕ
  pub object_key : ℕ
  pub mime_type : MediaType
  pub file_name : ℕ
  pub size : ℕ
  pub sha256 : Text
  pub state : UploadState
  pub created_at : ℕ
  pub expires_at : ℕ

pub data Phase : Type 0 where
  queued uploading sending : Phase

-- `outgoing_media_jobs`
pub record Job : Type 0 where
  pub message_id : ℕ
  pub phase : Phase
  pub attempts : ℕ
  pub next_attempt_at : Option ℕ

-- `message_read_receipts`
pub record ReadReceipt : Type 0 where
  pub message_id : ℕ
  pub read_at : ℕ

-- `media_orphans`
pub record Orphan : Type 0 where
  pub profile_id : ℕ
  pub object_key : ℕ

pub record Database : Type 0 where
  pub conversations : List Conversation
  pub aliases : List Alias
  pub links : List Link
  pub messages : List Message
  pub replies : List Reply
  pub attachments : List Attachment
  pub send_keys : List SendKey
  pub uploads : List Upload
  pub jobs : List Job
  pub read_receipts : List ReadReceipt
  pub orphans : List Orphan
