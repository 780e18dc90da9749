-- ===== src/Tests/Sample.antt =====
-- The data of the tests: one account with one conversation, and what is sent there.
use convomeow.Base.{ℕ, ◌≡◌, refl, Bool, true, false, none, some, [], ◌∷◌}
use convomeow.Base.Text.{Text}
use convomeow.Core.{Result, ok, err, Direction, MessageState, Kind, MediaType}
use convomeow.Store.Tables.{Conversation, Upload, UploadState, Database}
use convomeow.Store.Messages.{NewMessage, Call, SentMessage}
use convomeow.App.Session.{Runtime, Service, State, LoginState}

abbrev pub is_ok {ℓ} : {A : Type ℓ} → Result A → Bool
is_ok (ok a) = true
is_ok (err e) = false

-- The value of a success.
abbrev pub ok_of {ℓ} : {A : Type ℓ} (r : Result A) → is_ok r ≡ true → (a : A) × (r ≡ ok a)
ok_of (ok a) h = (a, refl)
ok_of (err e) h = cc

abbrev pub call : Call
call = record { json_valid = λ s. true; fresh = 7; now = 1_000 }

abbrev pub conversation : Conversation
conversation = record {
  id = 1;
  account_id = 1;
  provider_chat_id = 10;
  is_group = false;
  display_name = 0;
  description = 0;
  created_at = 1;
  updated_at = 1;
  last_message_id = 0;
}

abbrev pub hash : Text
hash =
    1 ∷ 1 ∷ 1 ∷ 1 ∷ 1 ∷ 1 ∷ 1 ∷ 1 ∷ 1 ∷ 1 ∷ 1 ∷ 1 ∷ 1 ∷ 1 ∷ 1 ∷ 1 ∷ 1 ∷ 1 ∷ 1 ∷ 1 ∷ 1 ∷ 1 ∷ 1 ∷ 1
    ∷ 1 ∷ 1 ∷ 1 ∷ 1 ∷ 1 ∷ 1 ∷ 1 ∷ 1 ∷ []

abbrev pub upload : Upload
upload = record {
  id = 5;
  account_id = 1;
  profile_id = 1;
  object_key = 50;
  mime_type = MediaType.png;
  file_name = 3;
  size = 100;
  sha256 = hash;
  state = UploadState.ready;
  created_at = 10;
  expires_at = 5_000;
}

abbrev pub database : Database
database = record {
  conversations = conversation ∷ [];
  aliases = [];
  links = [];
  messages = [];
  replies = [];
  attachments = [];
  send_keys = [];
  uploads = upload ∷ [];
  jobs = [];
  read_receipts = [];
  orphans = [];
}

-- A message as a client sends it.
abbrev pub outgoing : Kind → ℕ → NewMessage
outgoing kind provider = record {
  id = 0;
  account_id = 1;
  conversation_id = 1;
  chat_id = 10;
  provider_message_id = provider;
  direction = Direction.outbound;
  state = MessageState.queued;
  sender_id = 4;
  kind = kind;
  text = 104 ∷ 105 ∷ [];
  content = [];
  occurred_at = 1_000;
  ingested_at = 1_000;
  provider_order = none;
  reply = none;
  attachments = [];
}

abbrev pub sent : SentMessage
sent = record { provider_message_id = 20; sender_id = 4; timestamp = 1_001 }

abbrev pub account : Runtime
account = record {
  id = 1;
  generation = 2;
  identity = 9;
  state = State.connected;
  last_error = none;
  login_state = LoginState.connected;
  login_id = 3;
  challenge = none;
  session = some 6;
}

abbrev pub service : Service
service = record { accounts = account ∷ []; active_login = 0; closing = false }
