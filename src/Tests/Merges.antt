-- ===== src/Tests/Merges.antt =====
-- Two chats of which the account learns that they are one.
use convomeow.Base.{
  ℕ, ◌+◌, ◌≡◌, refl, ◌≢◌, true, false, Option, none, some, List, [], ◌∷◌, arith, ◌==◌,
  if◌then◌else◌,
}
use convomeow.Base.Tables.{find_where}
use convomeow.Core.{Result, ok, Direction, MessageState, Kind}
use convomeow.Store.Tables.{Message, Conversation, Database}
use convomeow.Store.Messages.{by_id}
use convomeow.Store.Links.{contains, linked_jids}
use convomeow.Store.Links.Closure.{IsClosed}
use convomeow.Store.Merge.{merge_conversation}
use convomeow.Store.Merge.Carried.{KeysFollow}
use convomeow.Store.Merge.Lossless.{merge_conversation-lossless}
use convomeow.Store.Chats.{Draw, Ensured, has_id, ensure_conversation, find_conversation_id}
use convomeow.Store.Chats.Joined.{ensure_conversation-joins}
use convomeow.Store.Chats.Total.{ensure_conversation-total}
use convomeow.Tests.Sample.{database, conversation}

abbrev pub stored : ℕ → ℕ → ℕ → Message
stored id thread provider = record {
  id = id;
  account_id = 1;
  conversation_id = thread;
  chat_id = 10;
  provider_message_id = provider;
  direction = Direction.outbound;
  state = MessageState.queued;
  sender_id = 4;
  kind = Kind.text;
  text = 104 ∷ [];
  content = [];
  occurred_at = id;
  ingested_at = id;
  provider_order = none;
  local_order = id;
}

abbrev second_conversation : Conversation
second_conversation = record conversation { id = 2; provider_chat_id = 20; created_at = 2 }

-- The second conversation has the reserved twin of a message of the first one, and one more.
abbrev apart : Database
apart = record database {
  conversations = conversation ∷ second_conversation ∷ [];
  aliases =
      record { account_id = 1; jid = 10; conversation_id = 1 }
      ∷ record { account_id = 1; jid = 20; conversation_id = 2 }
      ∷ [];
  links =
      record { account_id = 1; jid = 10; peer_jid = 20 }
      ∷ record { account_id = 1; jid = 20; peer_jid = 10 }
      ∷ [];
  messages = stored 11 1 100 ∷ stored 12 2 100 ∷ stored 13 2 101 ∷ [];
  send_keys = record { actor_id = 9; key = 8; request_hash = 7; message_id = 12 } ∷ [];
}

abbrev pub draw : Draw
draw = record { conversation = 5; attachment = λ id. id + 1_000 }

abbrev pub ok_value : {V : Type 0} → V → Option (Result V) → V
ok_value other (some (ok v)) = v
ok_value other _ = other

abbrev joined : Database
joined = ok_value apart (merge_conversation draw.attachment 1 2 apart)

merged_messages : joined.messages ≡ stored 12 1 100 ∷ stored 13 1 101 ∷ []
unfolding merge_conversation
merged_messages = refl

merged : merge_conversation draw.attachment 1 2 apart ≡ some (ok joined)
unfolding merge_conversation
merged = refl

merge_conversation-lossless_example :
    ((i : ℕ) (x : Message)
      → find_where (by_id i) apart.messages ≡ some x
      → (j : ℕ) × (y : Message) × (find_where (by_id j) joined.messages ≡ some y)
        × (y.provider_message_id ≡ x.provider_message_id)
        × (y.conversation_id ≡ (if x.conversation_id == 2 then 1 else x.conversation_id))
        × KeysFollow i j apart.send_keys joined.send_keys)
    × ((i : ℕ) (y : Message)
        → find_where (by_id i) joined.messages ≡ some y
        → y.conversation_id ≢ 2)
merge_conversation-lossless_example =
    merge_conversation-lossless draw.attachment 1 2 apart joined (λ e. omega arith)
      (refl, (refl, (refl, tt))) merged

abbrev nothing_ensured : Ensured
nothing_ensured = record { conversation = conversation; created = false; after = apart }

abbrev ensured : Ensured
ensured = ok_value nothing_ensured (ensure_conversation draw 1 20 [] 50 apart)

ensures : ensure_conversation draw 1 20 [] 50 apart ≡ some (ok ensured)
unfolding ensure_conversation
ensures = refl

ensure_conversation-joins_example :
    (jids : List ℕ) × (linked_jids 1 (20 ∷ []) apart.links ≡ some jids)
    × ((i : ℕ) → contains (20 ∷ []) i ≡ true → i ≢ 0 → contains jids i ≡ true)
    × IsClosed 1 apart.links (contains jids)
    × ((i : ℕ)
        → contains jids i ≡ true
        → find_conversation_id 1 i ensured.after ≡ ok ensured.conversation.id)
    × (find_where (has_id ensured.conversation.id) ensured.after.conversations
        ≡ some ensured.conversation)
ensure_conversation-joins_example = ensure_conversation-joins draw 1 20 50 [] apart ensured ensures

ensure_conversation-total_example : ensure_conversation draw 1 20 [] 50 apart ≢ none
ensure_conversation-total_example =
    ensure_conversation-total draw 1 20 50 [] apart (refl, (refl, (refl, tt)))
