-- ===== src/Tests/Edits.antt =====
-- A message that is edited twice and deleted, with the changes out of order.
use convomeow.Base.{ℕ, ◌≡◌, refl, Option, none, some, List, [], ◌∷◌}
use convomeow.Base.Text.{Text}
use convomeow.Core.{Direction, MessageState, Kind}
use convomeow.Store.Tables.{Message, Alias}
use convomeow.Store.Changes.{
  Change, ChangeKind, original, with_edit, with_revoke, save_all, attach_changes, is_change_of,
}
use convomeow.Store.Changes.Newest.{IsNewest, attach_changes-IsNewest}

abbrev message : Message
message = record {
  id = 1;
  account_id = 1;
  conversation_id = 1;
  chat_id = 10;
  provider_message_id = 20;
  direction = Direction.inbound;
  state = MessageState.received;
  sender_id = 4;
  kind = Kind.text;
  text = 104 ∷ 105 ∷ [];
  content = [];
  occurred_at = 1_000;
  ingested_at = 1_000;
  provider_order = none;
  local_order = 1;
}

abbrev aliases : List Alias
aliases = record { account_id = 1; jid = 10; conversation_id = 1 } ∷ []

abbrev edit_at : ℕ → Text → Change
edit_at at text = record {
  account_id = 1;
  chat_id = 10;
  target_id = 20;
  kind = ChangeKind.edit;
  text = text;
  at_ms = at;
  event_id = 65 ∷ [];
}

abbrev deletion : Change
deletion = record (edit_at 3 []) { kind = ChangeKind.revoke }

abbrev changes : List Change
changes = edit_at 7 (98 ∷ []) ∷ deletion ∷ edit_at 5 (97 ∷ []) ∷ []

newest_shown :
    attach_changes aliases (save_all changes []) message
    ≡ record { text = 98 ∷ []; content = []; edited_at = some 7; deleted_at = some 3 }
unfolding attach_changes save_all
newest_shown = refl

attach_changes-IsNewest_example :
    (e : Option Change) × (r : Option Change) × IsNewest
      (is_change_of aliases message ChangeKind.edit)
      changes
      e
    × IsNewest (is_change_of aliases message ChangeKind.revoke) changes r
    × (attach_changes aliases (save_all changes []) message
        ≡ with_revoke r (with_edit e (original message)))
attach_changes-IsNewest_example =
    attach_changes-IsNewest aliases message changes (refl, (refl, (refl, tt)))
