-- ===== src/Store/Changes.antt =====
-- internal/store/sqlite/message_changes.go: edits and deletions of messages, and what they make of a
-- message that is shown.
pub mod Newest
use convomeow.Base.{
  ℕ, ◌+◌, Bool, true, false, ◌&&◌, ◌||◌, not, Option, none, some, List, [], ◌∷◌, ◌++◌, map, ltb,
  ◌==◌, if◌then◌else◌,
}
use convomeow.Base.Text.{Text, text_eq, text_lt}
use convomeow.Base.Tables.{any, select_where}
use convomeow.Core.{Result, ok, err, invalid}
use convomeow.Store.Tables.{Message, Alias}

pub data ChangeKind : Type 0 where
  edit revoke : ChangeKind

abbrev pub is_kind : ChangeKind → ChangeKind → Bool
is_kind ChangeKind.edit ChangeKind.edit = true
is_kind ChangeKind.revoke ChangeKind.revoke = true
is_kind _ _ = false

-- `message_changes`, with the account of the row; an identifier that is empty is 0 or []. The time
-- `at_ms` counts milliseconds from Go's zero time, the start of the year 1, where the code counts from
-- 1970: the order is the same, and 0 is the zero time.
pub record Change : Type 0 where
  pub account_id : ℕ
  pub chat_id : ℕ
  pub target_id : ℕ
  pub kind : ChangeKind
  pub text : Text
  pub at_ms : ℕ
  pub event_id : Text

-- `UNIQUE(account_id, chat_id, target_id, kind, at_ms, event_id)`
abbrev pub same_key : Change → Change → Bool
same_key a b =
    a.account_id == b.account_id
    && (a.chat_id == b.chat_id
        && (a.target_id == b.target_id
            && (is_kind a.kind b.kind && (a.at_ms == b.at_ms && text_eq a.event_id b.event_id))))

abbrev is_nil : Text → Bool
is_nil [] = true
is_nil (c ∷ s) = false

-- `INSERT … ON CONFLICT DO NOTHING`
unfoldable pub insert_change : Change → List Change → List Change
insert_change c rows = if any (same_key c) rows then rows else rows ++ c ∷ []

abbrev pub is_complete : Change → Bool
is_complete c = not (
    c.account_id == 0
    || (c.chat_id == 0 || (c.target_id == 0 || (is_nil c.event_id || c.at_ms == 0))))

-- `saveMessageChangeTx`, for a kind that is known.
unfoldable pub save_change : Change → List Change → Result (List Change)
unfolding insert_change
save_change c rows = if is_complete c then ok (insert_change c rows) else err invalid

abbrev pub kept_rows : List Change → Result (List Change) → List Change
kept_rows rows (ok next) = next
kept_rows rows (err e) = rows

-- Changes that arrive one after another; one that is refused leaves the table as it was.
unfoldable pub save_all : List Change → List Change → List Change
unfolding save_change
save_all [] rows = rows
save_all (c ∷ cs) rows = save_all cs (kept_rows rows (save_change c rows))

abbrev leads_to : ℕ → ℕ → ℕ → Alias → Bool
leads_to account chat conversation a =
    a.account_id == account && (a.jid == chat && a.conversation_id == conversation)

-- The join of `rankedMessageChanges`: a change of the message, in any chat of its conversation.
abbrev pub is_change_of : List Alias → Message → ChangeKind → Change → Bool
is_change_of aliases m kind c =
    is_kind c.kind kind
    && (c.account_id == m.account_id
        && (c.target_id == m.provider_message_id
            && any (leads_to m.account_id c.chat_id m.conversation_id) aliases))

-- `ORDER BY c.at_ms DESC, c.event_id DESC` puts `a` before `b`.
pub newer : Change → Change → Bool
newer a b =
    if ltb b.at_ms a.at_ms
    then true
    else if ltb a.at_ms b.at_ms
    then false
    else text_lt b.event_id a.event_id

abbrev pub later : Change → Option Change → Option Change
later c none = some c
later c (some l) = some (if newer c l then c else l)

-- The row of rank 1.
unfoldable pub latest : (Change → Bool) → List Change → Option Change
unfolding newer
latest p [] = none
latest p (c ∷ rows) = let rest = latest p rows in if p c then later c rest else rest

-- The parts of a message that changes touch.
pub record Shown : Type 0 where
  pub text : Text
  pub content : Text
  pub edited_at : Option ℕ
  pub deleted_at : Option ℕ

abbrev pub original : Message → Shown
original m = record { text = m.text; content = m.content; edited_at = none; deleted_at = none }

abbrev pub with_edit : Option Change → Shown → Shown
with_edit none s = s
with_edit (some c) s = record s { text = c.text; content = []; edited_at = some c.at_ms }

abbrev pub with_revoke : Option Change → Shown → Shown
with_revoke none s = s
with_revoke (some c) s = record s { deleted_at = some c.at_ms }

-- `attachMessageChanges`, for one message
unfoldable pub attach_changes : List Alias → List Change → Message → Shown
unfolding latest
attach_changes aliases rows m =
    with_revoke (latest (is_change_of aliases m ChangeKind.revoke) rows)
      (with_edit (latest (is_change_of aliases m ChangeKind.edit) rows) (original m))

abbrev pub conversations_of : ℕ → ℕ → List Alias → List ℕ
conversations_of account chat aliases =
    map (λ a. a.conversation_id)
      (select_where (λ a. a.account_id == account && a.jid == chat) aliases)

-- `SaveMessageChange`: the table, and the conversations that the change is published to.
pub save_message_change : Change → List Alias → List Change → Result (List Change × List ℕ)
unfolding save_change
save_message_change c aliases rows = elim (save_change c rows) [
  | err e ↦ err e
  | ok next ↦ ok (next, conversations_of c.account_id c.chat_id aliases)
]
