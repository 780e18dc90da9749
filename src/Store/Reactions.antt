-- ===== src/Store/Reactions.antt =====
-- internal/store/sqlite/reactions.go: the table `message_reactions`, its upsert, the merge of two
-- participants that turn out to be one, and the ranking that the views read.
pub mod Order
pub mod Lookup
pub mod Converge
pub mod Renamed
pub mod Merge
use convomeow.Base.{ℕ, Bool, true, false, ◌&&◌, List, [], ◌∷◌, ltb, ◌==◌, if◌then◌else◌}
use convomeow.Base.Text.{Text, is_empty, text_lt}

-- The primary key of `message_reactions`.
pub record Key : Type 0 where
  pub account_id : ℕ
  pub chat_id : ℕ
  pub target_id : ℕ
  pub participant_id : ℕ

pub record Row : Type 0 where
  pub key : Key
  pub emoji : Text
  pub at_ms : ℕ
  pub event_id : Text

unfoldable pub key_eq : Key → Key → Bool
key_eq a b =
    a.account_id == b.account_id
    && (a.chat_id == b.chat_id
        && (a.target_id == b.target_id && a.participant_id == b.participant_id))

pub newer_event : Row → Row → Bool
newer_event a b =
    if text_lt b.event_id a.event_id
    then true
    else if text_lt a.event_id b.event_id
    then false
    else text_lt b.emoji a.emoji

pub newer_removal : Row → Row → Bool
newer_removal a b =
    if is_empty a.emoji
    then (if is_empty b.emoji then newer_event a b else true)
    else (if is_empty b.emoji then false else newer_event a b)

-- `mergeReaction`: (at_ms, emoji='', event_id, emoji) of `a` is greater than that of `b`.
pub newer : Row → Row → Bool
newer a b =
    if ltb b.at_ms a.at_ms then true else if ltb a.at_ms b.at_ms then false else newer_removal a b

-- The upsert of `saveReactionTx`, with whether a row was affected.
unfoldable pub upsert : Row → List Row → List Row × Bool
upsert r [] = (r ∷ [], true)
upsert r (x ∷ xs) =
    let rest = upsert r xs in
    if key_eq x.key r.key
    then (if newer r x then (r ∷ xs, true) else (x ∷ xs, false))
    else (x ∷ rest.0, rest.1)

-- Reactions saved one after another.
pub record_all : List Row → List Row → List Row
unfolding upsert
record_all [] rows = rows
record_all (r ∷ rs) rows = record_all rs (upsert r rows).0

-- `participant_id=?` and `account_id=?`
pub of_participant : ℕ → ℕ → Row → Bool
of_participant account participant r =
    r.key.account_id == account && r.key.participant_id == participant

-- The row as the participant `first` has it.
pub rename : ℕ → Row → Row
rename first r = record r { key = record (r.key) { participant_id = first } }

-- The rows of a participant, renamed: the `SELECT` of `mergeReactionParticipantsTx`.
pub renamed_rows : ℕ → ℕ → ℕ → List Row → List Row
unfolding of_participant rename
renamed_rows account first alias [] = []
renamed_rows account first alias (r ∷ rs) =
    let rest = renamed_rows account first alias rs in
    if of_participant account alias r then rename first r ∷ rest else rest

-- Its `DELETE`.
pub delete_rows : ℕ → ℕ → List Row → List Row
unfolding of_participant
delete_rows account alias [] = []
delete_rows account alias (r ∷ rs) =
    let rest = delete_rows account alias rs in
    if of_participant account alias r then rest else r ∷ rest

-- One round of the loop of `mergeReactionParticipantsTx`.
pub merge_alias : ℕ → ℕ → ℕ → List Row → List Row
unfolding record_all renamed_rows delete_rows
merge_alias account first alias rows =
    delete_rows account alias (record_all (renamed_rows account first alias rows) rows)

-- The loop, over the aliases behind the first one.
pub merge_participants : ℕ → ℕ → List ℕ → List Row → List Row
unfolding merge_alias
merge_participants account first [] rows = rows
merge_participants account first (alias ∷ aliases) rows =
    merge_participants account first aliases (merge_alias account first alias rows)
