-- ===== src/Store/Receipts.antt =====
-- internal/store/sqlite/receipts.go: the table `message_receipts` and the receipts that it joins.
pub mod Converge
use convomeow.Core.{◌>>◌}
use convomeow.Core.{◌>>=◌}
use convomeow.Base.{
  ℕ, Bool, true, false, ◌&&◌, ◌||◌, not, Option, none, some, List, [], ◌∷◌, ltb, ◌==◌,
  if◌then◌else◌, length,
}
use convomeow.Core.{Result, ok, err, invalid, fail_if}

-- The primary key of `message_receipts`.
pub record Key : Type 0 where
  pub account_id : ℕ
  pub chat_id : ℕ
  pub provider_message_id : ℕ
  pub participant_id : ℕ

pub record Row : Type 0 where
  pub key : Key
  pub delivered_at : Option ℕ
  pub read_at : Option ℕ
  pub is_group : Bool

unfoldable pub key_eq : Key → Key → Bool
key_eq a b =
    a.account_id == b.account_id
    && (a.chat_id == b.chat_id
        && (a.provider_message_id == b.provider_message_id && a.participant_id == b.participant_id))

-- `COALESCE(min(a, b), a, b)`: a minimum with NULL is NULL.
pub earliest : Option ℕ → Option ℕ → Option ℕ
earliest none b = b
earliest (some a) none = some a
earliest (some a) (some b) = if ltb b a then some b else some a

-- `mergeReceiptTimes`
unfoldable pub joined : Row → Row → Row
unfolding earliest
joined old new = record old {
  delivered_at = earliest old.delivered_at new.delivered_at;
  read_at = earliest old.read_at new.read_at;
  is_group = old.is_group || new.is_group;
}

abbrev pub is_earlier : Option ℕ → Option ℕ → Bool
is_earlier none old = false
is_earlier (some new) none = true
is_earlier (some new) (some old) = ltb new old

-- The condition of the update: the receipt that comes in tells something new.
pub is_news : Row → Row → Bool
is_news new old =
    is_earlier new.delivered_at old.delivered_at
    || (is_earlier new.read_at old.read_at || new.is_group && not old.is_group)

-- The upsert of `saveReceiptTx`, with whether a row was affected.
unfoldable pub upsert : Row → List Row → List Row × Bool
upsert r [] = (r ∷ [], true)
upsert r (x ∷ xs) =
    let rest = upsert r xs in
    if key_eq x.key r.key
    then (if is_news r x then (joined x r ∷ xs, true) else (x ∷ xs, false))
    else (x ∷ rest.0, rest.1)

pub data ReceiptKind : Type 0 where
  delivered read : ReceiptKind

-- `core.Receipt`, of a participant that is known by one name.
pub record Receipt : Type 0 where
  pub kind : ReceiptKind
  pub chat_id : ℕ
  pub participant_id : ℕ
  pub message_ids : List ℕ
  pub at : ℕ
  pub group : Bool

abbrev receipt_row : ℕ → ℕ → Receipt → ℕ → Row
receipt_row account participant r id =
    let key : Key = record {
      account_id = account;
      chat_id = r.chat_id;
      provider_message_id = id;
      participant_id = participant;
    } in
    elim r.kind [
      | ReceiptKind.delivered ↦ record {
        key = key;
        delivered_at = some r.at;
        read_at = none;
        is_group = r.group;
      }
      | ReceiptKind.read ↦ record {
        key = key;
        delivered_at = none;
        read_at = some r.at;
        is_group = r.group;
      }
    ]

-- The loop of `saveReceiptTx` over the messages.
pub save_each : ℕ → ℕ → Receipt → List ℕ → List Row × Bool → Result (List Row × Bool)
unfolding upsert
save_each account participant r [] (rows, changed) = ok (rows, changed)
save_each account participant r (id ∷ ids) (rows, changed) =
    let next = upsert (receipt_row account participant r id) rows in
    if id == 0 then err invalid else save_each account participant r ids (next.0, changed || next.1)

-- `saveReceiptTx`, for the first name of the participant.
pub save_receipt : ℕ → ℕ → Receipt → List Row → Result (List Row × Bool)
unfolding save_each
save_receipt account participant r rows = do
  fail_if
      (account == 0
        || (r.chat_id == 0
            || (r.participant_id == 0
                || (r.at == 0 || (length r.message_ids == 0 || ltb 1_000 (length r.message_ids))))))
      invalid
  save_each account participant r r.message_ids (rows, false)

-- Receipts saved one after another.
pub record_all : List Row → List Row → List Row
record_all [] rows = rows
record_all (r ∷ rs) rows = record_all rs (upsert r rows).0

unfoldable pub find : Key → List Row → Option Row
find k [] = none
find k (r ∷ rs) = if key_eq r.key k then some r else find k rs
