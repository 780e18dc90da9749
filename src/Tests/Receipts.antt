-- ===== src/Tests/Receipts.antt =====
-- The receipts of messages.
use convomeow.Base.{◌≡◌, true, false, none, some, [], ◌∷◌}
use mathlib.Core.List.{perm_append_comm}
use convomeow.Store.Receipts.{Key, Row, record_all, find}
use convomeow.Store.Receipts.Converge.{receipts_converge}

abbrev key : Key
key = record { account_id = 1; chat_id = 10; provider_message_id = 20; participant_id = 4 }

abbrev delivered : Row
delivered = record { key = key; delivered_at = some 5; read_at = none; is_group = false }

abbrev seen : Row
seen = record { key = key; delivered_at = none; read_at = some 6; is_group = true }

receipts_converge_example :
    find key (record_all (delivered ∷ seen ∷ []) [])
    ≡ find key (record_all (seen ∷ delivered ∷ []) [])
receipts_converge_example =
    receipts_converge key (delivered ∷ seen ∷ []) (seen ∷ delivered ∷ []) []
      (perm_append_comm (delivered ∷ []) (seen ∷ []))
