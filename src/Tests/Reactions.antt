-- ===== src/Tests/Reactions.antt =====
-- The reactions to messages.
use convomeow.Base.{ℕ, ◌≡◌, [], ◌∷◌, map, arith}
use mathlib.Core.List.{perm_append_comm}
use convomeow.Store.Reactions.{Key, Row, record_all, merge_alias}
use convomeow.Store.Reactions.Lookup.{find}
use convomeow.Store.Reactions.Merge.{canonical, merge_alias-record_all}
use convomeow.Store.Reactions.Converge.{record_all_converges}

abbrev key : ℕ → Key
key participant = record {
  account_id = 1;
  chat_id = 10;
  target_id = 20;
  participant_id = participant;
}

abbrev liked : Row
liked = record { key = key 4; emoji = 128 ∷ []; at_ms = 5; event_id = 1 ∷ [] }

abbrev removed : Row
removed = record { key = key 4; emoji = []; at_ms = 6; event_id = 2 ∷ [] }

abbrev aliased : Row
aliased = record { key = key 8; emoji = 129 ∷ []; at_ms = 7; event_id = 3 ∷ [] }

record_all_converges_example :
    find (key 4) (record_all (liked ∷ removed ∷ []) [])
    ≡ find (key 4) (record_all (removed ∷ liked ∷ []) [])
record_all_converges_example =
    record_all_converges (key 4) (liked ∷ removed ∷ []) (removed ∷ liked ∷ []) []
      (perm_append_comm (liked ∷ []) (removed ∷ []))

merge_alias-record_all_example :
    find (key 4) (merge_alias 1 4 8 (record_all (liked ∷ aliased ∷ []) []))
    ≡ find
        (key 4)
        (record_all (map (canonical 1 4 8) (liked ∷ aliased ∷ [])) (merge_alias 1 4 8 []))
merge_alias-record_all_example =
    merge_alias-record_all 1 4 8 (key 4) (liked ∷ aliased ∷ []) [] (λ e. ground (arith, e)) tt
