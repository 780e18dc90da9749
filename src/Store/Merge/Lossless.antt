-- ===== src/Store/Merge/Lossless.antt =====
-- `mergeConversationTx` as a whole.
use convomeow.Base.{
  ℕ, suc, ◌≡◌, refl, sym, ap, ◌∙◌, ◌≢◌, inl, inr, Option, none, some, arith, ◌==◌, if◌then◌else◌,
  subst,
}
use convomeow.Base.Tables.{find_where, update_where, delete_where}
use convomeow.Core.{Result, ok, err}
use convomeow.Store.Tables.{Message, Database}
use convomeow.Store.Messages.{by_id, by_key}
use convomeow.Store.Conversations.{refresh_conversation-SameBut}
use convomeow.Store.Merge.{merge_conversation, merge_pages, merge_profile, finish_merge, finished}
use convomeow.Store.Merge.Carried.{Follows, KeysFollow, IsUnique}
use convomeow.Store.Merge.Rows.{left_in}
use convomeow.Store.Merge.Pages.{merge_pages-total, merge_pages-ends, none_left}

merge_profile-same :
    (target source : ℕ) (db : Database)
    → ((merge_profile target source db).messages ≡ db.messages)
      × ((merge_profile target source db).send_keys ≡ db.send_keys)
unfolding merge_profile
merge_profile-same target source db = ground arith

finish_merge-same :
    (target source : ℕ) (db : Database)
    → ((finish_merge target source db).messages ≡ db.messages)
      × ((finish_merge target source db).send_keys ≡ db.send_keys)
unfolding finish_merge
finish_merge-same target source db =
    let s = refresh_conversation-SameBut target (record db {
      aliases =
          update_where (λ a. a.conversation_id == source)
            (λ a. record a { conversation_id = target }) db.aliases;
      conversations = delete_where (λ c. c.id == source) db.conversations;
    }) in
    (s.messages, s.send_keys)

followed :
    (source target old new : ℕ)
    → Follows source target old new
    → new ≢ source
    → new ≡ (if old == source then target else old)
followed source target old new (inl same) ne = ground arith
followed source target old new (inr moved) ne = ground arith

finished-ok :
    (target source : ℕ) (r : Option (Result Database)) (after : Database)
    → finished target source r ≡ some (ok after)
    → (mid : Database) × (r ≡ some (ok mid)) × (finish_merge target source mid ≡ after)
finished-ok target source none after e = cc
finished-ok target source (some (err failure)) after e = cc
finished-ok target source (some (ok mid)) after e = (mid, refl, ground arith)

finished-total :
    (target source : ℕ) (r : Option (Result Database))
    → r ≢ none
    → (end : Result Database) × (finished target source r ≡ some end)
finished-total target source none ne = absurd (ne refl)
finished-total target source (some (err e)) ne = (err e, refl)
finished-total target source (some (ok mid)) ne = (ok (finish_merge target source mid), refl)

-- The merge of two conversations ends: its loop needs at most one round more than the source has
-- messages, where message identifiers are unique.
pub merge_conversation-total :
    (fresh : ℕ → ℕ) (target source : ℕ) (db : Database)
    → target ≢ source
    → IsUnique db.messages
    → (r : Result Database) × (merge_conversation fresh target source db ≡ some r)
unfolding merge_conversation
merge_conversation-total fresh target source db ne u =
    let start = merge_profile target source db in
    let (messages, keys) = merge_profile-same target source db in
    finished-total target source
      (merge_pages fresh (suc (left_in source db.messages)) target source start)
      (merge_pages-total fresh source target ne (suc (left_in source db.messages)) start
        (subst IsUnique (sym messages) u) (omega (arith, ap (left_in source) messages)))

-- A merge of two conversations that succeeds loses nothing, where message identifiers are unique.
-- For each message of before there is one afterwards with the same provider message, in the target
-- if it was in the source and in its own conversation else; every key of a send that stood for the
-- message stands for that one, with the same request. No message is left in the source.
pub merge_conversation-lossless :
    (fresh : ℕ → ℕ) (target source : ℕ) (db after : Database)
    → target ≢ source
    → IsUnique db.messages
    → merge_conversation fresh target source db ≡ some (ok after)
    → ((i : ℕ) (x : Message)
        → find_where (by_id i) db.messages ≡ some x
        → (j : ℕ) × (y : Message) × (find_where (by_id j) after.messages ≡ some y)
          × (y.provider_message_id ≡ x.provider_message_id)
          × (y.conversation_id
              ≡ (if x.conversation_id == source then target else x.conversation_id))
          × KeysFollow i j db.send_keys after.send_keys)
      × ((i : ℕ) (y : Message)
          → find_where (by_id i) after.messages ≡ some y
          → y.conversation_id ≢ source)
unfolding merge_conversation
merge_conversation-lossless fresh target source db after ne u e =
    let start = merge_profile target source db in
    let (messages, keys) = merge_profile-same target source db in
    let (mid, f, g) =
      finished-ok target source
        (merge_pages fresh (suc (left_in source db.messages)) target source start) after e in
    let (done, empty) =
      merge_pages-ends fresh source target ne (suc (left_in source db.messages)) start mid
        (subst IsUnique (sym messages) u) f in
    let (messages', keys') = finish_merge-same target source mid in
    let rows : after.messages ≡ mid.messages =
      sym (ap (λ (d : Database). d.messages) g) ∙ messages' in
    let sends : after.send_keys ≡ mid.send_keys =
      sym (ap (λ (d : Database). d.send_keys) g) ∙ keys' in
    (
      λ i x h.
          let (j, (y, found, same, follows), moved) =
            done.carried i x (ap (find_where (by_id i)) messages ∙ h) in
          (
            j,
            y,
            ap (find_where (by_id j)) rows ∙ found,
            same,
            followed source target x.conversation_id y.conversation_id follows
                (none_left source mid j y empty found),
            λ actor key k t to.
                let (k', t', r, to') =
                  moved actor key k (ap (find_where (by_key actor key)) keys ∙ t) to in
                (k', ap (find_where (by_key actor key)) sends ∙ t', r, to'),
          ),
      λ i y h. none_left source mid i y empty (sym (ap (find_where (by_id i)) rows) ∙ h),
    )

-- The identifiers stay unique.
pub merge_conversation-IsUnique :
    (fresh : ℕ → ℕ) (target source : ℕ) (db after : Database)
    → target ≢ source
    → IsUnique db.messages
    → merge_conversation fresh target source db ≡ some (ok after)
    → IsUnique after.messages
unfolding merge_conversation
merge_conversation-IsUnique fresh target source db after ne u e =
    let start = merge_profile target source db in
    let (mid, f, g) =
      finished-ok target source
        (merge_pages fresh (suc (left_in source db.messages)) target source start) after e in
    let (done, empty) =
      merge_pages-ends fresh source target ne (suc (left_in source db.messages)) start mid
        (subst IsUnique (sym (merge_profile-same target source db).0) u) f in
    subst IsUnique
      (sym (finish_merge-same target source mid).0 ∙ ap (λ (d : Database). d.messages) g)
      done.unique
