-- ===== src/Store/Merge/Kept.antt =====
-- A merge keeps the links between identifiers.
use convomeow.Base.{
  ℕ, zero, suc, ◌≡◌, refl, sym, ap, ◌∙◌, inl, inr, Option, none, some, List, [], ◌∷◌, arith, ◌==◌,
  length, Bool-cases,
}
use convomeow.Core.{Result, ok, err, >>=-eq-ok, ◌>>=◌}
use convomeow.Store.Tables.{Message, Database}
use convomeow.Store.Conversations.{refresh_conversation-SameBut}
use convomeow.Base.Tables.{find_where, update_where, delete_where, select_where}
use convomeow.Store.MergeParts.{merge_attachments, merge_message_order}
use convomeow.Store.Merge.{
  delete_message, move_message, move_keys, keep_source, keep_target, merge_found, merge_message,
  merge_page, merge_pages, page_of, with_page, with_merged, merge_profile, finish_merge, finished,
  merge_conversation, is_twin, source_wins, in_conversation,
}
use convomeow.Store.Merge.Shape.{merge_attachments-Same}

delete_message-links :
    (id : ℕ) (db after : Database) → delete_message id db ≡ ok after → after.links ≡ db.links
unfolding delete_message
delete_message-links id db after e = ground arith

keep_source-links :
    (fresh : ℕ → ℕ) (target id x : ℕ) (db after : Database)
    → keep_source fresh target id x db ≡ ok after
    → after.links ≡ db.links
unfolding keep_source merge_message_order move_message
keep_source-links fresh target id x db after e =
    let ordered = merge_message_order id x db in
    let (merged, f, g) =
      >>=-eq-ok {W = Database} (merge_attachments fresh id x ordered)
        (λ merged. delete_message x merged >>= (λ deleted. ok (move_message target id deleted)))
        {end = after} e in
    let (deleted, h, k) =
      >>=-eq-ok {W = Database} (delete_message x merged)
        (λ deleted. ok (move_message target id deleted)) {end = after} g in
    ground (
      arith,
      merge_attachments-Same fresh id x ordered merged f,
      delete_message-links x merged deleted h,
    )

keep_target-links :
    (fresh : ℕ → ℕ) (id x : ℕ) (db after : Database)
    → keep_target fresh id x db ≡ ok after
    → after.links ≡ db.links
unfolding keep_target merge_message_order move_keys
keep_target-links fresh id x db after e =
    let ordered = merge_message_order x id db in
    let (merged, f, g) =
      >>=-eq-ok {W = Database} (merge_attachments fresh x id ordered)
        (λ merged. delete_message id (move_keys x id merged)) {end = after} e in
    ground (
      arith,
      merge_attachments-Same fresh x id ordered merged f,
      delete_message-links id (move_keys x id merged) after g,
    )

merge_found-links :
    (fresh : ℕ → ℕ) (target : ℕ) (m : Message) (db after : Database) (found : Option Message)
    → merge_found fresh target m db found ≡ ok after
    → after.links ≡ db.links
unfolding move_message
merge_found-links fresh target m db after none e = ground arith
merge_found-links fresh target m db after (some x) e = elim (Bool-cases (source_wins m x db)) [
  | inl s ↦ keep_source-links fresh target m.id x.id db after (ground (arith, s, e))
  | inr t ↦ keep_target-links fresh m.id x.id db after (ground (arith, t, e))
]

merge_page-links :
    (fresh : ℕ → ℕ) (target : ℕ) (page : List Message) (db after : Database)
    → merge_page fresh target page db ≡ ok after
    → after.links ≡ db.links
unfolding merge_page merge_message
merge_page-links fresh target [] db after e = ground arith
merge_page-links fresh target (m ∷ rest) db after e =
    let (mid, f, g) =
      >>=-eq-ok {W = Database} (merge_message fresh target m db) (merge_page fresh target rest)
        {end = after} e in
    merge_page-links fresh target rest mid after g
    ∙ merge_found-links fresh target m db mid (find_where (is_twin target m) db.messages) f

with_merged-links :
    (next : Database → Option (Result Database)) (r : Result Database) (db after : Database)
    → ((mid : Database) → r ≡ ok mid → mid.links ≡ db.links)
    → ((mid : Database) → next mid ≡ some (ok after) → after.links ≡ mid.links)
    → with_merged next r ≡ some (ok after)
    → after.links ≡ db.links
with_merged-links next (ok mid) db after h k e = k mid e ∙ h mid refl
with_merged-links next (err failure) db after h k e = cc

with_page-links :
    (next : Database → Option (Result Database)) (fresh : ℕ → ℕ) (target : ℕ) (db after : Database)
    (page : List Message)
    → ((mid : Database) → next mid ≡ some (ok after) → after.links ≡ mid.links)
    → with_page next fresh target db page ≡ some (ok after)
    → after.links ≡ db.links
with_page-links next fresh target db after [] k e = ground arith
with_page-links next fresh target db after (m ∷ rest) k e =
    with_merged-links next (merge_page fresh target (m ∷ rest) db) db after
      (λ mid f. merge_page-links fresh target (m ∷ rest) db mid f) k e

merge_pages-links :
    (fresh : ℕ → ℕ) (fuel target source : ℕ) (db after : Database)
    → merge_pages fresh fuel target source db ≡ some (ok after)
    → after.links ≡ db.links
unfolding merge_pages
merge_pages-links fresh zero target source db after e = cc
merge_pages-links fresh (suc fuel) target source db after e =
    with_page-links (merge_pages fresh fuel target source) fresh target db after (page_of source db)
      (λ mid f. merge_pages-links fresh fuel target source mid after f) e

merge_profile-links :
    (target source : ℕ) (db : Database) → (merge_profile target source db).links ≡ db.links
unfolding merge_profile
merge_profile-links target source db = ground arith

finished-links :
    (target source : ℕ) (r : Option (Result Database)) (db after : Database)
    → ((mid : Database) → r ≡ some (ok mid) → mid.links ≡ db.links)
    → finished target source r ≡ some (ok after)
    → after.links ≡ db.links
unfolding finish_merge
finished-links target source none db after h e = cc
finished-links target source (some (err failure)) db after h e = cc
finished-links target source (some (ok mid)) db after h e =
    let kept = refresh_conversation-SameBut target (record mid {
      aliases =
          update_where (λ a. a.conversation_id == source)
            (λ a. record a { conversation_id = target }) mid.aliases;
      conversations = delete_where (λ c. c.id == source) mid.conversations;
    }) in
    let same : finish_merge target source mid ≡ after = ground arith in
    ap (λ (d : Database). d.links) (sym same) ∙ (kept.links ∙ h mid refl)

pub merge_conversation-links :
    (fresh : ℕ → ℕ) (target source : ℕ) (db after : Database)
    → merge_conversation fresh target source db ≡ some (ok after)
    → after.links ≡ db.links
unfolding merge_conversation
merge_conversation-links fresh target source db after e =
    finished-links target source
      (merge_pages fresh (suc (length (select_where (in_conversation source) db.messages))) target
        source (merge_profile target source db))
      db after
      (λ mid f.
        merge_pages-links fresh (suc (length (select_where (in_conversation source) db.messages)))
          target source (merge_profile target source db) mid f
        ∙ merge_profile-links target source db)
      e
