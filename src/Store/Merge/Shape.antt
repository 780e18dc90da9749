-- ===== src/Store/Merge/Shape.antt =====
-- What one message of `merge_page` does to the messages and to the keys of sends.
use convomeow.Base.{
  ℕ, ◌≡◌, sym, ap, ◌∙◌, inl, inr, false, Option, none, some, List, [], ◌∷◌, arith, if◌then◌else◌,
  Bool-cases, Option-cases,
}
use convomeow.Base.Tables.{find_where, any, update_where, delete_where, select_where}
use convomeow.Core.{Result, ok, err, ◌>>=◌, >>=-eq-ok}
use convomeow.Store.Tables.{Message, Attachment, Database}
use convomeow.Store.Attachments.{save_attachments, is_part}
use convomeow.Store.Media.{is_ready}
use convomeow.Store.Messages.{by_id}
use convomeow.Store.Merge.{
  merge_message, merge_found, delete_message, move_message, move_keys, keep_source, keep_target,
  is_twin, source_wins, moved_to,
}
use convomeow.Store.MergeParts.{
  merge_attachments, merge_attachment, merge_each, merge_message_order, merge_object,
  with_attachments, again, with_order, order_of, key_of, attachment_of,
}

abbrev Same : Database → Database → Type 0
Same a b = (a.messages ≡ b.messages) × (a.send_keys ≡ b.send_keys) × (a.links ≡ b.links)

merge_object-Same :
    (s : Attachment) (db after : Database) (t : Option Attachment)
    → merge_object s db t ≡ ok after
    → Same after db
merge_object-Same s db after none e = cc
merge_object-Same s db after (some t) e = ground arith

with_attachments-Same :
    (db : Database) (r : Result (List Attachment)) (saved : Database)
    → with_attachments db r ≡ ok saved
    → Same saved db
with_attachments-Same db (ok rows) saved e = ground arith
with_attachments-Same db (err failure) saved e = cc

merge_attachment-Same :
    (fresh : ℕ → ℕ) (target : ℕ) (s : Attachment) (db after : Database)
    → merge_attachment fresh target s db ≡ ok after
    → Same after db
unfolding merge_attachment
merge_attachment-Same fresh target s db after e =
    let rows = save_attachments target (again fresh s ∷ []) db.attachments in
    let (saved, f, g) =
      >>=-eq-ok {W = Database} (with_attachments db rows)
        (λ saved.
          if is_ready s.availability
          then merge_object s saved (find_where (is_part target s.part_index) saved.attachments)
          else ok saved)
        {end = after} e in
    ground (
      arith,
      with_attachments-Same db rows saved f,
      merge_object-Same s saved after (find_where (is_part target s.part_index) saved.attachments),
    )

merge_each-Same :
    (fresh : ℕ → ℕ) (target : ℕ) (rows : List Attachment) (db after : Database)
    → merge_each fresh target rows db ≡ ok after
    → Same after db
unfolding merge_each
merge_each-Same fresh target [] db after e = ground arith
merge_each-Same fresh target (a ∷ rest) db after e =
    let (mid, f, g) =
      >>=-eq-ok {W = Database} (merge_attachment fresh target a db) (merge_each fresh target rest)
        {end = after} e in
    ground (
      arith,
      merge_attachment-Same fresh target a db mid f,
      merge_each-Same fresh target rest mid after g,
    )

pub merge_attachments-Same :
    (fresh : ℕ → ℕ) (target source : ℕ) (db after : Database)
    → merge_attachments fresh target source db ≡ ok after
    → Same after db
unfolding merge_attachments
merge_attachments-Same fresh target source db after e =
    let (mid, f, g) =
      >>=-eq-ok {W = Database}
        (merge_each fresh target (select_where (attachment_of source) db.attachments) db)
        (λ merged.
          ok (record merged {
            attachments = delete_where (attachment_of source) merged.attachments;
          }))
        {end = after} e in
    ground (
      arith,
      merge_each-Same fresh target (select_where (attachment_of source) db.attachments) db mid f,
    )

delete_message-rows :
    (id : ℕ) (db after : Database)
    → delete_message id db ≡ ok after
    → (after.messages ≡ delete_where (by_id id) db.messages) × (after.send_keys ≡ db.send_keys)
unfolding delete_message
delete_message-rows id db after e = ground arith

-- The three ways in which a message is merged.
pub data Shape (target : ℕ) (m : Message) (db after : Database) : Type 0 where
  moved :
      find_where (is_twin target m) db.messages ≡ none
      → after.messages ≡ update_where (by_id m.id) (moved_to target) db.messages
      → after.send_keys ≡ db.send_keys
      → Shape target m db after
  replaced :
      (x : Message) (order : Option ℕ)
      → find_where (is_twin target m) db.messages ≡ some x
      → any (key_of x.id) db.send_keys ≡ false
      → after.messages
        ≡ update_where
            (by_id m.id)
            (moved_to target)
            (delete_where (by_id x.id) (update_where (by_id m.id) (with_order order) db.messages))
      → after.send_keys ≡ db.send_keys
      → Shape target m db after
  absorbed :
      (x : Message) (order : Option ℕ)
      → find_where (is_twin target m) db.messages ≡ some x
      → after.messages
        ≡ delete_where (by_id m.id) (update_where (by_id x.id) (with_order order) db.messages)
      → after.send_keys
        ≡ update_where (key_of m.id) (λ k. record k { message_id = x.id }) db.send_keys
      → Shape target m db after

keep_source-rows :
    (fresh : ℕ → ℕ) (target id x : ℕ) (db after : Database)
    → keep_source fresh target id x db ≡ ok after
    → (after.messages
        ≡ update_where (by_id id) (moved_to target) (
            delete_where
              (by_id x)
              (update_where (by_id id) (with_order (order_of x db.messages)) db.messages)))
      × (after.send_keys ≡ db.send_keys)
unfolding keep_source merge_message_order move_message
keep_source-rows fresh target id x db after e =
    let ordered = merge_message_order id x db in
    let (merged, f, g) =
      >>=-eq-ok {W = Database} (merge_attachments fresh id x ordered)
        (λ merged. delete_message x merged >>= (λ deleted. ok (move_message target id deleted)))
        {end = after} e in
    let (deleted, h, k) =
      >>=-eq-ok {W = Database} (delete_message x merged)
        (λ deleted. ok (move_message target id deleted)) {end = after} g in
    ground (
      arith,
      merge_attachments-Same fresh id x ordered merged f,
      delete_message-rows x merged deleted h,
    )

keep_target-rows :
    (fresh : ℕ → ℕ) (id x : ℕ) (db after : Database)
    → keep_target fresh id x db ≡ ok after
    → (after.messages
        ≡ delete_where
            (by_id id)
            (update_where (by_id x) (with_order (order_of id db.messages)) db.messages))
      × (after.send_keys ≡ update_where (key_of id) (λ k. record k { message_id = x }) db.send_keys)
unfolding keep_target merge_message_order move_keys
keep_target-rows fresh id x db after e =
    let ordered = merge_message_order x id db in
    let (merged, f, g) =
      >>=-eq-ok {W = Database} (merge_attachments fresh x id ordered)
        (λ merged. delete_message id (move_keys x id merged)) {end = after} e in
    ground (
      arith,
      merge_attachments-Same fresh x id ordered merged f,
      delete_message-rows id (move_keys x id merged) after g,
    )

pub merge_message-Shape :
    (fresh : ℕ → ℕ) (target : ℕ) (m : Message) (db after : Database)
    → merge_message fresh target m db ≡ ok after
    → Shape target m db after
unfolding merge_message move_message
merge_message-Shape fresh target m db after e =
    elim (Option-cases (find_where (is_twin target m) db.messages)) [
      | inl free ↦
          let h : merge_found fresh target m db none ≡ ok after =
            sym (ap (merge_found fresh target m db) free) ∙ e in
          Shape.moved free (ground arith) (ground arith)
      | inr (x, twin) ↦
          let h : merge_found fresh target m db (some x) ≡ ok after =
            sym (ap (merge_found fresh target m db) twin) ∙ e in
          elim (Bool-cases (source_wins m x db)) [
            | inl wins ↦
                let (p, q) =
                  keep_source-rows fresh target m.id x.id db after (ground (arith, h, wins)) in
                Shape.replaced x (order_of x.id db.messages) twin (ground (arith, wins)) p q
            | inr loses ↦
                let (p, q) = keep_target-rows fresh m.id x.id db after (ground (arith, h, loses)) in
                Shape.absorbed x (order_of m.id db.messages) twin p q
          ]
    ]
