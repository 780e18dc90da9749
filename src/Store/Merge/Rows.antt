-- ===== src/Store/Merge/Rows.antt =====
-- The lists of messages under the updates and deletions of a merge.
use convomeow.Base.{
  ℕ, ◌≤◌, ◌<◌, ◌≡◌, refl, ap, ◌∙◌, ◌≢◌, Bool, false, Option, some, List, [], ◌∷◌, arith, ◌==◌,
  length,
}
use convomeow.Base.Tables.{
  find_where, any, update_where, delete_where, select_where, find_where-update_where,
  find_where_holds,
}
use convomeow.Store.Tables.{Message, SendKey}
use convomeow.Store.Messages.{by_id}
use convomeow.Store.Merge.{moved_to, in_conversation}
use convomeow.Store.MergeParts.{with_order}

pub find-update-other :
    (i id : ℕ) (f : Message → Message) (rows : List Message)
    → i ≢ id
    → ((x : Message) → (f x).id ≡ x.id)
    → find_where (by_id i) (update_where (by_id id) f rows) ≡ find_where (by_id i) rows
find-update-other i id f [] ne h = refl
find-update-other i id f (x ∷ rows) ne h = ground (arith, h x, find-update-other i id f rows ne h)

pub find-update_self :
    (id : ℕ) (f : Message → Message) (rows : List Message) (r : Message)
    → ((x : Message) → (f x).id ≡ x.id)
    → find_where (by_id id) rows ≡ some r
    → find_where (by_id id) (update_where (by_id id) f rows) ≡ some (f r)
find-update_self id f rows r h e =
    find_where-update_where (by_id id) (by_id id) f rows (λ y t. ap (λ j. j == id) (h y))
    ∙ (rw e (ground (arith, find_where_holds (by_id id) rows r e)))

pub update-none :
    (p : SendKey → Bool) (f : SendKey → SendKey) (rows : List SendKey)
    → any p rows ≡ false
    → update_where p f rows ≡ rows
update-none p f [] h = refl
update-none p f (x ∷ rows) h = ground (arith, update-none p f rows)

pub delete-update :
    (d : ℕ) (p : Message → Bool) (f : Message → Message) (rows : List Message)
    → ((x : Message) → (f x).id ≡ x.id)
    → ((x : Message) → p (f x) ≡ p x)
    → delete_where (by_id d) (update_where p f rows)
      ≡ update_where p f (delete_where (by_id d) rows)
delete-update d p f [] h k = refl
delete-update d p f (x ∷ rows) h k = ground (arith, h x, delete-update d p f rows h k)

-- The number of messages that are still in the source.
abbrev pub left_in : ℕ → List Message → ℕ
left_in source rows = length (select_where (in_conversation source) rows)

pub left-order :
    (source id : ℕ) (order : Option ℕ) (rows : List Message)
    → left_in source (update_where (by_id id) (with_order order) rows) ≡ left_in source rows
left-order source id order [] = refl
left-order source id order (x ∷ rows) = ground (arith, left-order source id order rows)

pub left-delete :
    (source id : ℕ) (rows : List Message)
    → left_in source (delete_where (by_id id) rows) ≤ left_in source rows
left-delete source id [] = omega arith
left-delete source id (x ∷ rows) = ground (arith, left-delete source id rows)

pub left-delete-own :
    (source id : ℕ) (rows : List Message) (r : Message)
    → find_where (by_id id) rows ≡ some r
    → r.conversation_id ≡ source
    → left_in source (delete_where (by_id id) rows) < left_in source rows
left-delete-own source id [] r e c = cc
left-delete-own source id (x ∷ rows) r e c =
    ground (arith, left-delete source id rows, left-delete-own source id rows r)

pub left-move :
    (source target id : ℕ) (rows : List Message)
    → target ≢ source
    → left_in source (update_where (by_id id) (moved_to target) rows) ≤ left_in source rows
left-move source target id [] ne = omega arith
left-move source target id (x ∷ rows) ne = ground (arith, left-move source target id rows ne)

pub left-move-own :
    (source target id : ℕ) (rows : List Message) (r : Message)
    → target ≢ source
    → find_where (by_id id) rows ≡ some r
    → r.conversation_id ≡ source
    → left_in source (update_where (by_id id) (moved_to target) rows) < left_in source rows
left-move-own source target id [] r ne e c = cc
left-move-own source target id (x ∷ rows) r ne e c =
    ground (arith, left-move source target id rows ne, left-move-own source target id rows r ne)
