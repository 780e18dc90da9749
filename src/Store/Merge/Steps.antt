-- ===== src/Store/Merge/Steps.antt =====
-- One message of a merge: it leaves the source, and nothing that is kept gets lost.
use convomeow.Base.{
  ℕ, ◌<◌, ◌≡◌, refl, sym, ap, ◌∙◌, ◌≢◌, inl, inr, true, false, Option, some, List, arith, subst,
}
use convomeow.Base.Tables.{
  find_where, any, update_where, delete_where, find_where-delete_other, find_where_holds,
}
use convomeow.Core.{ok}
use convomeow.Store.Tables.{Message, Database}
use convomeow.Store.Messages.{by_id}
use convomeow.Store.Merge.{merge_message, is_twin, moved_to}
use convomeow.Store.MergeParts.{with_order, key_of}
use convomeow.Store.Merge.Shape.{Shape, merge_message-Shape}
use convomeow.Store.Merge.Carried.{
  Carried, Carried-trans, Carried-update, Carried-delete, IsUnique, IsUnique-update,
  IsUnique-delete, find-own, some_inj,
}
use convomeow.Store.Merge.Rows.{
  find-update-other, find-update_self, update-none, delete-update, left_in, left-order, left-delete,
  left-delete-own, left-move-own,
}

-- A message of a page is still in the source, as long as its turn has not come.
abbrev pub IsWaiting : ℕ → Message → List Message → Type 0
IsWaiting source m rows =
    (r : Message) × (find_where (by_id m.id) rows ≡ some r)
    × (r.provider_message_id ≡ m.provider_message_id)
    × (r.conversation_id ≡ source)

pub record Step (source target : ℕ) (m : Message) (db after : Database) : Type 0 where
  pub carried : Carried source target db after
  pub unique : IsUnique after.messages
  pub stays :
      (i : ℕ) (y : Message)
      → i ≢ m.id
      → find_where (by_id i) db.messages ≡ some y
      → y.conversation_id ≡ source
      → find_where (by_id i) after.messages ≡ some y
  pub fewer : left_in source after.messages < left_in source db.messages

same_row :
    (i id : ℕ) (rows : List Message) (x r : Message)
    → find_where (by_id i) rows ≡ some x
    → find_where (by_id id) rows ≡ some r
    → by_id id x ≡ true
    → x ≡ r
same_row i id rows x r e f hit =
    let at : i ≡ id = ground (arith, hit, find_where_holds (by_id i) rows x e) in
    some_inj (sym e ∙ (ap (λ j. find_where (by_id j) rows) at ∙ f))

module _ (source target : ℕ) (ne : target ≢ source) (m : Message) (db after : Database)
    (unique : IsUnique db.messages) (waiting : IsWaiting source m db.messages) where
  abbrev row : Message
  row = waiting.0

  step-moved :
      after.messages ≡ update_where (by_id m.id) (moved_to target) db.messages
      → after.send_keys ≡ db.send_keys
      → Step source target m db after
  step-moved rows keys = record {
    carried =
        Carried-update source target (by_id m.id) (moved_to target) db after (λ x. refl) (λ x. refl)
          (λ i x e hit.
            let own : x ≡ row = same_row i m.id db.messages x row e waiting.1 hit in
            inr (ap (λ (y : Message). y.conversation_id) own ∙ waiting.3, refl))
          rows keys;
    unique =
        subst IsUnique (sym rows)
          (IsUnique-update (by_id m.id) (moved_to target) db.messages (λ x. refl) unique);
    stays = λ i y other e c.
        ap (find_where (by_id i)) rows
        ∙ (find-update-other i m.id (moved_to target) db.messages other (λ x. refl) ∙ e);
    fewer =
        subst (λ rows. left_in source rows < left_in source db.messages) (sym rows)
          (left-move-own source target m.id db.messages row ne waiting.1 waiting.3);
  }

  module _ (x : Message) (order : Option ℕ)
      (twin : find_where (is_twin target m) db.messages ≡ some x) where
    x_found : find_where (by_id x.id) db.messages ≡ some x
    x_found = find-own (is_twin target m) db.messages x unique twin

    x_twin : is_twin target m x ≡ true
    x_twin = find_where_holds (is_twin target m) db.messages x twin

    x_target : x.conversation_id ≡ target
    x_target = ground (arith, x_twin)

    x_provider : x.provider_message_id ≡ m.provider_message_id
    x_provider = ground (arith, x_twin)

    x_other : x.id ≢ m.id
    x_other same =
        let own : x ≡ row =
          some_inj (sym x_found ∙ (ap (λ j. find_where (by_id j) db.messages) same ∙ waiting.1)) in
        ne (sym x_target ∙ (ap (λ (y : Message). y.conversation_id) own ∙ waiting.3))

    -- A message of the source is not the twin.
    not_x :
        (i : ℕ) (y : Message)
        → find_where (by_id i) db.messages ≡ some y
        → y.conversation_id ≡ source
        → i ≢ x.id
    not_x i y e c same =
        let own : y ≡ x =
          some_inj (sym e ∙ (ap (λ j. find_where (by_id j) db.messages) same ∙ x_found)) in
        ne (sym x_target ∙ (ap (λ (z : Message). z.conversation_id) (sym own) ∙ c))

    abbrev ordered : ℕ → Database
    ordered id = record db { messages = update_where (by_id id) (with_order order) db.messages }

    Carried-merge_message_order : (id : ℕ) → Carried source target db (ordered id)
    Carried-merge_message_order id =
        Carried-update source target (by_id id) (with_order order) db (ordered id) (λ y. refl)
          (λ y. refl) (λ i y e hit. inl refl) refl refl

    IsUnique-merge_message_order : (id : ℕ) → IsUnique (ordered id).messages
    IsUnique-merge_message_order id =
        IsUnique-update (by_id id) (with_order order) db.messages (λ y. refl) unique

    step-absorbed :
        after.messages ≡ delete_where (by_id m.id) (ordered x.id).messages
        → after.send_keys
          ≡ update_where (key_of m.id) (λ k. record k { message_id = x.id }) db.send_keys
        → Step source target m db after
    step-absorbed rows keys =
        let own = find_where_holds (by_id m.id) db.messages row waiting.1 in
        let at : row.id ≡ m.id = ground (arith, own) in
        let here : find_where (by_id m.id) (ordered x.id).messages ≡ some row =
          find-update-other m.id x.id (with_order order) db.messages (λ s. x_other (sym s))
            (λ y. refl)
          ∙ waiting.1 in
        record {
          carried =
              Carried-trans source target db (ordered x.id) after (Carried-merge_message_order x.id)
                (Carried-delete source target row (with_order order x) (ordered x.id) after
                  (ap (λ i. find_where (by_id i) (ordered x.id).messages) at ∙ here)
                  (find-update_self x.id (with_order order) db.messages x (λ y. refl) x_found)
                  (λ s. x_other (sym s ∙ at)) (x_provider ∙ sym waiting.2)
                  (inr (waiting.3, x_target))
                  (rows ∙ ap (λ i. delete_where (by_id i) (ordered x.id).messages) (sym at))
                  (keys
                    ∙ ap
                        (λ i.
                          update_where (key_of i) (λ k. record k { message_id = x.id })
                            db.send_keys)
                        (sym at)));
          unique = subst IsUnique (sym rows) (
              IsUnique-delete (by_id m.id) (ordered x.id).messages
                (IsUnique-merge_message_order x.id));
          stays = λ i y other e c.
              ap (find_where (by_id i)) rows
              ∙ (find_where-delete_other (by_id m.id) (by_id i) (ordered x.id).messages
                    (λ z h. ground arith)
                  ∙ (find-update-other i x.id (with_order order) db.messages (not_x i y e c)
                        (λ z. refl)
                      ∙ e));
          fewer =
              subst (λ rows. left_in source rows < left_in source db.messages) (sym rows)
                (omega (
                  arith,
                  left-delete-own source m.id (ordered x.id).messages row here waiting.3,
                  left-order source x.id order db.messages,
                ));
        }

    -- The row of the message with its order, in the target.
    abbrev winner : Message
    winner = moved_to target (with_order order row)

    abbrev placed : Database
    placed = record db {
      messages = update_where (by_id m.id) (moved_to target) (ordered m.id).messages;
    }

    row-with_order : find_where (by_id m.id) (ordered m.id).messages ≡ some (with_order order row)
    row-with_order = find-update_self m.id (with_order order) db.messages row (λ y. refl) waiting.1

    Carried-move_message : Carried source target (ordered m.id) placed
    Carried-move_message =
        Carried-update source target (by_id m.id) (moved_to target) (ordered m.id) placed
          (λ y. refl) (λ y. refl)
          (λ i y e hit.
            let own : y ≡ with_order order row =
              same_row i m.id (ordered m.id).messages y (with_order order row) e row-with_order
                hit in
            inr (ap (λ (z : Message). z.conversation_id) own ∙ waiting.3, refl))
          refl refl

    step-replaced :
        any (key_of x.id) db.send_keys ≡ false
        → after.messages
          ≡ update_where
              (by_id m.id)
              (moved_to target)
              (delete_where (by_id x.id) (ordered m.id).messages)
        → after.send_keys ≡ db.send_keys
        → Step source target m db after
    step-replaced free rows keys =
        let own = find_where_holds (by_id m.id) db.messages row waiting.1 in
        let at : row.id ≡ m.id = ground (arith, own) in
        let swapped : after.messages ≡ delete_where (by_id x.id) placed.messages =
          rows
          ∙ sym (
              delete-update x.id (by_id m.id) (moved_to target) (ordered m.id).messages (λ y. refl)
                (λ y. refl)) in
        let kept : find_where (by_id m.id) placed.messages ≡ some winner =
          find-update_self m.id (moved_to target) (ordered m.id).messages (with_order order row)
            (λ y. refl) row-with_order in
        let found : find_where (by_id x.id) placed.messages ≡ some x =
          find-update-other x.id m.id (moved_to target) (ordered m.id).messages x_other (λ y. refl)
          ∙ (find-update-other x.id m.id (with_order order) db.messages x_other (λ y. refl)
              ∙ x_found) in
        record {
          carried =
              Carried-trans source target db (ordered m.id) after (Carried-merge_message_order m.id)
                (Carried-trans source target (ordered m.id) placed after Carried-move_message (
                  Carried-delete source target x winner placed after found
                    (ap (λ i. find_where (by_id i) placed.messages) at ∙ kept)
                    (λ s. x_other (s ∙ at)) (waiting.2 ∙ sym x_provider) (inl (sym x_target))
                    swapped
                    (keys
                      ∙ sym (
                          update-none (key_of x.id) (λ k. record k { message_id = row.id })
                            db.send_keys free))));
          unique = subst IsUnique (sym swapped) (
              IsUnique-delete (by_id x.id) placed.messages (
                IsUnique-update (by_id m.id) (moved_to target) (ordered m.id).messages (λ y. refl)
                  (IsUnique-merge_message_order m.id)));
          stays = λ i y other e c.
              ap (find_where (by_id i)) swapped
              ∙ (find_where-delete_other (by_id x.id) (by_id i) placed.messages
                    (λ z h. let n = not_x i y e c in ground arith)
                  ∙ (find-update-other i m.id (moved_to target) (ordered m.id).messages other
                        (λ z. refl)
                      ∙ (find-update-other i m.id (with_order order) db.messages other (λ z. refl)
                          ∙ e)));
          fewer =
              subst (λ rows. left_in source rows < left_in source db.messages) (sym swapped)
                (omega (
                  arith,
                  left-delete source x.id placed.messages,
                  left-move-own source target m.id (ordered m.id).messages (with_order order row) ne
                      row-with_order waiting.3,
                  left-order source m.id order db.messages,
                ));
        }

  merge_shape : Shape target m db after → Step source target m db after
  merge_shape (Shape.moved free rows keys) = step-moved rows keys
  merge_shape (Shape.replaced x order twin free rows keys) =
      step-replaced x order twin free rows keys
  merge_shape (Shape.absorbed x order twin rows keys) = step-absorbed x order twin rows keys

-- A message of the source is merged.
pub merge_message-Step :
    (fresh : ℕ → ℕ) (source target : ℕ) (m : Message) (db after : Database)
    → target ≢ source
    → IsUnique db.messages
    → IsWaiting source m db.messages
    → merge_message fresh target m db ≡ ok after
    → Step source target m db after
merge_message-Step fresh source target m db after ne unique waiting e =
    merge_shape source target ne m db after unique waiting
      (merge_message-Shape fresh target m db after e)
