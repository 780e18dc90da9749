-- ===== src/Store/Merge/Pages.antt =====
-- The loop of `merge_pages`: every message of the source gets its turn, and the loop ends.
use convomeow.Base.{
  ℕ, zero, suc, ◌+◌, ◌≤◌, ◌<◌, ◌≡◌, refl, ap, ◌≢◌, inl, inr, Bool, false, Option, none, some, List,
  [], ◌∷◌, arith, length, Bool-cases, subst,
}
use convomeow.Base.{All, take, subst}
use convomeow.Base.Tables.{find_where, any, select_where}
use convomeow.Core.{Result, ok, err, >>=-eq-ok}
use convomeow.Store.Tables.{Message, Database}
use convomeow.Store.Messages.{by_id}
use convomeow.Store.Merge.{
  merge_message, merge_page, merge_pages, with_page, with_merged, page_of, in_conversation,
}
use convomeow.Store.Merge.Carried.{Carried, Carried-trans, IsUnique}
use convomeow.Store.Merge.Rows.{left_in}
use convomeow.Store.Merge.Steps.{IsWaiting, Step, merge_message-Step}

-- Every message of a page waits for its turn, and each is there once.
abbrev AreWaiting : ℕ → List Message → List Message → Type 0
AreWaiting source [] rows = Unit {0}
AreWaiting source (m ∷ page) rows =
    IsWaiting source m rows × (any (by_id m.id) page ≡ false) × AreWaiting source page rows

any-taken :
    (i n : ℕ) (p : Message → Bool) (rows : List Message)
    → any (by_id i) rows ≡ false
    → any (by_id i) (take n (select_where p rows)) ≡ false
any-taken i zero p rows h = refl
any-taken i (suc n) p [] h = refl
any-taken i (suc n) p (x ∷ rows) h =
    ground (arith, any-taken i n p rows, any-taken i (suc n) p rows)

-- Each row is found by its identifier.
abbrev IsOwn : List Message → Message → Type 0
IsOwn rows y = find_where (by_id y.id) rows ≡ some y

IsOwn-behind :
    (x : Message) (rows ys : List Message)
    → any (by_id x.id) ys ≡ false
    → All (IsOwn rows) ys
    → All (IsOwn (x ∷ rows)) ys
IsOwn-behind x rows [] h a = tt
IsOwn-behind x rows (y ∷ ys) h a =
    (ground (arith, h, a.0), IsOwn-behind x rows ys (ground (arith, h)) a.1)

All-IsOwn : (rows : List Message) → IsUnique rows → All (IsOwn rows) rows
All-IsOwn [] u = tt
All-IsOwn (x ∷ rows) u = (ground arith, IsOwn-behind x rows rows u.0 (All-IsOwn rows u.1))

page-AreWaiting :
    (source n : ℕ) (rows xs : List Message)
    → All (IsOwn rows) xs
    → IsUnique xs
    → AreWaiting source (take n (select_where (in_conversation source) xs)) rows
page-AreWaiting source zero rows xs own u = tt
page-AreWaiting source (suc n) rows [] own u = tt
page-AreWaiting source (suc n) rows (x ∷ xs) own u = elim (Bool-cases (in_conversation source x)) [
  | inl here ↦ rw here (
    (x, own.0, refl, ground (arith, here)),
    any-taken x.id n (in_conversation source) xs u.0,
    page-AreWaiting source n rows xs own.1 u.1,
  )
  | inr there ↦ rw there (page-AreWaiting source (suc n) rows xs own.1 u.1)
]

still_waiting :
    (source target : ℕ) (m : Message) (db after : Database) (page : List Message)
    → Step source target m db after
    → any (by_id m.id) page ≡ false
    → AreWaiting source page db.messages
    → AreWaiting source page after.messages
still_waiting source target m db after [] step h w = tt
still_waiting source target m db after (x ∷ page) step h ((r, found, same, inside), once, w) = (
  (r, step.stays x.id r (λ e. ground arith) found inside, same, inside),
  once,
  still_waiting source target m db after page step (ground (arith, h)) w,
)

pub record Merged (source target : ℕ) (db after : Database) : Type 0 where
  pub carried : Carried source target db after
  pub unique : IsUnique after.messages

pub Carried-refl : (source target : ℕ) (db : Database) → Carried source target db db
Carried-refl source target db i x e =
    (i, (x, e, refl, inl refl), λ actor key k h t. (k, h, refl, t))

module _ (fresh : ℕ → ℕ) (source target : ℕ) (ne : target ≢ source) where
  merge_page-Merged :
      (page : List Message) (db after : Database)
      → IsUnique db.messages
      → AreWaiting source page db.messages
      → merge_page fresh target page db ≡ ok after
      → Merged source target db after
        × (left_in source after.messages + length page ≤ left_in source db.messages)
  unfolding merge_page
  merge_page-Merged [] db after u w e =
      let same : db ≡ after = ground arith in
      (
        subst (Merged source target db) same
            (record { carried = Carried-refl source target db; unique = u }),
        omega (arith, ap (λ (d : Database). left_in source d.messages) same),
      )
  merge_page-Merged (m ∷ page) db after u (w, once, ws) e =
      let (mid, f, g) =
        >>=-eq-ok {W = Database} (merge_message fresh target m db) (merge_page fresh target page)
          {end = after} e in
      let step = merge_message-Step fresh source target m db mid ne u w f in
      let (rest, fewer) =
        merge_page-Merged page mid after step.unique
          (still_waiting source target m db mid page step once ws) g in
      (
        record {
          carried = Carried-trans source target db mid after step.carried rest.carried;
          unique = rest.unique;
        },
        omega (arith, fewer, step.fewer),
      )

  page-waits :
      (db : Database) → IsUnique db.messages → AreWaiting source (page_of source db) db.messages
  page-waits db u = page-AreWaiting source 100 db.messages db.messages (All-IsOwn db.messages u) u

  abbrev Ends : (Database → Option (Result Database)) → ℕ → Type 0
  Ends next bound =
      (db : Database) → IsUnique db.messages → left_in source db.messages < bound → next db ≢ none

  merged-total :
      (next : Database → Option (Result Database)) (bound : ℕ) (r : Result Database)
      → Ends next bound
      → ((db : Database) → r ≡ ok db → IsUnique db.messages × (left_in source db.messages < bound))
      → with_merged next r ≢ none
  merged-total next bound (ok db) ends h = ends db (h db refl).0 (h db refl).1
  merged-total next bound (err e) ends h = λ f. cc

  page-total :
      (next : Database → Option (Result Database)) (bound : ℕ) (db : Database) (page : List Message)
      → Ends next bound
      → IsUnique db.messages
      → AreWaiting source page db.messages
      → left_in source db.messages < suc bound
      → with_page next fresh target db page ≢ none
  page-total next bound db [] ends u w lt = λ f. cc
  page-total next bound db (m ∷ rest) ends u w lt =
      merged-total next bound (merge_page fresh target (m ∷ rest) db) ends (λ mid e.
        let (all, fewer) = merge_page-Merged (m ∷ rest) db mid u w e in
        (all.unique, omega (arith, fewer, lt)))

  -- Each round but the last takes at least one message out of the source.
  pub merge_pages-total :
      (fuel : ℕ) (db : Database)
      → IsUnique db.messages
      → left_in source db.messages < fuel
      → merge_pages fresh fuel target source db ≢ none
  unfolding merge_pages
  merge_pages-total zero db u lt = absurd (omega arith)
  merge_pages-total (suc fuel) db u lt =
      page-total (merge_pages fresh fuel target source) fuel db (page_of source db)
        (merge_pages-total fuel) u (page-waits db u) lt

  -- What is so once the loop has ended: all is kept, and the source is empty.
  abbrev pub IsDone : Database → Database → Type 0
  IsDone db after = Merged source target db after × (page_of source after ≡ [])

  abbrev Does : (Database → Option (Result Database)) → Type 0
  Does next =
      (db after : Database) → IsUnique db.messages → next db ≡ some (ok after) → IsDone db after

  Merged-finish :
      (next : Database → Option (Result Database)) (db after : Database) (r : Result Database)
      → Does next
      → ((mid : Database) → r ≡ ok mid → Merged source target db mid)
      → with_merged next r ≡ some (ok after)
      → IsDone db after
  Merged-finish next db after (err e) does h f = cc
  Merged-finish next db after (ok mid) does h f =
      let first = h mid refl in
      let (rest, empty) = does mid after first.unique f in
      (
        record {
          carried = Carried-trans source target db mid after first.carried rest.carried;
          unique = rest.unique;
        },
        empty,
      )

  merge_page-ends :
      (next : Database → Option (Result Database)) (db after : Database) (page : List Message)
      → Does next
      → IsUnique db.messages
      → page_of source db ≡ page
      → with_page next fresh target db page ≡ some (ok after)
      → IsDone db after
  merge_page-ends next db after [] does u p e =
      let same : db ≡ after = ground arith in
      subst (IsDone db) same (record { carried = Carried-refl source target db; unique = u }, p)
  merge_page-ends next db after (m ∷ rest) does u p e =
      Merged-finish next db after (merge_page fresh target (m ∷ rest) db) does
        (λ mid f.
          (merge_page-Merged (m ∷ rest) db mid u
            (subst (λ page. AreWaiting source page db.messages) p (page-waits db u)) f).0)
        e

  pub merge_pages-ends :
      (fuel : ℕ) (db after : Database)
      → IsUnique db.messages
      → merge_pages fresh fuel target source db ≡ some (ok after)
      → IsDone db after
  unfolding merge_pages
  merge_pages-ends zero db after u e = cc
  merge_pages-ends (suc fuel) db after u e =
      merge_page-ends (merge_pages fresh fuel target source) db after (page_of source db)
        (merge_pages-ends fuel) u refl e

taken-nil : (n : ℕ) (rows : List Message) → take (suc n) rows ≡ [] → rows ≡ []
taken-nil n [] h = refl
taken-nil n (x ∷ rows) h = ground arith

none_selected :
    (source : ℕ) (rows : List Message) (i : ℕ) (y : Message)
    → select_where (in_conversation source) rows ≡ []
    → find_where (by_id i) rows ≡ some y
    → y.conversation_id ≢ source
none_selected source [] i y h e = cc
none_selected source (x ∷ rows) i y h e = λ same. ground (arith, none_selected source rows i y)

-- No message is in a conversation whose first page is empty.
pub none_left :
    (source : ℕ) (db : Database) (i : ℕ) (y : Message)
    → page_of source db ≡ []
    → find_where (by_id i) db.messages ≡ some y
    → y.conversation_id ≢ source
none_left source db i y h e =
    none_selected source db.messages i y
      (taken-nil 99 (select_where (in_conversation source) db.messages) h) e
