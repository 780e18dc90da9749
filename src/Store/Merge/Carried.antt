-- ===== src/Store/Merge/Carried.antt =====
-- What a merge keeps: every message of before is found again, and so is every key of a send.
use convomeow.Base.{
  ℕ, ◌≡◌, refl, sym, ap, ◌∙◌, ◌≢◌, ◌⊎◌, inl, inr, Bool, true, false, some, List, [], ◌∷◌, arith,
  ◌==◌, if◌then◌else◌, Bool-cases,
}
use convomeow.Base.Tables.{
  find_where, any, update_where, delete_where, find_where-update_where, find_where-delete_other,
}
use convomeow.Store.Tables.{Message, SendKey, Database}
use convomeow.Store.Messages.{by_id, by_key}
use convomeow.Store.MergeParts.{key_of}

-- The conversation of a message is the one of before, or the target in place of the source.
abbrev pub Follows : ℕ → ℕ → ℕ → ℕ → Type 0
Follows source target old new = (new ≡ old) ⊎ ((old ≡ source) × (new ≡ target))

-- The keys that stand for `i` before stand for `j` afterwards, for the same request.
abbrev pub KeysFollow : ℕ → ℕ → List SendKey → List SendKey → Type 0
KeysFollow i j old new =
    (actor key : ℕ) (k : SendKey)
    → find_where (by_key actor key) old ≡ some k
    → k.message_id ≡ i
    → (k' : SendKey) × (find_where (by_key actor key) new ≡ some k')
      × (k'.request_hash ≡ k.request_hash)
      × (k'.message_id ≡ j)

-- A message of before is afterwards the message `j`.
abbrev pub IsMessage : ℕ → ℕ → Message → ℕ → Database → Type 0
IsMessage source target x j db =
    (y : Message) × (find_where (by_id j) db.messages ≡ some y)
    × (y.provider_message_id ≡ x.provider_message_id)
    × Follows source target x.conversation_id y.conversation_id

abbrev pub Carried : ℕ → ℕ → Database → Database → Type 0
Carried source target old new =
    (i : ℕ) (x : Message)
    → find_where (by_id i) old.messages ≡ some x
    → (j : ℕ) × IsMessage source target x j new × KeysFollow i j old.send_keys new.send_keys

Follows-trans :
    (source target a b c : ℕ)
    → Follows source target a b
    → Follows source target b c
    → Follows source target a c
Follows-trans source target a b c (inl p) (inl q) = inl (q ∙ p)
Follows-trans source target a b c (inl p) (inr q) = inr (sym p ∙ q.0, q.1)
Follows-trans source target a b c (inr p) (inl q) = inr (p.0, q ∙ p.1)
Follows-trans source target a b c (inr p) (inr q) = inr (p.0, q.1)

pub Carried-trans :
    (source target : ℕ) (a b c : Database)
    → Carried source target a b
    → Carried source target b c
    → Carried source target a c
Carried-trans source target a b c f g i x e =
    let (j, (y, found, same, follows), keys) = f i x e in
    let (k, (z, found', same', follows'), keys') = g j y found in
    (
      k,
      (
        z,
        found',
        same' ∙ same,
        Follows-trans source target x.conversation_id y.conversation_id z.conversation_id follows
            follows',
      ),
      λ actor key s h t.
          let (s1, h1, r1, t1) = keys actor key s h t in
          let (s2, h2, r2, t2) = keys' actor key s1 h1 t1 in (s2, h2, r2 ∙ r1, t2),
    )

-- The identifiers are the primary key.
abbrev pub IsUnique : List Message → Type 0
IsUnique [] = Unit {0}
IsUnique (m ∷ ms) = (any (by_id m.id) ms ≡ false) × IsUnique ms

any-find :
    (p : Message → Bool) (rows : List Message) (x : Message)
    → find_where p rows ≡ some x
    → any (by_id x.id) rows ≡ true
any-find p [] x e = cc
any-find p (m ∷ rows) x e = ground (arith, any-find p rows x)

pub some_inj : {x y : Message} → some x ≡ some y → x ≡ y
some_inj e = ground arith

-- A row that is found by another condition is the row of its identifier.
pub find-own :
    (p : Message → Bool) (rows : List Message) (x : Message)
    → IsUnique rows
    → find_where p rows ≡ some x
    → find_where (by_id x.id) rows ≡ some x
find-own p [] x u e = cc
find-own p (m ∷ rows) x u e = elim (Bool-cases (p m)) [
  | inl here ↦ ground (arith, here, e)
  | inr there ↦
      let f : find_where p rows ≡ some x = ground (arith, there, e) in
      elim (Bool-cases (m.id == x.id)) [
        | inl same ↦
            let eq : m.id ≡ x.id = ground (arith, same) in
            let n : any (by_id m.id) rows ≡ true =
              ap (λ i. any (by_id i) rows) eq ∙ any-find p rows x f in
            cc (n, u.0)
        | inr other ↦ ground (arith, other, find-own p rows x u.1 f)
      ]
]

pub any-update-id :
    (i : ℕ) (p : Message → Bool) (f : Message → Message) (rows : List Message)
    → ((x : Message) → (f x).id ≡ x.id)
    → any (by_id i) (update_where p f rows) ≡ any (by_id i) rows
any-update-id i p f [] h = refl
any-update-id i p f (x ∷ rows) h = ground (arith, h x, any-update-id i p f rows h)

pub any-delete :
    (q p : Message → Bool) (rows : List Message)
    → any q rows ≡ false
    → any q (delete_where p rows) ≡ false
any-delete q p [] h = refl
any-delete q p (x ∷ rows) h = ground (arith, any-delete q p rows)

pub IsUnique-update :
    (p : Message → Bool) (f : Message → Message) (rows : List Message)
    → ((x : Message) → (f x).id ≡ x.id)
    → IsUnique rows
    → IsUnique (update_where p f rows)
IsUnique-update p f [] h u = tt
IsUnique-update p f (x ∷ rows) h u =
    let same : (if p x then f x else x).id ≡ x.id = ground (arith, h x) in
    (
      ap (λ i. any (by_id i) (update_where p f rows)) same ∙ (any-update-id x.id p f rows h ∙ u.0),
      IsUnique-update p f rows h u.1,
    )

pub IsUnique-delete :
    (p : Message → Bool) (rows : List Message) → IsUnique rows → IsUnique (delete_where p rows)
IsUnique-delete p [] u = tt
IsUnique-delete p (x ∷ rows) u = elim (Bool-cases (p x)) [
  | inl e ↦ rw e (IsUnique-delete p rows u.1)
  | inr e ↦ rw e (any-delete (by_id x.id) p rows u.0, IsUnique-delete p rows u.1)
]

module _ (source target : ℕ) where
  -- An update that keeps identifiers and provider messages, with the same keys.
  pub Carried-update :
      (p : Message → Bool) (f : Message → Message) (old new : Database)
      → ((x : Message) → (f x).id ≡ x.id)
      → ((x : Message) → (f x).provider_message_id ≡ x.provider_message_id)
      → ((i : ℕ) (x : Message)
          → find_where (by_id i) old.messages ≡ some x
          → p x ≡ true
          → Follows source target x.conversation_id (f x).conversation_id)
      → new.messages ≡ update_where p f old.messages
      → new.send_keys ≡ old.send_keys
      → Carried source target old new
  Carried-update p f old new ids providers follows rows keys i x e =
      let found : find_where (by_id i) new.messages ≡ some (if p x then f x else x) =
        ap (find_where (by_id i)) rows
        ∙ (find_where-update_where p (by_id i) f old.messages (λ y h. ap (λ j. j == i) (ids y))
            ∙ rw e refl) in
      (
        i,
        elim (Bool-cases (p x)) [
          | inl hit ↦ (f x, found ∙ rw hit refl, providers x, follows i x e hit)
          | inr miss ↦ (x, found ∙ rw miss refl, refl, inl refl)
        ],
        λ actor key k h t. (k, ap (find_where (by_key actor key)) keys ∙ h, refl, t),
      )

  found_key :
      (d t actor key : ℕ) (old : List SendKey) (k : SendKey)
      → find_where (by_key actor key) old ≡ some k
      → find_where
          (by_key actor key)
          (update_where (key_of d) (λ k. record k { message_id = t }) old)
        ≡ some (if k.message_id == d then record k { message_id = t } else k)
  found_key d t actor key old k h =
      find_where-update_where (key_of d) (by_key actor key) (λ k. record k { message_id = t }) old
        (λ k e. refl)
      ∙ rw h refl

  -- A deletion whose message has a twin, which takes over the keys.
  pub Carried-delete :
      (d t : Message) (old new : Database)
      → find_where (by_id d.id) old.messages ≡ some d
      → find_where (by_id t.id) old.messages ≡ some t
      → d.id ≢ t.id
      → t.provider_message_id ≡ d.provider_message_id
      → Follows source target d.conversation_id t.conversation_id
      → new.messages ≡ delete_where (by_id d.id) old.messages
      → new.send_keys
        ≡ update_where (key_of d.id) (λ k. record k { message_id = t.id }) old.send_keys
      → Carried source target old new
  Carried-delete d t old new hd ht ne same follows rows keys i x e = elim (Bool-cases (i == d.id)) [
    | inl hit ↦
        let at : i ≡ d.id = ground (arith, hit) in
        let own : x ≡ d =
          some_inj (sym e ∙ (ap (λ j. find_where (by_id j) old.messages) at ∙ hd)) in
        (
          t.id,
          (
            t,
            ap (find_where (by_id t.id)) rows
                ∙ (find_where-delete_other (by_id d.id) (by_id t.id) old.messages
                      (λ y h. ground arith)
                    ∙ ht),
            same ∙ ap (λ (y : Message). y.provider_message_id) (sym own),
            rw own follows,
          ),
          λ actor key k h to. (
            record k { message_id = t.id },
            ap (find_where (by_key actor key)) keys
                ∙ (found_key d.id t.id actor key old.send_keys k h ∙ ground arith),
            refl,
            refl,
          ),
        )
    | inr miss ↦ (
      i,
      (
        x,
        ap (find_where (by_id i)) rows
            ∙ (find_where-delete_other (by_id d.id) (by_id i) old.messages (λ y h. ground arith)
                ∙ e),
        refl,
        inl refl,
      ),
      λ actor key k h to. (
        k,
        ap (find_where (by_key actor key)) keys
            ∙ (found_key d.id t.id actor key old.send_keys k h ∙ ground arith),
        refl,
        to,
      ),
    )
  ]
