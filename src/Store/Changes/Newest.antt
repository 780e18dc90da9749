-- ===== src/Store/Changes/Newest.antt =====
-- A message shows its newest edit and its newest deletion, in whatever order changes arrive.
use convomeow.Base.{
  ◌≡◌, refl, sym, ap, ◌∙◌, ◌⊎◌, inl, inr, Bool, true, false, Option, none, some, List, [], ◌∷◌,
  ◌++◌, arith, if◌then◌else◌, Bool-cases,
}
use convomeow.Base.{subst, All}
use convomeow.Base.Text.{text_eq_refl, eq_of_text_eq, text_lt, text_lt_irrefl, text_lt_trans}
use convomeow.Base.Tables.{any, any-append, All-mono}
use convomeow.Store.Tables.{Message, Alias}
use convomeow.Store.Changes.{
  Change, ChangeKind, is_kind, same_key, insert_change, save_change, is_complete, kept_rows, later,
  save_all, is_change_of, newer, latest, original, with_edit, with_revoke, attach_changes,
  is_complete, later,
}

newer_trans : (a b c : Change) → newer a b ≡ true → newer b c ≡ true → newer a c ≡ true
unfolding newer
newer_trans a b c h k = ground (arith, text_lt_trans c.event_id b.event_id a.event_id)

newer_irrefl : (a : Change) → newer a a ≡ false
unfolding newer
newer_irrefl a = ground (arith, text_lt_irrefl a.event_id)

-- The change is one of the list, with its text.
abbrev IsAmong : Change → List Change → Type 0
IsAmong e [] = ⊥
IsAmong e (c ∷ cs) = (e ≡ c) ⊎ IsAmong e cs

-- The newest of the changes that are of a kind.
abbrev pub IsNewest : (Change → Bool) → List Change → Option Change → Type 0
IsNewest p cs none = All (λ c. p c ≡ false) cs
IsNewest p cs (some e) = (p e ≡ true) × IsAmong e cs × All (λ c. p c ≡ true → newer c e ≡ false) cs

none_before :
    (p : Change → Bool) (x l : Change) (rows : List Change)
    → newer x l ≡ true
    → All (λ c. p c ≡ true → newer c l ≡ false) rows
    → All (λ c. p c ≡ true → newer c x ≡ false) rows
none_before p x l [] h a = tt
none_before p x l (c ∷ rows) h a =
    (λ k. ground (arith, newer_trans c x l, a.0 k), none_before p x l rows h a.1)

vacuous :
    (p : Change → Bool) (x : Change) (rows : List Change)
    → All (λ c. p c ≡ false) rows
    → All (λ c. p c ≡ true → newer c x ≡ false) rows
vacuous p x [] a = tt
vacuous p x (c ∷ rows) a = (λ k. cc (a.0, k), vacuous p x rows a.1)

picked :
    (p : Change → Bool) (c l : Change) (rows : List Change) (b : Bool)
    → newer c l ≡ b
    → p c ≡ true
    → p l ≡ true
    → IsAmong l rows
    → All (λ x. p x ≡ true → newer x l ≡ false) rows
    → IsNewest p (c ∷ rows) (some (if b then c else l))
picked p c l rows true n e h among a =
    (e, inl refl, (λ k. newer_irrefl c, none_before p c l rows n a))
picked p c l rows false n e h among a = (h, inr among, (λ k. n, a))

latest-IsNewest : (p : Change → Bool) (rows : List Change) → IsNewest p rows (latest p rows)
unfolding latest
latest-IsNewest p [] = tt
latest-IsNewest p (c ∷ rows) = newest_of (latest p rows) (latest-IsNewest p rows)
  where
    newest_of :
        (l : Option Change)
        → IsNewest p rows l
        → IsNewest p (c ∷ rows) (if p c then later c l else l)
    newest_of none a = elim (Bool-cases (p c)) [
      | inl e ↦ rw e (e, inl refl, (λ k. newer_irrefl c, vacuous p c rows a))
      | inr e ↦ rw e (e, a)
    ]
    newest_of (some l) (h, among, a) = elim (Bool-cases (p c)) [
      | inr e ↦ rw e (h, inr among, (λ k. cc (e, k), a))
      | inl e ↦ rw e (picked p c l rows (newer c l) refl e h among a)
    ]

abbrev next : Change → List Change → List Change
next c rows = kept_rows rows (save_change c rows)

next_cases :
    (c : Change) (rows : List Change) → (next c rows ≡ rows) ⊎ (next c rows ≡ rows ++ c ∷ [])
unfolding save_change insert_change
next_cases c rows = elim (Bool-cases (is_complete c)) [
  | inr e ↦ inl (rw e refl)
  | inl e ↦ elim (Bool-cases (any (same_key c) rows)) [
    | inl old ↦ inl (rw e (rw old refl))
    | inr new ↦ inr (rw e (rw new refl))
  ]
]

kind_refl : (k : ChangeKind) → is_kind k k ≡ true
kind_refl ChangeKind.edit = refl
kind_refl ChangeKind.revoke = refl

next_has :
    (c : Change) (rows : List Change) → is_complete c ≡ true → any (same_key c) (next c rows) ≡ true
unfolding save_change insert_change
next_has c rows e = elim (Bool-cases (any (same_key c) rows)) [
  | inl old ↦ rw e (rw old old)
  | inr new ↦ rw e (
      rw new (
        ground (
          arith,
          any-append (same_key c) rows (c ∷ []),
          kind_refl c.kind,
          text_eq_refl c.event_id,
        )))
]

IsAmong-append :
    (e : Change) (rows cs : List Change) → IsAmong e (rows ++ cs) → IsAmong e rows ⊎ IsAmong e cs
IsAmong-append e [] cs a = inr a
IsAmong-append e (r ∷ rows) cs (inl a) = inl (inl a)
IsAmong-append e (r ∷ rows) cs (inr a) = elim (IsAmong-append e rows cs a) [
  | inl b ↦ inl (inr b)
  | inr b ↦ inr b
]

-- The table against the changes that were saved.
IsAmong-save_all :
    (e : Change) (cs rows : List Change)
    → IsAmong e (save_all cs rows)
    → IsAmong e rows ⊎ IsAmong e cs
unfolding save_all
IsAmong-save_all e [] rows a = inl a
IsAmong-save_all e (c ∷ cs) rows a = elim (IsAmong-save_all e cs (next c rows) a) [
  | inr late ↦ inr (inr late)
  | inl early ↦ elim (next_cases c rows) [
    | inl same ↦ inl (subst (IsAmong e) same early)
    | inr more ↦ elim (IsAmong-append e rows (c ∷ []) (subst (IsAmong e) more early)) [
      | inl b ↦ inl b
      | inr (inl b) ↦ inr (inl b)
      | inr (inr b) ↦ elim b [ ]
    ]
  ]
]

kept :
    (k : Change) (cs rows : List Change)
    → any (same_key k) rows ≡ true
    → any (same_key k) (save_all cs rows) ≡ true
unfolding save_all
kept k [] rows h = h
kept k (c ∷ cs) rows h = kept k cs (next c rows) (elim (next_cases c rows) [
  | inl same ↦ ap (any (same_key k)) same ∙ h
  | inr more ↦ ap (any (same_key k)) more ∙ ground (arith, any-append (same_key k) rows (c ∷ []), h)
])

covered :
    (cs rows : List Change)
    → All (λ c. is_complete c ≡ true) cs
    → All (λ c. any (same_key c) (save_all cs rows) ≡ true) cs
unfolding save_all
covered [] rows a = tt
covered (c ∷ cs) rows a =
    (kept c cs (next c rows) (next_has c rows a.0), covered cs (next c rows) a.1)

-- Two changes of one key are of the same messages, and as new.
abbrev Respects : (Change → Bool) → Type 0
Respects p = (a b : Change) → same_key a b ≡ true → p a ≡ p b

newer-same_key : (a b e : Change) → same_key a b ≡ true → newer b e ≡ newer a e
unfolding newer
newer-same_key a b e h =
    ground (arith, ap (text_lt e.event_id) (eq_of_text_eq a.event_id b.event_id (ground arith)))

lift_newest :
    (p : Change → Bool) (c e : Change) (rows : List Change)
    → Respects p
    → any (same_key c) rows ≡ true
    → All (λ r. p r ≡ true → newer r e ≡ false) rows
    → p c ≡ true
    → newer c e ≡ false
lift_newest p c e [] q h a k = cc
lift_newest p c e (r ∷ rows) q h a k = elim (Bool-cases (same_key c r)) [
  | inl same ↦ sym (newer-same_key c r e same) ∙ a.0 (sym (q c r same) ∙ k)
  | inr differs ↦ lift_newest p c e rows q (ground (arith, differs, h)) a.1 k
]

lift_none :
    (p : Change → Bool) (c : Change) (rows : List Change)
    → Respects p
    → any (same_key c) rows ≡ true
    → All (λ r. p r ≡ false) rows
    → p c ≡ false
lift_none p c [] q h a = cc
lift_none p c (r ∷ rows) q h a = elim (Bool-cases (same_key c r)) [
  | inl same ↦ q c r same ∙ a.0
  | inr differs ↦ lift_none p c rows q (ground (arith, differs, h)) a.1
]

saved-IsNewest :
    (p : Change → Bool) (cs : List Change) (l : Option Change)
    → Respects p
    → All (λ c. is_complete c ≡ true) cs
    → IsNewest p (save_all cs []) l
    → IsNewest p cs l
saved-IsNewest p cs none q a n =
    All-mono (λ c. any (same_key c) (save_all cs []) ≡ true) (λ c. p c ≡ false) cs
      (λ c h. lift_none p c (save_all cs []) q h n) (covered cs [] a)
saved-IsNewest p cs (some e) q a (h, among, n) = (
  h,
  elim (IsAmong-save_all e cs [] among) [ inl b ↦ absurd b | inr b ↦ b ],
  All-mono (λ c. any (same_key c) (save_all cs []) ≡ true) (λ c. p c ≡ true → newer c e ≡ false) cs
      (λ c k. lift_newest p c e (save_all cs []) q k n) (covered cs [] a),
)

kind_eq : (a b k : ChangeKind) → is_kind a b ≡ true → is_kind a k ≡ is_kind b k
kind_eq ChangeKind.edit ChangeKind.edit k h = refl
kind_eq ChangeKind.revoke ChangeKind.revoke k h = refl
kind_eq ChangeKind.edit ChangeKind.revoke k h = cc
kind_eq ChangeKind.revoke ChangeKind.edit k h = cc

change-Respects :
    (aliases : List Alias) (m : Message) (kind : ChangeKind)
    → Respects (is_change_of aliases m kind)
change-Respects aliases m kind a b h =
    let account : a.account_id ≡ b.account_id = ground arith in
    let chat : a.chat_id ≡ b.chat_id = ground arith in
    let target : a.target_id ≡ b.target_id = ground arith in
    let same = kind_eq a.kind b.kind kind (ground arith) in rw (same, account, chat, target)

-- Whatever the order in which complete changes were saved into an empty table, a message shows the
-- newest edit of it that was saved, and the time of its newest deletion; without an edit it shows
-- its own text, and without a deletion no such time. Newer means a later millisecond, or the same
-- one and a greater event. The edit and the deletion are among the changes that were saved.
pub attach_changes-IsNewest :
    (aliases : List Alias) (m : Message) (cs : List Change)
    → All (λ c. is_complete c ≡ true) cs
    → (e : Option Change) × (r : Option Change) × IsNewest
        (is_change_of aliases m ChangeKind.edit)
        cs
        e
      × IsNewest (is_change_of aliases m ChangeKind.revoke) cs r
      × (attach_changes aliases (save_all cs []) m ≡ with_revoke r (with_edit e (original m)))
unfolding attach_changes
attach_changes-IsNewest aliases m cs a =
    let edit = is_change_of aliases m ChangeKind.edit in
    let revoke = is_change_of aliases m ChangeKind.revoke in
    let rows = save_all cs [] in
    (
      latest edit rows,
      latest revoke rows,
      saved-IsNewest edit cs (latest edit rows) (change-Respects aliases m ChangeKind.edit) a
          (latest-IsNewest edit rows),
      saved-IsNewest revoke cs (latest revoke rows) (change-Respects aliases m ChangeKind.revoke) a
          (latest-IsNewest revoke rows),
      refl,
    )
