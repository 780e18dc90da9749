-- ===== src/App/Activity/Bounds.antt =====
-- The activities stay within their limits.
use convomeow.Base.{
  ℕ, suc, ◌+◌, ◌*◌, ◌≤◌, ◌≡◌, refl, ap, ◌∙◌, inl, inr, Bool, true, ◌&&◌, not, Option, none, some,
  List, [], ◌∷◌, arith, leb, length, Bool-cases, All,
}
use convomeow.Base.Tables.{find_where, delete_where}
use convomeow.Core.{Result-cases}
use convomeow.App.Activity.{
  Activity, Lease, Chat, Sender, is_paused, is_expired, by_client, by_chat, flush_chat, put_chat,
  put_lease, update_leases, update_chat, update_found, update_activity, is_empty, any, second,
  new_chat,
}

-- At most 32 leases, and at least one.
abbrev pub is_kept : Chat → Bool
is_kept c = not (is_empty c.leases) && leb (length c.leases) 32

-- At most 256 conversations, each with one to 32 leases.
abbrev pub IsBounded : List Chat → Type 0
IsBounded chats = (length chats ≤ 256) × All (λ c. is_kept c ≡ true) chats

length-delete_where :
    {A : Type 0} (p : A → Bool) (xs : List A) → length (delete_where p xs) ≤ length xs
length-delete_where p [] = omega arith
length-delete_where p (x ∷ xs) = ground (arith, length-delete_where p xs)

length-put_lease : (l : Lease) (ls : List Lease) → length (put_lease l ls) ≤ suc (length ls)
unfolding put_lease
length-put_lease l [] = omega arith
length-put_lease l (x ∷ xs) = ground (arith, length-put_lease l xs)

length-put_known :
    (l : Lease) (ls : List Lease)
    → any (by_client l.client) ls ≡ true
    → length (put_lease l ls) ≡ length ls
unfolding put_lease
length-put_known l [] h = cc
length-put_known l (x ∷ xs) h = ground (arith, length-put_known l xs)

length-update_leases :
    (now client : ℕ) (activity : Activity) (ls after : List Lease)
    → update_leases now client activity ls ≡ some after
    → length ls ≤ 32
    → length after ≤ 32
unfolding update_leases
length-update_leases now client activity ls after e v =
    let l : Lease = record { client = client; activity = activity; expires = now + 10 * second } in
    ground (
      arith,
      length-delete_where (by_client client) ls,
      length-put_lease l ls,
      length-put_known l ls,
    )

leases-flush_chat :
    (now : ℕ) (sender : Sender) (c : Chat)
    → length (flush_chat now sender c).0.leases ≤ length c.leases
unfolding flush_chat
leases-flush_chat now sender c =
    ground (arith, length-delete_where (is_expired now) c.leases, Result-cases sender.answer)

put_chat-kept :
    (c : Chat) (chats : List Chat)
    → length c.leases ≤ 32
    → All (λ x. is_kept x ≡ true) chats
    → All (λ x. is_kept x ≡ true) (put_chat c chats)
unfolding put_chat
put_chat-kept c [] h v = elim (Bool-cases (is_empty c.leases)) [
  | inl e ↦ rw e tt
  | inr e ↦ rw e (ground (arith, e, h), tt)
]
put_chat-kept c (x ∷ xs) h v = elim (Bool-cases (by_chat c.id x)) [
  | inl here ↦ elim (Bool-cases (is_empty c.leases)) [
    | inl e ↦ rw (here, e) v.1
    | inr e ↦ rw (here, e) (ground (arith, e, h), v.1)
  ]
  | inr elsewhere ↦ rw elsewhere (v.0, put_chat-kept c xs h v.1)
]

length-put_chat : (c : Chat) (chats : List Chat) → length (put_chat c chats) ≤ suc (length chats)
unfolding put_chat
length-put_chat c [] = ground arith
length-put_chat c (x ∷ xs) = ground (arith, length-put_chat c xs)

length-put_found :
    (c d : Chat) (chats : List Chat)
    → find_where (by_chat c.id) chats ≡ some d
    → length (put_chat c chats) ≤ length chats
unfolding put_chat
length-put_found c d [] h = cc
length-put_found c d (x ∷ xs) h = ground (arith, length-put_found c d xs)

id-flush_chat : (now : ℕ) (sender : Sender) (c : Chat) → (flush_chat now sender c).0.id ≡ c.id
unfolding flush_chat
id-flush_chat now sender c = ground (arith, Result-cases sender.answer)

found-kept :
    (id : ℕ) (chats : List Chat) (c : Chat)
    → find_where (by_chat id) chats ≡ some c
    → All (λ x. is_kept x ≡ true) chats
    → (is_kept c ≡ true) × (c.id ≡ id)
found-kept id [] c e v = cc
found-kept id (x ∷ xs) c e v = elim (Bool-cases (by_chat id x)) [
  | inl here ↦ ground (arith, here, e, v.0)
  | inr elsewhere ↦ found-kept id xs c (ground (arith, elsewhere, e)) v.1
]

update_chat-IsBounded :
    (now : ℕ) (sender : Sender) (c : Chat) (o : Option (List Lease)) (chats : List Chat)
    → ((ls : List Lease) → o ≡ some ls → length ls ≤ 32)
    → ((d : Chat) → d.id ≡ c.id → length (put_chat d chats) ≤ 256)
    → IsBounded chats
    → IsBounded (update_chat now sender c o chats).0
update_chat-IsBounded now sender c none chats h room v = v
update_chat-IsBounded now sender c (some ls) chats h room v =
    let d = (flush_chat now sender (record c { leases = ls })).0 in
    (
      room d (id-flush_chat now sender (record c { leases = ls })),
      put_chat-kept d chats
          (omega (arith, leases-flush_chat now sender (record c { leases = ls }), h ls refl)) v.1,
    )

update_found-IsBounded :
    (now : ℕ) (sender : Sender) (id client : ℕ) (activity : Activity) (o : Option Chat)
    (chats : List Chat)
    → find_where (by_chat id) chats ≡ o
    → IsBounded chats
    → IsBounded (update_found now sender id client activity o chats).0
update_found-IsBounded now sender id client activity (some c) chats e v =
    let (kept, named) = found-kept id chats c e v.1 in
    update_chat-IsBounded now sender c (update_leases now client activity c.leases) chats
      (λ ls f. length-update_leases now client activity c.leases ls f (ground (arith, kept)))
      (λ d same. omega (
        arith,
        v.0,
        length-put_found d c chats (ap (λ i. find_where (by_chat i) chats) (same ∙ named) ∙ e),
      ))
      v
update_found-IsBounded now sender id client activity none chats e v =
    elim (Bool-cases (is_paused activity)) [
      | inl p ↦ rw p v
      | inr p ↦ elim (Bool-cases (leb 256 (length chats))) [
        | inl full ↦ rw (p, full) v
        | inr free ↦
            rw (p, free)
              (update_chat-IsBounded now sender (new_chat id) (update_leases now client activity [])
                chats (λ ls f. length-update_leases now client activity [] ls f (omega arith))
                (λ d same. ground (arith, free, length-put_chat d chats)) v)
      ]
    ]

-- Every change of an activity, whatever the provider answers, keeps the bounds: at most 256
-- conversations, and in each at least one lease and at most 32.
pub update_activity-IsBounded :
    (now : ℕ) (sender : Sender) (id client : ℕ) (activity : Activity) (chats : List Chat)
    → IsBounded chats
    → IsBounded (update_activity now sender id client activity chats).0
unfolding update_activity
update_activity-IsBounded now sender id client activity chats v =
    update_found-IsBounded now sender id client activity (find_where (by_chat id) chats) chats refl
      v
