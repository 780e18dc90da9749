-- ===== src/App/Activity.antt =====
-- internal/app/activity.go: who composes in which conversation, as the provider is told.
pub mod Bounds
pub mod Order
use convomeow.Base.{
  ℕ, ◌+◌, ◌-◌, ◌*◌, Bool, true, false, ◌&&◌, ◌||◌, not, Option, none, some, List, [], ◌∷◌, ltb, leb,
  ◌==◌, if◌then◌else◌, length,
}
use convomeow.Base.Tables.{find_where, any, delete_where}
use convomeow.Core.{Result, ok, err, conflict, not_connected, second}

-- `core.ChatActivity`
pub data Activity : Type 0 where
  typing recording paused : Activity

-- `activityLease`, with the client that it is kept under
pub record Lease : Type 0 where
  pub client : ℕ
  pub activity : Activity
  pub expires : ℕ

-- `chatActivity`, with the conversation that it is kept under, less its timer
pub record Chat : Type 0 where
  pub id : ℕ
  pub leases : List Lease
  pub sent : Activity
  pub sent_at : ℕ

abbrev pub is_recording : Activity → Bool
is_recording Activity.recording = true
is_recording _ = false

abbrev pub is_paused : Activity → Bool
is_paused Activity.paused = true
is_paused _ = false

abbrev same_activity : Activity → Activity → Bool
same_activity Activity.typing Activity.typing = true
same_activity Activity.recording Activity.recording = true
same_activity Activity.paused Activity.paused = true
same_activity _ _ = false

-- What the loop over the leases makes of a state.
abbrev pub next_state : Activity → Lease → Activity
next_state s l = if is_recording s then s else l.activity

pub state_of : Activity → List Lease → Activity
state_of s [] = s
state_of s (l ∷ ls) = state_of (next_state s l) ls

abbrev pub is_expired : ℕ → Lease → Bool
is_expired now l = leb l.expires now

-- Whether the account is connected and what the provider answers.
pub record Sender : Type 0 where
  pub connected : Bool
  pub answer : Result (Unit {0})

abbrev sent_state : ℕ → Activity → Chat → Result (Unit {0}) → Chat × Result (Unit {0})
sent_state now state chat (ok u) = (record chat { sent = state; sent_at = now }, ok tt)
sent_state now state chat (err e) = (chat, err e)

-- `flushActivityLocked`, less the entry of the conversation and its timer.
pub flush_chat : ℕ → Sender → Chat → Chat × Result (Unit {0})
unfolding state_of
flush_chat now sender chat =
    let left = record chat { leases = delete_where (is_expired now) chat.leases } in
    let state = state_of Activity.paused left.leases in
    if same_activity state chat.sent && (is_paused state || ltb (now - chat.sent_at) (3 * second))
    then (left, ok tt)
    else if sender.connected
    then sent_state now state left sender.answer
    else (left, err not_connected)

abbrev pub by_chat : ℕ → Chat → Bool
by_chat id c = c.id == id

abbrev pub is_empty : List Lease → Bool
is_empty [] = true
is_empty (l ∷ ls) = false

-- The entry of a conversation: it goes with its last lease.
pub put_chat : Chat → List Chat → List Chat
put_chat c [] = if is_empty c.leases then [] else c ∷ []
put_chat c (x ∷ xs) =
    let rest = put_chat c xs in
    if by_chat c.id x then (if is_empty c.leases then xs else c ∷ xs) else x ∷ rest

-- The lease of a client, in place of the one that it had.
pub put_lease : Lease → List Lease → List Lease
put_lease l [] = l ∷ []
put_lease l (x ∷ xs) =
    let rest = put_lease l xs in if x.client == l.client then l ∷ xs else x ∷ rest

abbrev pub by_client : ℕ → Lease → Bool
by_client client l = l.client == client

-- What `updateActivity` makes of the leases; `none` if there are too many.
pub update_leases : ℕ → ℕ → Activity → List Lease → Option (List Lease)
unfolding put_lease
update_leases now client activity leases =
    if is_paused activity
    then some (delete_where (by_client client) leases)
    else if not (any (by_client client) leases) && leb 32 (length leases)
    then none
    else some (
        put_lease (record { client = client; activity = activity; expires = now + 10 * second })
          leases)

abbrev pub flush_into : List Chat → Chat × Result (Unit {0}) → List Chat × Result (Unit {0})
flush_into chats (c, r) = (put_chat c chats, r)

abbrev pub update_chat :
    ℕ → Sender → Chat → Option (List Lease) → List Chat → List Chat × Result (Unit {0})
update_chat now sender c none chats = (chats, err conflict)
update_chat now sender c (some leases) chats =
    flush_into chats (flush_chat now sender (record c { leases = leases }))

-- The conversation that has no entry yet.
abbrev pub new_chat : ℕ → Chat
new_chat id = record { id = id; leases = []; sent = Activity.paused; sent_at = 0 }

-- What `updateActivity` does by the entry that it finds.
abbrev pub update_found :
    ℕ → Sender → ℕ → ℕ → Activity → Option Chat → List Chat → List Chat × Result (Unit {0})
update_found now sender id client activity (some c) chats =
    update_chat now sender c (update_leases now client activity c.leases) chats
update_found now sender id client activity none chats =
    if is_paused activity
    then (chats, ok tt)
    else if leb 256 (length chats)
    then (chats, err conflict)
    else update_chat now sender (new_chat id) (update_leases now client activity []) chats

-- `updateActivity`
pub update_activity : ℕ → Sender → ℕ → ℕ → Activity → List Chat → List Chat × Result (Unit {0})
unfolding update_leases flush_chat put_chat
update_activity now sender id client activity chats =
    update_found now sender id client activity (find_where (by_chat id) chats) chats
