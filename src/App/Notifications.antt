-- ===== src/App/Notifications.antt =====
-- internal/app/notifications.go: the channels of the clients that follow the changes.
pub mod Channels
pub mod Delivery
use convomeow.Base.{
  ℕ, ◌+◌, Bool, true, false, ◌&&◌, not, Option, none, some, List, [], ◌∷◌, ◌++◌, map, ltb, ◌==◌,
  if◌then◌else◌, length,
}

-- `ChangeType`
pub data ChangeType : Type 0 where
  presence accounts conversations attachment contacts avatars : ChangeType

-- `Notification`, less the transient part of a presence.
pub record Notification : Type 0 where
  pub change : ChangeType
  pub account_id : ℕ
  pub conversation_id : ℕ
  pub attachment_id : ℕ

-- A channel of notifications; `registered` says whether `subscribers` has it as a key.
pub record Channel : Type 0 where
  pub id : ℕ
  pub buffer : List Notification
  pub closed : Bool
  pub registered : Bool

-- `notifications`
pub record Notifications : Type 0 where
  pub closed : Bool
  pub channels : List Channel

-- `make(chan Notification, 64)`
abbrev pub capacity : ℕ
capacity = 64

-- `close(ch)`, with the deletion beside it; closing a channel twice panics.
abbrev pub close_channel : Channel → Option Channel
close_channel ch =
    if ch.closed then none else some (record ch { closed = true; registered = false })

-- A send that does not wait: into the buffer if there is room, and else the channel is closed. A
-- send on a closed channel panics.
unfoldable pub offer : Notification → Channel → Option Channel
offer change ch =
    if not ch.registered
    then some ch
    else if ch.closed
    then none
    else if ltb (length ch.buffer) capacity
    then some (record ch { buffer = ch.buffer ++ change ∷ [] })
    else close_channel ch

infixl 5 ◌>>=◌
abbrev pub ◌>>=◌ {κ ℓ} : {V : Type κ} {W : Type ℓ} → Option V → (V → Option W) → Option W
some made >>= next = next made
none >>= next = none

-- The loop over the channels; it panics where one step does.
abbrev pub each : (Channel → Option Channel) → List Channel → Option (List Channel)
each f [] = some []
each f (ch ∷ chs) = do first ← f ch; rest ← each f chs; some (first ∷ rest)

abbrev with_channels : Notifications → Option (List Channel) → Option Notifications
with_channels n none = none
with_channels n (some chs) = some (record n { channels = chs })

-- `publish`
pub publish : Notification → Notifications → Option Notifications
publish change n = with_channels n (each (offer change) n.channels)

-- `Subscribe`, for the channel that it makes.
pub subscribe : ℕ → Notifications → Notifications
subscribe id n = record n {
  channels =
      record { id = id; buffer = []; closed = n.closed; registered = not n.closed } ∷ n.channels;
}

abbrev pub leave : ℕ → Channel → Option Channel
leave id ch = if ch.id == id && ch.registered then close_channel ch else some ch

-- The function that `Subscribe` returns.
pub unsubscribe : ℕ → Notifications → Option Notifications
unsubscribe id n = with_channels n (each (leave id) n.channels)

abbrev pub shut : Channel → Option Channel
shut ch = if ch.registered then close_channel ch else some ch

-- `closeNotifications`
pub close_notifications : Notifications → Option Notifications
close_notifications n = with_channels (record n { closed = true }) (each shut n.channels)

abbrev pub tail_of : List Notification → List Notification
tail_of [] = []
tail_of (n ∷ ns) = ns

abbrev pub head_of : List Notification → Option Notification
head_of [] = none
head_of (n ∷ ns) = some n

-- A receive on one channel, which a client does.
pub receive : ℕ → Notifications → Notifications
receive id n = record n {
  channels =
      map (λ (ch : Channel). if ch.id == id then record ch { buffer = tail_of ch.buffer } else ch)
        n.channels;
}
