-- ===== src/App/Notifications/Channels.antt =====
-- No operation on the notifications panics, and no buffer outgrows its channel.
use convomeow.Base.{
  ℕ, ◌≤◌, ◌≡◌, refl, inl, inr, Bool, true, false, ◌&&◌, not, Option, some, List, [], ◌∷◌, map,
  arith, ◌==◌, if◌then◌else◌, length, Option-cases, length-append,
}
use convomeow.Base.Lists.{All}
use convomeow.App.Notifications.{
  Notification, Channel, Notifications, capacity, offer, each, publish, subscribe, leave,
  unsubscribe, shut, close_notifications, tail_of, receive,
}

-- The registered channels are those that are open, and a buffer holds what it may.
abbrev pub IsOpen : Channel → Type 0
IsOpen ch = (ch.registered ≡ not ch.closed) × (length ch.buffer ≤ capacity)

abbrev pub IsShut : Bool → Channel → Type 0
IsShut b ch = IsOpen ch × ((b && ch.registered) ≡ false)

abbrev pub IsValid : Notifications → Type 0
IsValid n = All (IsShut n.closed) n.channels

-- What clients and the service do.
pub data Op : Type 0 where
  published : Notification → Op
  subscribed unsubscribed received : ℕ → Op
  service_closed : Op

unfoldable pub apply : Op → Notifications → Option Notifications
apply (published change) n = publish change n
apply (subscribed id) n = some (subscribe id n)
apply (unsubscribed id) n = unsubscribe id n
apply (received id) n = some (receive id n)
apply service_closed n = close_notifications n

each-All :
    {P Q : Channel → Type 0} (f : Channel → Option Channel) (chs : List Channel)
    → ((ch : Channel) → P ch → (after : Channel) × (f ch ≡ some after) × Q after)
    → All P chs
    → (after : List Channel) × (each f chs ≡ some after) × All Q after
each-All f [] h v = ([], refl, tt)
each-All f (ch ∷ chs) h v =
    let (a, e, q) = h ch v.0 in
    let (rest, e2, q2) = each-All f chs h v.1 in (a ∷ rest, rw (e, e2) refl, (q, q2))

map-All :
    {P : Channel → Type 0} (f : Channel → Channel) (chs : List Channel)
    → ((ch : Channel) → P ch → P (f ch))
    → All P chs
    → All P (map f chs)
map-All f [] h v = tt
map-All f (ch ∷ chs) h v = (h ch v.0, map-All f chs h v.1)

offer-IsShut :
    (b : Bool) (change : Notification) (ch : Channel)
    → IsShut b ch
    → (after : Channel) × (offer change ch ≡ some after) × IsShut b after
unfolding offer
offer-IsShut b change ch v = elim (Option-cases (offer change ch)) [
  | inl e ↦ ground (arith, e)
  | inr (after, e) ↦ (after, e, ground (arith, length-append ch.buffer (change ∷ [])))
]

leave-IsShut :
    (b : Bool) (id : ℕ) (ch : Channel)
    → IsShut b ch
    → (after : Channel) × (leave id ch ≡ some after) × IsShut b after
leave-IsShut b id ch v = elim (Option-cases (leave id ch)) [
  | inl e ↦ ground (arith, e)
  | inr (after, e) ↦ (after, e, ground arith)
]

shut-IsShut :
    (b : Bool) (ch : Channel)
    → IsShut b ch
    → (after : Channel) × (shut ch ≡ some after) × IsShut true after
shut-IsShut b ch v = elim (Option-cases (shut ch)) [
  | inl e ↦ ground (arith, e)
  | inr (after, e) ↦ (after, e, ground arith)
]

length-tail_of : (ns : List Notification) → length (tail_of ns) ≤ length ns
length-tail_of [] = omega arith
length-tail_of (n ∷ ns) = omega arith

received-IsShut :
    (b : Bool) (id : ℕ) (ch : Channel)
    → IsShut b ch
    → IsShut b (if ch.id == id then record ch { buffer = tail_of ch.buffer } else ch)
received-IsShut b id ch v = ground (arith, length-tail_of ch.buffer)

subscribe-IsValid : (id : ℕ) (n : Notifications) → IsValid n → IsValid (subscribe id n)
unfolding subscribe
subscribe-IsValid id n v = (
  (
    (refl, omega arith),
    elim n.closed as (λ b. (b && not b) ≡ false) [ true ↦ refl | false ↦ refl ],
  ),
  v,
)

-- From a valid state every operation succeeds, so no channel is closed twice and nothing is sent on
-- a closed one, and the state that it leaves is valid: the registered channels are the open ones,
-- no buffer holds more than 64 notifications, and after the service has closed none is open.
pub apply-IsValid :
    (op : Op) (n : Notifications)
    → IsValid n
    → (after : Notifications) × (apply op n ≡ some after) × IsValid after
unfolding apply publish unsubscribe close_notifications receive
apply-IsValid (Op.published change) n v =
    let (chs, e, q) = each-All (offer change) n.channels (offer-IsShut n.closed change) v in
    (record n { channels = chs }, rw e refl, q)
apply-IsValid (Op.subscribed id) n v = (subscribe id n, refl, subscribe-IsValid id n v)
apply-IsValid (Op.unsubscribed id) n v =
    let (chs, e, q) = each-All (leave id) n.channels (leave-IsShut n.closed id) v in
    (record n { channels = chs }, rw e refl, q)
apply-IsValid (Op.received id) n v = (
  receive id n,
  refl,
  map-All (λ (ch : Channel). if ch.id == id then record ch { buffer = tail_of ch.buffer } else ch)
      n.channels (received-IsShut n.closed id) v,
)
apply-IsValid Op.service_closed n v =
    let (chs, e, q) = each-All shut n.channels (shut-IsShut n.closed) v in
    (record n { channels = chs; closed = true }, rw e refl, q)
