-- ===== src/Tests/Typing.antt =====
-- Who composes.
use convomeow.Base.{◌≡◌, refl, true, [], ◌∷◌, arith}
use mathlib.Core.List.{perm_append_comm}
use convomeow.Core.{ok}
use convomeow.App.Activity.{Activity, Lease, Chat, Sender, state_of, update_activity}
use convomeow.App.Activity.Order.{state_of-order}
use convomeow.App.Activity.Bounds.{IsBounded, update_activity-IsBounded}

abbrev types : Lease
types = record { client = 1; activity = Activity.typing; expires = 100 }

abbrev records : Lease
records = record { client = 2; activity = Activity.recording; expires = 90 }

state_of-order_example :
    state_of Activity.paused (types ∷ records ∷ [])
    ≡ state_of Activity.paused (records ∷ types ∷ [])
state_of-order_example =
    state_of-order (types ∷ records ∷ []) (records ∷ types ∷ [])
      (perm_append_comm (types ∷ []) (records ∷ [])) (refl, (refl, tt))

abbrev chat : Chat
chat = record { id = 10; leases = types ∷ records ∷ []; sent = Activity.recording; sent_at = 5 }

abbrev sender : Sender
sender = record { connected = true; answer = ok tt }

update_activity-IsBounded_example :
    IsBounded (update_activity 95 sender 10 1 Activity.paused (chat ∷ [])).0
update_activity-IsBounded_example =
    update_activity-IsBounded 95 sender 10 1 Activity.paused (chat ∷ []) (omega arith, (refl, tt))
