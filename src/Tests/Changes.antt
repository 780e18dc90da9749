-- ===== src/Tests/Changes.antt =====
-- The channels of the clients.
use convomeow.Base.{ℕ, ◌≡◌, refl, true, false, some, List, [], ◌∷◌, ◌++◌, arith}
use convomeow.App.Notifications.{ChangeType, Notification, Channel, Notifications, offer}
use convomeow.App.Notifications.Channels.{Op, apply, IsValid, apply-IsValid}
use convomeow.App.Notifications.Delivery.{Action, Run, run, act, seen, published, run-seen}

abbrev change : ℕ → Notification
change id = record {
  change = ChangeType.conversations;
  account_id = 1;
  conversation_id = id;
  attachment_id = 0;
}

abbrev channel : Channel
channel = record { id = 1; buffer = change 1 ∷ []; closed = false; registered = true }

abbrev notifications : Notifications
notifications = record { closed = false; channels = channel ∷ [] }

apply-IsValid_example :
    (after : Notifications) × (apply (Op.published (change 2)) notifications ≡ some after)
    × IsValid after
apply-IsValid_example = apply-IsValid (Op.published (change 2)) notifications ((ground arith), tt)

abbrev start : Run
start = record { channel = channel; received = [] }

abbrev last : Run
last = record {
  channel = record channel { buffer = change 2 ∷ change 3 ∷ [] };
  received = change 1 ∷ [];
}

abbrev actions : List Action
actions = Action.publish (change 2) ∷ Action.receive ∷ Action.publish (change 3) ∷ []

run-actions : run actions start ≡ some last
unfolding run act offer
run-actions = refl

run-seen_example : (true ≡ true) × (seen last ≡ seen start ++ published actions)
run-seen_example = run-seen actions start last run-actions refl
