-- ===== src/Tests/Deliveries.antt =====
-- The notifications of browsers.
use convomeow.Base.{◌≤◌, ◌<◌, ◌≡◌, refl, true, some, [], ◌∷◌}
use convomeow.Core.{ok}
use convomeow.Store.Deliveries.{Session, Subscription, Delivery, Deliveries, Claimed, claim, expire}
use convomeow.Base.Tables.{any}
use convomeow.Base.{List, false}
use convomeow.Store.Deliveries.{has_session, delete_session}
use convomeow.Store.Deliveries.Operations.{Op}
use convomeow.Store.Deliveries.Ended.{run, ended_session}
use convomeow.Store.Deliveries.Attempts.{claim-attempts}

abbrev session : Session
session = record { id = 3; generation = 1; expires_at = 9_000 }

abbrev subscription : Subscription
subscription = record {
  id = 2;
  endpoint = 4;
  keys = 5;
  session = session;
  locale = 0;
  preview = true;
}

abbrev job : Delivery
job = record {
  subscription_id = 2;
  message_id = 7;
  attempts = 4;
  available_at = 10;
  expires_at = 8_000;
}

abbrev deliveries : Deliveries
deliveries = record { subscriptions = subscription ∷ []; jobs = job ∷ []; revocations = [] }

-- A registration that was under way when the session ended comes too late.
abbrev late : List Op
late = Op.saved subscription 6 100 ∷ Op.claimed 1 200 ∷ Op.saved subscription 6 300 ∷ []

ended_session_example :
    any (has_session 3) (run late (delete_session session deliveries)).subscriptions ≡ false
ended_session_example = ended_session session late deliveries refl refl

abbrev fifth : Claimed
fifth = record { subscription = subscription; message_id = 7; attempts = 5; expires_at = 8_000 }

abbrev after_fifth : Deliveries
after_fifth = record deliveries {
  jobs = record job { attempts = 5; available_at = 30_000_000_100 } ∷ [];
}

claimed_fifth : claim 1 100 deliveries ≡ ok (some fifth, after_fifth)
unfolding claim expire
claimed_fifth = refl

claim-attempts_example : (1 ≤ 5) × (5 ≤ 5) × (100 < 8_000)
claim-attempts_example = claim-attempts 1 100 deliveries after_fifth fifth claimed_fifth
