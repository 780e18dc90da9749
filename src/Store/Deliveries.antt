-- ===== src/Store/Deliveries.antt =====
-- internal/store/sqlite/notifications.go: the browsers that subscribed to notifications, and the
-- jobs that deliver them.
pub mod Operations
pub mod Ended
pub mod Attempts
use convomeow.Core.{◌>>◌}
use convomeow.Core.{◌>>=◌}
use convomeow.Base.{
  ℕ, suc, ◌+◌, ◌*◌, Bool, ◌&&◌, ◌||◌, not, Option, none, some, List, [], ◌∷◌, ◌++◌, ltb, leb, ◌==◌,
  if◌then◌else◌,
}
use convomeow.Base.Tables.{find_where, any, update_where, delete_where}
use convomeow.Core.{Result, ok, err, invalid, not_found, fail_if, or_fail, second}

-- `notifications.Session`
pub record Session : Type 0 where
  pub id : ℕ
  pub generation : ℕ
  pub expires_at : ℕ

-- `browser_subscriptions`; `keys` stands for the two keys of the browser.
pub record Subscription : Type 0 where
  pub id : ℕ
  pub endpoint : ℕ
  pub keys : ℕ
  pub session : Session
  pub locale : ℕ
  pub preview : Bool

-- `notification_jobs`
pub record Delivery : Type 0 where
  pub subscription_id : ℕ
  pub message_id : ℕ
  pub attempts : ℕ
  pub available_at : ℕ
  pub expires_at : ℕ

-- `notification_revocations`
pub record Revocation : Type 0 where
  pub session_id : ℕ
  pub expires_at : ℕ

pub record Deliveries : Type 0 where
  pub subscriptions : List Subscription
  pub jobs : List Delivery
  pub revocations : List Revocation

abbrev pub has_session : ℕ → Subscription → Bool
has_session id s = s.session.id == id

abbrev pub is_revoked : ℕ → Deliveries → Bool
is_revoked id d = any (λ r. r.session_id == id) d.revocations

-- `ON DELETE CASCADE`: the jobs of a subscription go with it.
abbrev pub delete_subscriptions : (Subscription → Bool) → Deliveries → Deliveries
delete_subscriptions p d = record d {
  subscriptions = delete_where p d.subscriptions;
  jobs = delete_where (λ j. any (λ s. s.id == j.subscription_id && p s) d.subscriptions) d.jobs;
}

abbrev insert_job : ℕ → ℕ → ℕ → ℕ → List Delivery → List Delivery
insert_job subscription message now lifetime jobs =
    if any (λ j. j.subscription_id == subscription && j.message_id == message) jobs
    then jobs
    else jobs
      ++ record {
        subscription_id = subscription;
        message_id = message;
        attempts = 0;
        available_at = now;
        expires_at = now + lifetime;
      }
        ∷ []

abbrev pub insert_jobs : List Subscription → ℕ → ℕ → ℕ → ℕ → List Delivery → List Delivery
insert_jobs [] message generation now lifetime jobs = jobs
insert_jobs (s ∷ ss) message generation now lifetime jobs =
    insert_jobs ss message generation now lifetime (
      if s.session.generation == generation && ltb now s.session.expires_at
      then insert_job s.id message now lifetime jobs
      else jobs)

-- `notifications.Lifetime`, five minutes
abbrev pub lifetime : ℕ
lifetime = 300 * second

-- `enqueueNotificationsTx`
pub enqueue : ℕ → ℕ → ℕ → Deliveries → Deliveries
enqueue message generation now d = record d {
  jobs = insert_jobs d.subscriptions message generation now lifetime d.jobs;
}

abbrev by_endpoint : ℕ → Subscription → Bool
by_endpoint e s = s.endpoint == e

-- The row that a subscription updates keeps its identifier, its keys and its generation.
abbrev pub resubscribed : Subscription → Subscription → Subscription
resubscribed new old = record old {
  session = record old.session { id = new.session.id; expires_at = new.session.expires_at };
  locale = new.locale;
  preview = new.preview;
}

abbrev pub save_over : Option Subscription → Subscription → ℕ → Deliveries → Result Deliveries
save_over none s fresh d =
    ok (record d { subscriptions = d.subscriptions ++ record s { id = fresh } ∷ [] })
save_over (some old) s fresh d =
    if not (old.keys == s.keys) || not (old.session.generation == s.session.generation)
    then err invalid
    else ok (record d {
      subscriptions = update_where (by_endpoint s.endpoint) (resubscribed s) d.subscriptions;
      jobs =
          if old.session.id == s.session.id
          then d.jobs
          else delete_where (λ j. j.subscription_id == old.id) d.jobs;
    })

-- `SaveSubscription`
pub save_subscription : Subscription → ℕ → ℕ → Deliveries → Result Deliveries
save_subscription s fresh now d = do
  fail_if (s.session.id == 0 || (s.session.generation == 0 || leb s.session.expires_at now)) invalid
  fail_if (is_revoked s.session.id d) invalid
  save_over (find_where (by_endpoint s.endpoint) d.subscriptions) s fresh d

abbrev is_owned : ℕ → Session → Subscription → Bool
is_owned id owner s =
    s.id == id && (s.session.id == owner.id && s.session.generation == owner.generation)

-- `DeleteSubscription`
pub delete_subscription : ℕ → Session → Deliveries → Result Deliveries
delete_subscription id owner d =
    if any (is_owned id owner) d.subscriptions
    then ok (delete_subscriptions (is_owned id owner) d)
    else err not_found

-- `DeleteNotificationSession`
pub delete_session : Session → Deliveries → Deliveries
delete_session owner d = delete_subscriptions (has_session owner.id) (
    if is_revoked owner.id d then d else record d {
      revocations =
          d.revocations ++ record { session_id = owner.id; expires_at = owner.expires_at } ∷ [];
    })

-- `ORDER BY available_at LIMIT 1`
abbrev pub soonest : List Delivery → Option Delivery
soonest [] = none
soonest (j ∷ js) = elim (soonest js) [
  | none ↦ some j
  | some k ↦ if ltb k.available_at j.available_at then some k else some j
]

abbrev pub due : ℕ → List Delivery → List Delivery
due now [] = []
due now (j ∷ js) = let rest = due now js in if leb j.available_at now then j ∷ rest else rest

-- What `ClaimNotification` deletes first.
unfoldable pub expire : ℕ → ℕ → Deliveries → Deliveries
expire generation now d =
    let live =
      delete_subscriptions
        (λ s. not (s.session.generation == generation) || leb s.session.expires_at now)
        (record d { revocations = delete_where (λ r. leb r.expires_at now) d.revocations }) in
    record live { jobs = delete_where (λ j. leb j.expires_at now || leb 5 j.attempts) live.jobs }

abbrev pub same_job : Delivery → Delivery → Bool
same_job j k = k.subscription_id == j.subscription_id && k.message_id == j.message_id

-- `notifications.Job`
pub record Claimed : Type 0 where
  pub subscription : Subscription
  pub message_id : ℕ
  pub attempts : ℕ
  pub expires_at : ℕ

abbrev pub claim_found : ℕ → Deliveries → Option Delivery → Result (Option Claimed × Deliveries)
claim_found now d none = ok (none, d)
claim_found now d (some j) = do
  s ←
      or_fail (find_where (λ (s : Subscription). s.id == j.subscription_id) d.subscriptions)
        not_found
  ok (
    some (record {
      subscription = s;
      message_id = j.message_id;
      attempts = suc j.attempts;
      expires_at = j.expires_at;
    }),
    record d {
      jobs =
          update_where (same_job j)
            (λ k. record k { attempts = suc j.attempts; available_at = now + 30 * second }) d.jobs;
    },
  )

-- `ClaimNotification`
unfoldable pub claim : ℕ → ℕ → Deliveries → Result (Option Claimed × Deliveries)
unfolding expire
claim generation now d =
    let live = expire generation now d in claim_found now live (soonest (due now live.jobs))

-- `FinishNotification`; a time of 0 asks for no further attempt.
pub finish : Claimed → ℕ → Deliveries → Deliveries
finish c next d =
    if next == 0
    then record d {
      jobs =
          delete_where (λ j. j.subscription_id == c.subscription.id && j.message_id == c.message_id)
            d.jobs;
    }
    else record d {
      jobs =
          update_where
            (λ j.
              j.subscription_id == c.subscription.id
              && (j.message_id == c.message_id && j.attempts == c.attempts))
            (λ j. record j { available_at = next }) d.jobs;
    }
