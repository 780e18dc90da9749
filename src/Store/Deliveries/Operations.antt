-- ===== src/Store/Deliveries/Operations.antt =====
-- internal/store/sqlite/notifications.go: the operations on the subscriptions and their deliveries.
use convomeow.Base.{ℕ, ◌≡◌, refl, Bool, false, Option, List, [], ◌∷◌, arith}
use convomeow.Base.Tables.{any, delete_where}
use convomeow.Core.{Result, ok, err}
use convomeow.Store.Deliveries.{
  Session, Subscription, Deliveries, Claimed, enqueue, save_subscription, delete_subscription,
  delete_session, claim, finish,
}

pub data Op : Type 0 where
  enqueued : ℕ → ℕ → ℕ → Op
  saved : Subscription → ℕ → ℕ → Op
  deleted : ℕ → Session → Op
  ended : Session → Op
  claimed : ℕ → ℕ → Op
  finished : Claimed → ℕ → Op

abbrev kept : Deliveries → Result Deliveries → Deliveries
kept d (ok after) = after
kept d (err e) = d

abbrev pub kept_claim : Deliveries → Result (Option Claimed × Deliveries) → Deliveries
kept_claim d (ok (c, after)) = after
kept_claim d (err e) = d

-- An operation that fails leaves the tables as they were.
unfoldable pub apply : Op → Deliveries → Deliveries
unfolding enqueue save_subscription delete_subscription delete_session claim finish
apply (Op.enqueued message generation now) d = enqueue message generation now d
apply (Op.saved s fresh now) d = kept d (save_subscription s fresh now d)
apply (Op.deleted id owner) d = kept d (delete_subscription id owner d)
apply (Op.ended owner) d = delete_session owner d
apply (Op.claimed generation now) d = kept_claim d (claim generation now d)
apply (Op.finished c next) d = finish c next d

pub any-delete_where :
    {A : Type 0} (p q : A → Bool) (xs : List A)
    → any q xs ≡ false
    → any q (delete_where p xs) ≡ false
any-delete_where p q [] h = refl
any-delete_where p q (x ∷ xs) h = ground (arith, any-delete_where p q xs)
