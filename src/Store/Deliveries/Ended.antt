-- ===== src/Store/Deliveries/Ended.antt =====
-- A session that was ended stays without subscriptions until its time is over.
use convomeow.Base.{
  ℕ, ◌<◌, ◌≡◌, refl, ap, ◌∙◌, inl, inr, Bool, true, false, ◌&&◌, ◌||◌, not, Option, none, some,
  List, [], ◌∷◌, arith, ltb, leb, ◌==◌, Bool-cases, Option-cases,
}
use convomeow.Base.Tables.{find_where, any, update_where, delete_where, any-append}
use convomeow.Core.{ok, Result-cases, >>=-eq-ok, invalid, fail_if}
use convomeow.Store.Deliveries.{
  Session, Subscription, Delivery, Revocation, Deliveries, has_session, is_revoked, enqueue,
  save_over, save_subscription, resubscribed, delete_subscription, delete_session, expire, claim,
  claim_found, finish, soonest, due, by_endpoint, is_owned,
}
use convomeow.Store.Deliveries.Operations.{Op, apply, kept_claim, any-delete_where}

-- The revocation of a session, with the time at which it may go.
abbrev is_revocation : ℕ → ℕ → Revocation → Bool
is_revocation id until r = r.session_id == id && r.expires_at == until

-- The session is revoked, and has no subscription.
abbrev pub IsEnded : ℕ → ℕ → Deliveries → Type 0
IsEnded id until d =
    (any (is_revocation id until) d.revocations ≡ true)
    × (any (has_session id) d.subscriptions ≡ false)

-- A worker looks for deliveries only before the session's time is over.
abbrev pub is_before : ℕ → Op → Bool
is_before until (Op.claimed generation now) = ltb now until
is_before until _ = true

unfoldable pub run : List Op → Deliveries → Deliveries
run [] d = d
run (op ∷ ops) d = run ops (apply op d)

is_revoked-of :
    (id until : ℕ) (rs : List Revocation)
    → any (is_revocation id until) rs ≡ true
    → any (λ r. r.session_id == id) rs ≡ true
is_revoked-of id until [] h = cc
is_revoked-of id until (r ∷ rs) h = ground (arith, is_revoked-of id until rs)

any-live :
    (id until now : ℕ) (rs : List Revocation)
    → now < until
    → any (is_revocation id until) rs ≡ true
    → any (is_revocation id until) (delete_where (λ r. leb r.expires_at now) rs) ≡ true
any-live id until now [] l h = cc
any-live id until now (r ∷ rs) l h = ground (arith, any-live id until now rs l)

any-resubscribed :
    (id : ℕ) (s : Subscription) (p : Subscription → Bool) (subs : List Subscription)
    → (s.session.id == id) ≡ false
    → any (has_session id) subs ≡ false
    → any (has_session id) (update_where p (resubscribed s) subs) ≡ false
any-resubscribed id s p [] n h = refl
any-resubscribed id s p (x ∷ subs) n h = ground (arith, n, any-resubscribed id s p subs n)

save_over-IsEnded :
    (id until : ℕ) (o : Option Subscription) (s : Subscription) (fresh : ℕ) (d after : Deliveries)
    → (s.session.id == id) ≡ false
    → save_over o s fresh d ≡ ok after
    → IsEnded id until d
    → IsEnded id until after
save_over-IsEnded id until none s fresh d after n e v =
    ground (arith, v, n, any-append (has_session id) d.subscriptions (record s { id = fresh } ∷ []))
save_over-IsEnded id until (some old) s fresh d after n e v =
    ground (arith, v, n, any-resubscribed id s (by_endpoint s.endpoint) d.subscriptions n)

save-IsEnded :
    (id until : ℕ) (s : Subscription) (fresh now : ℕ) (d after : Deliveries)
    → save_subscription s fresh now d ≡ ok after
    → IsEnded id until d
    → IsEnded id until after
unfolding save_subscription
save-IsEnded id until s fresh now d after e v =
    let (u, f, g) =
      >>=-eq-ok
        (fail_if (s.session.id == 0 || (s.session.generation == 0 || leb s.session.expires_at now))
          invalid)
        _ e in
    let (u2, f2, g2) = >>=-eq-ok (fail_if (is_revoked s.session.id d) invalid) _ g in
    elim (Bool-cases (s.session.id == id)) [
      | inl same ↦
          let own : s.session.id ≡ id = ground arith in
          let gone : is_revoked s.session.id d ≡ true =
            ap (λ i. is_revoked i d) own ∙ is_revoked-of id until d.revocations v.0 in
          ground (arith, f2, gone)
      | inr other ↦
          save_over-IsEnded id until (find_where (by_endpoint s.endpoint) d.subscriptions) s fresh d
            after other g2 v
    ]

delete_session-IsEnded :
    (id until : ℕ) (owner : Session) (d : Deliveries)
    → IsEnded id until d
    → IsEnded id until (delete_session owner d)
unfolding delete_session
delete_session-IsEnded id until owner d v =
    let subs = any-delete_where (has_session owner.id) (has_session id) d.subscriptions v.1 in
    elim (Bool-cases (is_revoked owner.id d)) [
      | inl e ↦ rw e (v.0, subs)
      | inr e ↦ rw e (
        any-append (is_revocation id until) d.revocations
              (record { session_id = owner.id; expires_at = owner.expires_at } ∷ [])
            ∙ rw v.0 refl,
        subs,
      )
    ]

expire-IsEnded :
    (id until generation now : ℕ) (d : Deliveries)
    → now < until
    → IsEnded id until d
    → IsEnded id until (expire generation now d)
unfolding expire
expire-IsEnded id until generation now d l v = (
  any-live id until now d.revocations l v.0,
  any-delete_where (λ s. not (s.session.generation == generation) || leb s.session.expires_at now)
      (has_session id) d.subscriptions v.1,
)

claim_found-IsEnded :
    (id until now : ℕ) (d live : Deliveries) (o : Option Delivery)
    → IsEnded id until d
    → IsEnded id until live
    → IsEnded id until (kept_claim d (claim_found now live o))
claim_found-IsEnded id until now d live none v u = u
claim_found-IsEnded id until now d live (some j) v u =
    elim (Option-cases
      (find_where (λ (s : Subscription). s.id == j.subscription_id) live.subscriptions)) [
        | inl e ↦ rw e v
        | inr (s, e) ↦ rw e u
      ]

apply-IsEnded :
    (id until : ℕ) (op : Op) (d : Deliveries)
    → is_before until op ≡ true
    → IsEnded id until d
    → IsEnded id until (apply op d)
unfolding apply enqueue delete_subscription claim finish
apply-IsEnded id until (Op.enqueued message generation now) d b v = v
apply-IsEnded id until (Op.saved s fresh now) d b v =
    elim (Result-cases (save_subscription s fresh now d)) [
      | inl (after, e) ↦ rw e (save-IsEnded id until s fresh now d after e v)
      | inr (failure, e) ↦ rw e v
    ]
apply-IsEnded id until (Op.deleted i owner) d b v =
    elim (Bool-cases (any (is_owned i owner) d.subscriptions)) [
      | inl e ↦ rw e (v.0, any-delete_where (is_owned i owner) (has_session id) d.subscriptions v.1)
      | inr e ↦ rw e v
    ]
apply-IsEnded id until (Op.ended owner) d b v = delete_session-IsEnded id until owner d v
apply-IsEnded id until (Op.claimed generation now) d b v =
    let live = expire generation now d in
    claim_found-IsEnded id until now d live (soonest (due now live.jobs)) v
      (expire-IsEnded id until generation now d (ground (arith, b)) v)
apply-IsEnded id until (Op.finished c next) d b v = elim (Bool-cases (next == 0)) [
  | inl e ↦ rw e v
  | inr e ↦ rw e v
]

run-IsEnded :
    (id until : ℕ) (ops : List Op) (d : Deliveries)
    → any (λ op. not (is_before until op)) ops ≡ false
    → IsEnded id until d
    → IsEnded id until (run ops d)
unfolding run
run-IsEnded id until [] d b v = v
run-IsEnded id until (op ∷ ops) d b v =
    run-IsEnded id until ops (apply op d) (ground (arith, b))
      (apply-IsEnded id until op d (ground (arith, b)) v)

any-revoked :
    (id until : ℕ) (rs : List Revocation)
    → any (λ r. r.session_id == id && not (r.expires_at == until)) rs ≡ false
    → any (λ r. r.session_id == id) rs ≡ true
    → any (is_revocation id until) rs ≡ true
any-revoked id until [] n h = cc
any-revoked id until (r ∷ rs) n h = ground (arith, any-revoked id until rs)

any-delete_own :
    (id : ℕ) (subs : List Subscription)
    → any (has_session id) (delete_where (has_session id) subs) ≡ false
any-delete_own id [] = refl
any-delete_own id (s ∷ subs) = ground (arith, any-delete_own id subs)

end-IsEnded :
    (owner : Session) (d : Deliveries)
    → any (λ r. r.session_id == owner.id && not (r.expires_at == owner.expires_at)) d.revocations
      ≡ false
    → IsEnded owner.id owner.expires_at (delete_session owner d)
unfolding delete_session
end-IsEnded owner d n = elim (Bool-cases (is_revoked owner.id d)) [
  | inl e ↦ rw e (
    any-revoked owner.id owner.expires_at d.revocations n e,
    any-delete_own owner.id d.subscriptions,
  )
  | inr e ↦ rw e (
    any-append (is_revocation owner.id owner.expires_at) d.revocations
          (record { session_id = owner.id; expires_at = owner.expires_at } ∷ [])
        ∙ ground arith,
    any-delete_own owner.id d.subscriptions,
  )
]

-- A session that was ended has no subscription, and gets none by any operations that follow, as long
-- as workers look for deliveries before the session's time is over. A revocation of the session that
-- is there already has the session's time.
pub ended_session :
    (owner : Session) (ops : List Op) (d : Deliveries)
    → any (λ r. r.session_id == owner.id && not (r.expires_at == owner.expires_at)) d.revocations
      ≡ false
    → any (λ op. not (is_before owner.expires_at op)) ops ≡ false
    → any (has_session owner.id) (run ops (delete_session owner d)).subscriptions ≡ false
ended_session owner ops d n b =
    (run-IsEnded owner.id owner.expires_at ops (delete_session owner d) b (end-IsEnded owner d n)).1
