-- ===== src/App/Session/Steps.antt =====
-- The service in every order of its operations: the accounts stay valid.
use convomeow.Base.{
  ℕ, suc, ◌≡◌, refl, sym, inl, inr, Bool, true, false, ◌&&◌, not, some, List, [], ◌∷◌, arith, ◌==◌,
  if◌then◌else◌, Bool-cases, All, subst,
}
use convomeow.Base.Tables.{update_where}
use convomeow.Core.{Result, ok, err, Error, Result-cases, fail_if}
use convomeow.Core.{>>=-eq-ok, invalid}
use convomeow.App.Session.{
  change, by_account, LoginState, Runtime, Service, Answers, Event, handle, on_event, set_error,
}
use convomeow.App.Session.Logins.{
  begin_generation, start_login, pair, claim_login, show_challenge, finish_login, finish_runtime,
  is_session, start_pairing,
}
use convomeow.App.Session.Accounts.{new_runtime, is_label, create_account, connect_failed}
use convomeow.App.Session.Valid.{
  is_valid, set_error-is_valid, handle-is_valid, finish_runtime-is_valid, show_challenge-is_valid,
}

abbrev pub IsValid : Service → Type 0
IsValid s = All (λ rt. is_valid rt ≡ true) s.accounts

-- One step of the service: a request, an event of a provider, or what a login reports. Each comes
-- with what the provider and the store answer.
pub data Step : Service → Service → Type 0 where
  created :
      (label : List ℕ) (id : ℕ) (stored : Result (Unit {0})) {s after : Service}
      → create_account label id stored s ≡ ok after
      → Step s after
  started :
      (w : Answers) (id attempt : ℕ) (made : Result ℕ) {s : Service}
      → Step s (start_login w id attempt made s).0
  challenged :
      (id generation session challenge : ℕ) {s : Service}
      → Step s (show_challenge id generation session challenge s)
  finished :
      (w : Answers) (id session : ℕ) (outcome : Result (Unit {0})) {s : Service}
      → Step s (finish_login w id session outcome s)
  received :
      (w : Answers) (id generation : ℕ) (event : Event) {s : Service}
      → Step s (on_event w id generation event s)
  unconnected : (id : ℕ) (e : Error) {s : Service} → Step s (connect_failed id e s)
  closed : {s : Service} → Step s (record s { closing = true })

pub data Steps : Service → Service → Type 0 where
  done : {s : Service} → Steps s s
  more : {s t u : Service} → Step s t → Steps t u → Steps s u

update_where-All :
    {P : Runtime → Type 0} (p : Runtime → Bool) (f : Runtime → Runtime) (rows : List Runtime)
    → ((rt : Runtime) → P rt → P (f rt))
    → All P rows
    → All P (update_where p f rows)
update_where-All p f [] h v = tt
update_where-All p f (rt ∷ rows) h v = elim (Bool-cases (p rt)) [
  | inl e ↦ rw e (h rt v.0, update_where-All p f rows h v.1)
  | inr e ↦ rw e (v.0, update_where-All p f rows h v.1)
]

change-IsValid :
    (id : ℕ) (f : Runtime → Runtime) (s : Service)
    → ((rt : Runtime) → is_valid rt ≡ true → is_valid (f rt) ≡ true)
    → IsValid s
    → IsValid (change id f s)
change-IsValid id f s h v = update_where-All (by_account id) f s.accounts h v

begin_generation-IsValid : (id : ℕ) (s : Service) → IsValid s → IsValid (begin_generation id s)
begin_generation-IsValid id s v =
    change-IsValid id (λ rt. record rt { generation = suc rt.generation }) s (λ rt h. h) v

pair-IsValid :
    (id attempt : ℕ) (made : Result ℕ) (cleared : Result (Unit {0})) (s : Service)
    → IsValid s
    → IsValid (pair id attempt made cleared s).0
pair-IsValid id attempt made (err e) s v = v
pair-IsValid id attempt (err e) (ok u) s v = begin_generation-IsValid id s v
pair-IsValid id attempt (ok session) (ok u) s v =
    change-IsValid id (start_pairing attempt session) (begin_generation id s) (λ rt h. refl)
      (begin_generation-IsValid id s v)

claim_login-accounts :
    (id : ℕ) (s claimed : Service) → claim_login id s ≡ ok claimed → claimed.accounts ≡ s.accounts
unfolding claim_login
claim_login-accounts id s claimed e = ground arith

event-is_valid :
    (w : Answers) (generation : ℕ) (e : Event) (rt : Runtime)
    → is_valid rt ≡ true
    → is_valid (if rt.generation == generation then handle w e rt else rt) ≡ true
event-is_valid w generation e rt v = elim (Bool-cases (rt.generation == generation)) [
  | inl now ↦ rw now (handle-is_valid w e rt v)
  | inr old ↦ rw old v
]

start_login-IsValid :
    (w : Answers) (id attempt : ℕ) (made : Result ℕ) (s : Service)
    → IsValid s
    → IsValid (start_login w id attempt made s).0
unfolding start_login
start_login-IsValid w id attempt made s v = elim (Result-cases (claim_login id s)) [
  | inl (claimed, e) ↦ rw e (
      pair-IsValid id attempt made (w.clear_avatars id) claimed
        (subst (All (λ rt. is_valid rt ≡ true)) (sym (claim_login-accounts id s claimed e)) v))
  | inr (failure, e) ↦ rw e v
]

create_account-IsValid :
    (label : List ℕ) (id : ℕ) (stored : Result (Unit {0})) (s after : Service)
    → create_account label id stored s ≡ ok after
    → IsValid s
    → IsValid after
unfolding create_account
create_account-IsValid label id stored s after e v =
    let (u, f, g) = >>=-eq-ok (fail_if (not (is_label label)) invalid) _ e in
    let (t, f2, g2) = >>=-eq-ok stored _ g in
    let same : record s { accounts = new_runtime id ∷ s.accounts } ≡ after = ground arith in
    subst IsValid same (refl, v)

if_else-IsValid : (b : Bool) (s t : Service) → IsValid s → IsValid t → IsValid (if b then s else t)
if_else-IsValid true s t v w = v
if_else-IsValid false s t v w = w

on_event-IsValid :
    (w : Answers) (id generation : ℕ) (e : Event) (s : Service)
    → IsValid s
    → IsValid (on_event w id generation e s)
unfolding on_event
on_event-IsValid w id generation e s v =
    if_else-IsValid s.closing s
      (change id (λ rt. if rt.generation == generation then handle w e rt else rt) s) v
      (change-IsValid id (λ rt. if rt.generation == generation then handle w e rt else rt) s
        (event-is_valid w generation e) v)

step-IsValid : (s after : Service) → Step s after → IsValid s → IsValid after
unfolding show_challenge finish_login connect_failed
step-IsValid s after (Step.created label id stored e) v =
    create_account-IsValid label id stored s after e v
step-IsValid s after (Step.started w id attempt made) v = start_login-IsValid w id attempt made s v
step-IsValid s after (Step.challenged id generation session challenge) v =
    change-IsValid id
      (λ rt.
        if rt.generation == generation && is_session rt.session session
        then record rt { challenge = some challenge; login_state = LoginState.challenge_available }
        else rt)
      s (show_challenge-is_valid generation session challenge) v
step-IsValid s after (Step.finished w id session outcome) v =
    change-IsValid id (finish_runtime w session outcome)
      (record s { active_login = if s.active_login == id then 0 else s.active_login })
      (finish_runtime-is_valid w session outcome) v
step-IsValid s after (Step.received w id generation e) v = on_event-IsValid w id generation e s v
step-IsValid s after (Step.unconnected id e) v =
    change-IsValid id (set_error e) s (λ rt h. set_error-is_valid e rt) v
step-IsValid s after Step.closed v = v

-- In whatever order requests, events and reports of logins come, and whatever the store and the
-- provider answer, the accounts stay valid: a connected account has a session and an identity, one
-- that is being paired has a session, one that needs a login has neither session nor identity, and
-- a challenge is there only while the login waits for its answer.
pub steps-IsValid : (s after : Service) → Steps s after → IsValid s → IsValid after
steps-IsValid s after Steps.done v = v
steps-IsValid s after (Steps.more step rest) v =
    steps-IsValid _ after rest (step-IsValid s _ step v)
