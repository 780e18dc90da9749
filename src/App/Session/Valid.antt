-- ===== src/App/Session/Valid.antt =====
-- What holds of an account at run time, and that every operation on one account keeps it.
use convomeow.Base.{
  none, ℕ, ◌≡◌, refl, inl, inr, Bool, true, false, ◌&&◌, ◌||◌, not, Option, some, arith, ◌==◌,
  if◌then◌else◌, Option-cases, is_none,
}
use convomeow.Core.{Result, ok, Error, Result-cases}
use convomeow.App.Session.{
  Runtime, State, LoginState, Answers, Event, handle, set_error, persist_identity, on_connected,
  on_connected_with, Bool-cases,
}
use convomeow.App.Session.Logins.{finish_runtime, is_session}
use convomeow.App.Session.Accounts.{restore}

abbrev is_settled : State → Option ℕ → ℕ → Bool
is_settled State.connected session identity = not (is_none session) && not (identity == 0)
is_settled State.pairing session identity = not (is_none session)
is_settled State.needs_login session identity = is_none session && identity == 0
is_settled _ session identity = true

abbrev is_waiting : LoginState → Bool
is_waiting LoginState.challenge_available = true
is_waiting _ = false

-- A connected account has a session and an identity, one that is being paired has a session, and
-- one that needs a login has neither; a challenge is there only while the login waits for its
-- answer.
abbrev pub is_valid : Runtime → Bool
is_valid rt =
    is_settled rt.state rt.session rt.identity
    && (is_none rt.challenge || is_waiting rt.login_state)

pub set_error-is_valid : (e : Error) (rt : Runtime) → is_valid (set_error e rt) ≡ true
unfolding set_error
set_error-is_valid e rt = refl

persist_identity-eq :
    (w : Answers) (identity : ℕ) (rt after : Runtime)
    → persist_identity w identity rt ≡ ok after
    → ((identity == 0) ≡ false) × (after ≡ record rt { identity = identity })
unfolding persist_identity
persist_identity-eq w identity rt after e =
    ground (arith, Result-cases (w.set_identity rt.id identity))

connected_with-is_valid :
    (w : Answers) (session : ℕ) (rt : Runtime)
    → rt.session ≡ some session
    → is_valid (on_connected_with rt (persist_identity w (w.identity_of session) rt)) ≡ true
unfolding set_error
connected_with-is_valid w session rt e =
    elim (Result-cases (persist_identity w (w.identity_of session) rt)) [
      | inl (after, f) ↦
          let (known, same) = persist_identity-eq w (w.identity_of session) rt after f in
          rw (f, same, e, known) refl
      | inr (failure, f) ↦ rw f refl
    ]

connected-is_valid :
    (w : Answers) (o : Option ℕ) (rt : Runtime)
    → rt.session ≡ o
    → is_valid rt ≡ true
    → is_valid (on_connected w o rt) ≡ true
connected-is_valid w none rt e v = v
connected-is_valid w (some session) rt e v = elim (Bool-cases (rt.identity == 0)) [
  | inl new ↦ rw new (connected_with-is_valid w session rt e)
  | inr known ↦ rw (known, e) (ground (arith, known))
]

pub handle-is_valid :
    (w : Answers) (event : Event) (rt : Runtime)
    → is_valid rt ≡ true
    → is_valid (handle w event rt) ≡ true
unfolding handle set_error
handle-is_valid w (Event.paired identity) rt v =
    ground (arith, Result-cases (persist_identity w identity rt))
handle-is_valid w Event.connected rt v = connected-is_valid w rt.session rt refl v
handle-is_valid w Event.disconnected rt v = ground arith
handle-is_valid w (Event.logged_out cause) rt v =
    ground (arith, Result-cases (w.clear_identity rt.id))
handle-is_valid w (Event.failed cause) rt v = ground (arith, Option-cases cause)
handle-is_valid w Event.another rt v = v

pub finish_runtime-is_valid :
    (w : Answers) (session : ℕ) (outcome : Result (Unit {0})) (rt : Runtime)
    → is_valid rt ≡ true
    → is_valid (finish_runtime w session outcome rt) ≡ true
unfolding finish_runtime persist_identity
finish_runtime-is_valid w session outcome rt v = ground (
  arith,
  Result-cases outcome,
  Result-cases (w.set_identity rt.id (w.identity_of session)),
  Option-cases rt.session,
)

pub show_challenge-is_valid :
    (generation session challenge : ℕ) (rt : Runtime)
    → is_valid rt ≡ true
    → is_valid (
        if rt.generation == generation && is_session rt.session session
        then record rt { challenge = some challenge; login_state = LoginState.challenge_available }
        else rt)
      ≡ true
show_challenge-is_valid generation session challenge rt v = ground arith

pub restore-is_valid :
    (id identity : ℕ) (opened : Result ℕ) → is_valid (restore id identity opened) ≡ true
unfolding restore set_error
restore-is_valid id identity opened = ground (arith, Result-cases opened)
