-- ===== src/Tests/Accounts.antt =====
-- Logins and events.
use convomeow.Base.{◌≡◌, refl, false, none, some, [], ◌∷◌, arith}
use convomeow.Core.{ok, err, conflict, not_connected}
use convomeow.App.Session.{Service, State, LoginState, Event, Answers, on_event}
use convomeow.App.Session.Logins.{start_login, claim_login, finish_login}
use convomeow.App.Session.Steps.{Step, Steps, IsValid, steps-IsValid}
use convomeow.App.Session.Logout.{deliver, logged_out_ends}
use convomeow.App.Session.Login.{start_login_exclusive}
use convomeow.Tests.Sample.{account, service}

abbrev answers : Answers
answers = record {
  set_identity = λ id identity. ok tt;
  clear_identity = λ id. ok tt;
  identity_of = λ session. 9;
  clear_avatars = λ id. ok tt;
}

abbrev logged_out : Service
logged_out = on_event answers 1 2 (Event.logged_out none) service

abbrev paired : Service
paired = on_event answers 1 3 (Event.paired 9) logged_out

abbrev finished : Service
finished = finish_login answers 1 6 (ok tt) paired

abbrev history : Steps service finished
history = Steps.more (Step.received answers 1 2 (Event.logged_out none)) (
    Steps.more (Step.received answers 1 3 (Event.paired 9))
      (Steps.more (Step.finished answers 1 6 (ok tt)) Steps.done))

steps-IsValid_example : IsValid finished
steps-IsValid_example = steps-IsValid service finished history (refl, tt)

logged_out_ends_example :
    deliver answers 1 2 (Event.connected ∷ Event.paired 4 ∷ []) logged_out ≡ logged_out
logged_out_ends_example =
    logged_out_ends answers answers 1 2 none (Event.connected ∷ Event.paired 4 ∷ []) service

-- An account that was never paired.
abbrev unpaired : Service
unpaired = record {
  accounts =
      record account {
        identity = 0;
        session = none;
        state = State.needs_login;
        login_state = LoginState.idle;
      }
      ∷ [];
  active_login = 0;
  closing = false;
}

abbrev started : Service
started = record {
  accounts =
      record account {
        generation = 3;
        identity = 0;
        session = some 8;
        state = State.pairing;
        login_state = LoginState.waiting_for_challenge;
        login_id = 5;
      }
      ∷ [];
  active_login = 1;
  closing = false;
}

login_started : start_login answers 1 5 (ok 8) unpaired ≡ (started, ok 5)
unfolding start_login claim_login
login_started = refl

start_login_exclusive_example :
    (start_login answers 1 6 (ok 9) started ≡ (started, err conflict))
    × ((finish_login answers 1 8 (err not_connected) started).active_login ≡ 0)
start_login_exclusive_example =
    start_login_exclusive answers answers 1 1 5 6 8 5 (ok 8) (ok 9) (err not_connected) unpaired
      started (λ e. ground (arith, e)) login_started
