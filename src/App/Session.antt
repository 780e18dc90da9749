-- ===== src/App/Session.antt =====
-- internal/app/service.go: the accounts at run time, their logins and the events of the provider.
pub mod Logins
pub mod Accounts
pub mod Valid
pub mod Steps
pub mod Logout
pub mod Login
use convomeow.Core.{◌>>◌}
use convomeow.Core.{◌>>=◌}
use convomeow.Base.{ℕ, suc, Bool, Option, none, some, List, ◌==◌, if◌then◌else◌, Bool-cases}
use convomeow.Base.Tables.{find_where, update_where}
use convomeow.Core.{Result, ok, err, Error, invalid, not_found, or_fail, fail_if}

-- `runtimeAccount.state`
pub data State : Type 0 where
  needs_login pairing connecting connected reconnecting error : State

-- `runtimeAccount.loginState`; `unset` is what an account that was not logged in here has.
pub data LoginState : Type 0 where
  idle waiting_for_challenge challenge_available connecting connected failed : LoginState

-- `runtimeAccount`, as far as logins and events go. A session is numbered, so that two are compared
-- as pointers are; an identity of 0 is the empty text.
pub record Runtime : Type 0 where
  pub id : ℕ
  pub generation : ℕ
  pub identity : ℕ
  pub state : State
  pub last_error : Option Error
  pub login_state : LoginState
  pub login_id : ℕ
  pub challenge : Option ℕ
  pub session : Option ℕ

-- The part of `Service` that logins and events share.
pub record Service : Type 0 where
  pub accounts : List Runtime
  pub active_login : ℕ
  pub closing : Bool

-- What the event of a provider does to an account at run time; every other type of event leaves it
-- as it is.
pub data Event : Type 0 where
  paired : ℕ → Event
  connected disconnected : Event
  logged_out failed : Option Error → Event
  another : Event

-- What the calls of the store and of the session answer.
pub record Answers : Type 0 where
  pub set_identity : ℕ → ℕ → Result (Unit {0})
  pub clear_identity : ℕ → Result (Unit {0})
  pub identity_of : ℕ → ℕ
  pub clear_avatars : ℕ → Result (Unit {0})

abbrev pub by_account : ℕ → Runtime → Bool
by_account id rt = rt.id == id

-- `s.runtime(id)`
abbrev pub runtime : ℕ → Service → Result Runtime
runtime id s = or_fail (find_where (by_account id) s.accounts) not_found

-- The fields of the account, written under its lock.
abbrev pub change : ℕ → (Runtime → Runtime) → Service → Service
change id f s = record s { accounts = update_where (by_account id) f s.accounts }

-- `setError`
pub set_error : Error → Runtime → Runtime
set_error e rt = record rt {
  state = State.error;
  login_state = LoginState.failed;
  last_error = some e;
  challenge = none;
}

-- `persistIdentity`, for the account at hand
pub persist_identity : Answers → ℕ → Runtime → Result Runtime
persist_identity w identity rt = do
  fail_if (identity == 0) invalid
  w.set_identity rt.id identity
  ok (record rt { identity = identity })

abbrev on_paired : Runtime → Result Runtime → Runtime
on_paired old (ok rt) = record rt {
  state = State.connecting;
  login_state = LoginState.connecting;
  challenge = none;
}
on_paired old (err e) = set_error e old

abbrev as_connected : Runtime → Runtime
as_connected rt = record rt {
  state = State.connected;
  login_state = LoginState.connected;
  last_error = none;
  challenge = none;
}

abbrev on_connected_with : Runtime → Result Runtime → Runtime
on_connected_with old (ok rt) = as_connected rt
on_connected_with old (err e) = set_error e old

abbrev on_connected : Answers → Option ℕ → Runtime → Runtime
on_connected w none rt = rt
on_connected w (some session) rt =
    if rt.identity == 0
    then on_connected_with rt (persist_identity w (w.identity_of session) rt)
    else as_connected rt

abbrev on_disconnected : State → State
on_disconnected State.connected = State.reconnecting
on_disconnected State.connecting = State.reconnecting
on_disconnected s = s

abbrev logged_out_runtime : Option Error → Runtime → Runtime
logged_out_runtime cause rt = record rt {
  generation = suc rt.generation;
  identity = 0;
  session = none;
  state = State.needs_login;
  login_state = LoginState.idle;
  challenge = none;
  last_error = cause;
}

-- `clear_avatars` fails without a consequence here, and so do the failures of media sends.
abbrev on_logged_out : Runtime → Result (Unit {0}) → Runtime
on_logged_out rt (ok u) = rt
on_logged_out rt (err e) = set_error e rt

abbrev on_failed : Option Error → Runtime → Runtime
on_failed none rt = rt
on_failed (some e) rt = set_error e rt

-- The switch of `onEvent`, as far as it changes the account.
pub handle : Answers → Event → Runtime → Runtime
unfolding set_error persist_identity
handle w (Event.paired identity) rt = on_paired rt (persist_identity w identity rt)
handle w Event.connected rt = on_connected w rt.session rt
handle w Event.disconnected rt = record rt { state = on_disconnected rt.state }
handle w (Event.logged_out cause) rt =
    on_logged_out (logged_out_runtime cause rt) (w.clear_identity rt.id)
handle w (Event.failed cause) rt = on_failed cause rt
handle w Event.another rt = rt

-- `onEvent`: an event of an earlier generation of the account is dropped.
pub on_event : Answers → ℕ → ℕ → Event → Service → Service
unfolding handle
on_event w id generation event s =
    if s.closing
    then s
    else change id (λ rt. if rt.generation == generation then handle w event rt else rt) s
