-- ===== src/App/Session/Accounts.antt =====
-- internal/app/service.go: how accounts come into being, CreateAccount, LoginStatus and Start.
use convomeow.Base.{
  ℕ, Bool, true, ◌&&◌, ◌||◌, not, Option, none, some, List, [], ◌∷◌, ltb, leb, ◌==◌, if◌then◌else◌,
  length,
}
use convomeow.Core.{Result, ok, err, Error, invalid, not_found, ◌>>=◌, ◌>>◌, fail_if}
use convomeow.App.Session.{State, LoginState, Runtime, Service, runtime, change, set_error}
use convomeow.App.Session.Logins.{is_connected}

-- The account that `CreateAccount` makes.
abbrev pub new_runtime : ℕ → Runtime
new_runtime id = record {
  id = id;
  generation = 0;
  identity = 0;
  state = State.needs_login;
  last_error = none;
  login_state = LoginState.idle;
  login_id = 0;
  challenge = none;
  session = none;
}

-- The bytes that a label may hold.
abbrev is_label_byte : ℕ → Bool
is_label_byte r =
    leb 97 r && leb r 122
    || (leb 65 r && leb r 90 || (leb 48 r && leb r 57 || (r == 45 || r == 95)))

abbrev pub all_bytes : (ℕ → Bool) → List ℕ → Bool
all_bytes p [] = true
all_bytes p (x ∷ xs) = p x && all_bytes p xs

-- Whether `CreateAccount` takes a label, after spaces have been trimmed off it.
pub is_label : List ℕ → Bool
is_label label =
    not (ltb (length label) 1 || ltb 64 (length label)) && all_bytes is_label_byte label

-- `CreateAccount`, for the provider and the kind of connection that there are.
unfoldable pub create_account : List ℕ → ℕ → Result (Unit {0}) → Service → Result Service
unfolding is_label
create_account label id stored s = do
  fail_if (not (is_label label)) invalid
  stored
  ok (record s { accounts = new_runtime id ∷ s.accounts })

-- `core.LoginStatus`
pub record LoginStatus : Type 0 where
  pub id : ℕ
  pub state : LoginState
  pub challenge : Option ℕ
  pub error : Option Error

-- `LoginStatus`
pub login_status : ℕ → ℕ → Service → Result LoginStatus
login_status id attempt s = do
  rt ← runtime id s
  fail_if (attempt == 0 || not (rt.login_id == attempt)) not_found
  ok (record {
    id = rt.login_id;
    state = if is_connected rt.state then LoginState.connected else rt.login_state;
    challenge = rt.challenge;
    error = rt.last_error;
  })

-- What `Start` does to the account of which the session does not open or connect.
unfoldable pub connect_failed : ℕ → Error → Service → Service
unfolding set_error
connect_failed id e s = change id (set_error e) s

abbrev restored_state : ℕ → State
restored_state identity = if identity == 0 then State.needs_login else State.connecting

-- The account that `Start` makes of a stored one, and the session that it opens for it.
unfoldable pub restore : ℕ → ℕ → Result ℕ → Runtime
unfolding set_error
restore id identity opened =
    let rt : Runtime = record {
      id = id;
      generation = 1;
      identity = identity;
      state = restored_state identity;
      last_error = none;
      login_state = LoginState.idle;
      login_id = 0;
      challenge = none;
      session = none;
    } in
    if identity == 0
    then rt
    else elim opened [ ok session ↦ record rt { session = some session } | err e ↦ set_error e rt ]
