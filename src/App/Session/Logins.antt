-- ===== src/App/Session/Logins.antt =====
-- internal/app/service.go: StartLogin and finishLogin.
use convomeow.Base.{ℕ, suc, Bool, true, false, ◌&&◌, not, Option, none, some, ◌==◌, if◌then◌else◌}
use convomeow.Core.{Result, ok, err, Error, conflict, ◌>>=◌, ◌>>◌, fail_if}
use convomeow.App.Session.{
  State, LoginState, Runtime, Service, Answers, runtime, change, persist_identity,
}

-- The first part of `StartLogin`: it claims the login of the service.
unfoldable pub claim_login : ℕ → Service → Result Service
claim_login id s = do
  rt ← runtime id s
  fail_if (not (s.active_login == 0)) conflict
  fail_if (not (rt.identity == 0)) conflict
  ok (record s { active_login = id })

abbrev pub released : Service → Service
released s = record s { active_login = 0 }

-- Its second part: a generation begins.
abbrev pub begin_generation : ℕ → Service → Service
begin_generation id s = change id (λ rt. record rt { generation = suc rt.generation }) s

abbrev pub start_pairing : ℕ → ℕ → Runtime → Runtime
start_pairing attempt session rt = record rt {
  login_id = attempt;
  session = some session;
  state = State.pairing;
  login_state = LoginState.waiting_for_challenge;
  last_error = none;
  challenge = none;
}

-- Its third part: the session that the connector has made is the account's. The answer is the
-- number of the attempt.
abbrev pub install_session : ℕ → ℕ → Result ℕ → Service → Service × Result ℕ
install_session id attempt (ok session) s =
    (change id (start_pairing attempt session) s, ok attempt)
install_session id attempt (err e) s = (released s, err e)

-- After the login has been claimed, the avatars of the account are cleared first.
abbrev pub pair : ℕ → ℕ → Result ℕ → Result (Unit {0}) → Service → Service × Result ℕ
pair id attempt made (ok u) s = install_session id attempt made (begin_generation id s)
pair id attempt made (err e) s = (released s, err e)

abbrev pub pair_claimed : Answers → ℕ → ℕ → Result ℕ → Service → Result Service → Service × Result ℕ
pair_claimed w id attempt made s (ok claimed) = pair id attempt made (w.clear_avatars id) claimed
pair_claimed w id attempt made s (err e) = (s, err e)

-- `StartLogin`, where no event comes between its parts.
unfoldable pub start_login : Answers → ℕ → ℕ → Result ℕ → Service → Service × Result ℕ
unfolding claim_login
start_login w id attempt made s = pair_claimed w id attempt made s (claim_login id s)

abbrev pub is_session : Option ℕ → ℕ → Bool
is_session none x = false
is_session (some y) x = y == x

-- The callback of `StartLogin` on a challenge.
unfoldable pub show_challenge : ℕ → ℕ → ℕ → ℕ → Service → Service
show_challenge id generation session challenge s =
    change id
      (λ rt.
        if rt.generation == generation && is_session rt.session session
        then record rt { challenge = some challenge; login_state = LoginState.challenge_available }
        else rt)
      s

abbrev login_failed : Error → Runtime → Runtime
login_failed e rt =
    let failed = record rt {
      state = State.error;
      login_state = LoginState.failed;
      last_error = some e;
      challenge = none;
    } in
    if rt.identity == 0
    then record failed { session = none; generation = suc rt.generation }
    else failed

abbrev pub is_connected : State → Bool
is_connected State.connected = true
is_connected _ = false

abbrev login_done : Runtime → Runtime
login_done rt = if is_connected rt.state then record rt { challenge = none } else record rt {
  state = State.connecting;
  login_state = LoginState.connecting;
  challenge = none;
}

abbrev login_settled : Runtime → Result (Unit {0}) → Runtime
login_settled rt (ok u) = login_done rt
login_settled rt (err e) = login_failed e rt

abbrev late_identity : Runtime → Result (Unit {0}) → Result Runtime → Runtime
late_identity old outcome (ok rt) = login_settled rt outcome
late_identity old (ok u) (err e) = login_failed e old
late_identity old (err first) (err e) = login_failed first old

-- `finishLogin` for the account at hand. Of two errors that are joined, the first is kept.
unfoldable pub finish_runtime : Answers → ℕ → Result (Unit {0}) → Runtime → Runtime
unfolding persist_identity
finish_runtime w session outcome rt =
    if not (is_session rt.session session)
    then rt
    else if rt.identity == 0 && not (w.identity_of session == 0)
    then late_identity rt outcome (persist_identity w (w.identity_of session) rt)
    else login_settled rt outcome

-- `finishLogin`
unfoldable pub finish_login : Answers → ℕ → ℕ → Result (Unit {0}) → Service → Service
unfolding finish_runtime
finish_login w id session outcome s =
    change id (finish_runtime w session outcome)
      (record s { active_login = if s.active_login == id then 0 else s.active_login })
