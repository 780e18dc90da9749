-- ===== src/App/Session/Login.antt =====
-- One login at a time.
use convomeow.Base.{ℕ, ◌≡◌, refl, sym, ap, ◌∙◌, ◌≢◌, inl, inr, Option, none, some, arith}
use convomeow.Base.Tables.{find_where}
use convomeow.Core.{Result, ok, err, Error, Result-cases, conflict, not_found}
use convomeow.App.Session.{Runtime, Service, Answers, by_account}
use convomeow.App.Session.Logins.{start_login, claim_login, pair, finish_login}

claim_login-active :
    (id : ℕ) (s claimed : Service)
    → claim_login id s ≡ ok claimed
    → (claimed.active_login ≡ id) × (s.active_login ≡ 0)
unfolding claim_login
claim_login-active id s claimed e = ground arith

-- What a pairing leaves of the claim: it holds it if it succeeds, and gives it back if it fails.
abbrev pub held : ℕ → ℕ → Result ℕ → ℕ
held id before (ok attempt) = id
held id before (err e) = before

pair-active :
    (id before attempt : ℕ) (made : Result ℕ) (cleared : Result (Unit {0})) (s : Service)
    → s.active_login ≡ id
    → before ≡ 0
    → (pair id attempt made cleared s).0.active_login
      ≡ held id before (pair id attempt made cleared s).1
pair-active id before attempt made (err e) s h b = sym b
pair-active id before attempt (err e) (ok u) s h b = sym b
pair-active id before attempt (ok session) (ok u) s h b = h

-- A request for a login that succeeds holds the login of the service, and one that fails leaves it
-- as it was, even where the avatars or the connector fail half way.
pub start_login-active :
    (w : Answers) (id attempt : ℕ) (made : Result ℕ) (s : Service)
    → (start_login w id attempt made s).0.active_login
      ≡ held id s.active_login (start_login w id attempt made s).1
unfolding start_login
start_login-active w id attempt made s = elim (Result-cases (claim_login id s)) [
  | inl (claimed, e) ↦
      let (now, before) = claim_login-active id s claimed e in
      rw e (pair-active id s.active_login attempt made (w.clear_avatars id) claimed now before)
  | inr (failure, e) ↦ rw e refl
]

abbrev pub refusal : Option Runtime → Error
refusal none = not_found
refusal (some rt) = conflict

claim_login-refused :
    (id : ℕ) (s : Service)
    → s.active_login ≢ 0
    → claim_login id s ≡ err (refusal (find_where (by_account id) s.accounts))
unfolding claim_login
claim_login-refused id s busy = ground arith

-- Nobody else begins one meanwhile.
start_login-refused :
    (w : Answers) (id attempt : ℕ) (made : Result ℕ) (s : Service)
    → s.active_login ≢ 0
    → start_login w id attempt made s ≡ (s, err (refusal (find_where (by_account id) s.accounts)))
unfolding start_login
start_login-refused w id attempt made s busy = rw (claim_login-refused id s busy) refl

-- While the login that was started for an account is under way, a request for a login, for any
-- account, changes nothing and is refused; and when the login of that account finishes, with
-- whatever outcome, the service is free again.
pub start_login_exclusive :
    (w v : Answers) (id k attempt again session a : ℕ) (made remade : Result ℕ)
    (outcome : Result (Unit {0})) (s after : Service)
    → id ≢ 0
    → start_login w id attempt made s ≡ (after, ok a)
    → (start_login v k again remade after
        ≡ (after, err (refusal (find_where (by_account k) after.accounts))))
      × ((finish_login v id session outcome after).active_login ≡ 0)
unfolding finish_login
start_login_exclusive w v id k attempt again session a made remade outcome s after known e =
    let now : after.active_login ≡ id =
      ap (λ (x : Service × Result ℕ). x.0.active_login) (sym e)
      ∙ (start_login-active w id attempt made s
          ∙ ap (λ (x : Service × Result ℕ). held id s.active_login x.1) e) in
    (start_login-refused v k again remade after (λ z. known (sym now ∙ z)), ground arith)
