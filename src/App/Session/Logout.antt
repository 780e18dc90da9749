-- ===== src/App/Session/Logout.antt =====
-- After a logout, the provider's events of the ended generation do nothing.
use convomeow.Base.{
  ℕ, suc, ◌≡◌, refl, inl, inr, true, false, ◌&&◌, Option, List, [], ◌∷◌, arith, ◌==◌, if◌then◌else◌,
  Bool-cases, All,
}
use convomeow.Base.Tables.{update_where}
use convomeow.Core.{Error, Result-cases}
use convomeow.App.Session.{
  Runtime, Service, Answers, Event, handle, on_event, by_account, change, set_error,
}

-- The events of one generation of an account, one after the other.
pub deliver : Answers → ℕ → ℕ → List Event → Service → Service
deliver w id generation [] s = s
deliver w id generation (e ∷ es) s = deliver w id generation es (on_event w id generation e s)

-- No account of that name is in that generation.
abbrev IsEnded : ℕ → ℕ → List Runtime → Type 0
IsEnded id generation = All (λ rt. (rt.id == id && rt.generation == generation) ≡ false)

update-IsEnded :
    (w : Answers) (id generation : ℕ) (event : Event) (rows : List Runtime)
    → IsEnded id generation rows
    → update_where
        (by_account id)
        (λ rt. if rt.generation == generation then handle w event rt else rt)
        rows
      ≡ rows
update-IsEnded w id generation event [] v = refl
update-IsEnded w id generation event (rt ∷ rows) v =
    ground (arith, v.0, update-IsEnded w id generation event rows v.1)

on_event-IsEnded :
    (w : Answers) (id generation : ℕ) (event : Event) (s : Service)
    → IsEnded id generation s.accounts
    → on_event w id generation event s ≡ s
unfolding on_event
on_event-IsEnded w id generation event s v =
    ground (arith, update-IsEnded w id generation event s.accounts v)

deliver-IsEnded :
    (w : Answers) (id generation : ℕ) (events : List Event) (s : Service)
    → IsEnded id generation s.accounts
    → deliver w id generation events s ≡ s
unfolding deliver
deliver-IsEnded w id generation [] s v = refl
deliver-IsEnded w id generation (e ∷ es) s v =
    rw (on_event-IsEnded w id generation e s v) (deliver-IsEnded w id generation es s v)

handle-logged_out :
    (w : Answers) (cause : Option Error) (rt : Runtime)
    → ((handle w (Event.logged_out cause) rt).generation ≡ suc rt.generation)
      × ((handle w (Event.logged_out cause) rt).id ≡ rt.id)
unfolding handle set_error
handle-logged_out w cause rt = elim (Result-cases (w.clear_identity rt.id)) [
  | inl (u, e) ↦ rw e (refl, refl)
  | inr (f, e) ↦ rw e (refl, refl)
]

logged_out-IsEnded :
    (w : Answers) (id generation : ℕ) (cause : Option Error) (rows : List Runtime)
    → IsEnded id generation (
        update_where
          (by_account id)
          (λ rt. if rt.generation == generation then handle w (Event.logged_out cause) rt else rt)
          rows)
logged_out-IsEnded w id generation cause [] = tt
logged_out-IsEnded w id generation cause (rt ∷ rows) =
    (ground (arith, handle-logged_out w cause rt), logged_out-IsEnded w id generation cause rows)

on_event-closing :
    (w : Answers) (id generation : ℕ) (e : Event) (s : Service)
    → s.closing ≡ true
    → on_event w id generation e s ≡ s
unfolding on_event
on_event-closing w id generation e s h = ground arith

closing_deliver :
    (w : Answers) (id generation : ℕ) (events : List Event) (s : Service)
    → s.closing ≡ true
    → deliver w id generation events s ≡ s
unfolding deliver
closing_deliver w id generation [] s h = refl
closing_deliver w id generation (e ∷ es) s h =
    rw (on_event-closing w id generation e s h) (closing_deliver w id generation es s h)

on_event-running :
    (w : Answers) (id generation : ℕ) (e : Event) (s : Service)
    → s.closing ≡ false
    → on_event w id generation e s
      ≡ change id (λ rt. if rt.generation == generation then handle w e rt else rt) s
unfolding on_event
on_event-running w id generation e s h = ground arith

-- Once an account has been logged out by an event of a generation, no further event of that
-- generation changes anything, whichever events come and whatever the store answers.
pub logged_out_ends :
    (w v : Answers) (id generation : ℕ) (cause : Option Error) (events : List Event) (s : Service)
    → deliver v id generation events (on_event w id generation (Event.logged_out cause) s)
      ≡ on_event w id generation (Event.logged_out cause) s
logged_out_ends w v id generation cause events s = elim (Bool-cases s.closing) [
  | inl e ↦
      rw (on_event-closing w id generation (Event.logged_out cause) s e)
        (closing_deliver v id generation events s e)
  | inr e ↦ rw (on_event-running w id generation (Event.logged_out cause) s e) (
      deliver-IsEnded v id generation events
        (change id
          (λ rt. if rt.generation == generation then handle w (Event.logged_out cause) rt else rt)
          s)
        (logged_out-IsEnded w id generation cause s.accounts))
]
