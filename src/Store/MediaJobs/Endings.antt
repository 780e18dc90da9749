-- ===== src/Store/MediaJobs/Endings.antt =====
-- What a restart and the report of a message leave of the jobs.
use convomeow.Base.{
  ℕ, ◌≤◌, ◌≡◌, refl, sym, ap, ◌∙◌, inl, inr, Bool, true, false, ◌&&◌, ◌||◌, not, none, some, List,
  [], ◌∷◌, arith, ◌==◌, Bool-cases,
}
use convomeow.Base.Tables.{find_where, any, update_where, delete_where, any-update_where}
use convomeow.Core.{Result, MessageState, is_queued, ok, err}
use convomeow.Store.Tables.{Message, Job, Phase, Database}
use convomeow.Store.Messages.{by_id, NewMessage}
use convomeow.Store.Incoming.{Saved, save_echo, echo_row, with_parts, without_job}
use convomeow.Store.Incoming.Once.{saved_with-ok}
use convomeow.Store.MediaJobs.{by_message, is_sending, is_uploading}
use convomeow.Store.MediaJobs.Recovery.{is_lost, recover_sends, are_valid}
use convomeow.Store.MediaJobs.Phases.{rank, rank_of}

abbrev again_queued : (Job → Bool) → List Job → List Job
again_queued p jobs =
    update_where (λ j. is_uploading j.phase) (λ j. record j { phase = Phase.queued })
      (delete_where p jobs)

none-again_queued :
    (i : ℕ) (p : Job → Bool) (jobs : List Job)
    → any (by_message i) jobs ≡ false
    → find_where (by_message i) (again_queued p jobs) ≡ none
none-again_queued i p [] h = refl
none-again_queued i p (j ∷ jobs) h = ground (arith, none-again_queued i p jobs)

rank-again_queued :
    (i : ℕ) (q : Job → Bool) (messages : List Message) (jobs : List Job)
    → are_valid messages jobs ≡ true
    → rank_of (find_where (by_message i) jobs) (any (by_id i) messages)
      ≤ rank_of
          (find_where (by_message i) (again_queued (λ j. is_sending j.phase || q j) jobs))
          (any (by_id i) messages)
rank-again_queued i q messages [] v = omega arith
rank-again_queued i q messages (j ∷ jobs) v = elim (Bool-cases (j.message_id == i)) [
  | inl e ↦
      let same : j.message_id ≡ i = ground arith in
      let known : any (by_id i) messages ≡ true =
        ap (λ k. any (by_id k) messages) (sym same) ∙ ground (arith, v) in
      let alone : any (by_message i) jobs ≡ false =
        ap (λ k. any (by_message k) jobs) (sym same) ∙ ground (arith, v) in
      ground (arith, e, known, none-again_queued i (λ j. is_sending j.phase || q j) jobs alone)
  | inr e ↦ ground (arith, e, v, rank-again_queued i q messages jobs)
]

pub rank-recover :
    (i : ℕ) (db : Database)
    → are_valid db.messages db.jobs ≡ true
    → rank i db ≤ rank i (recover_sends db)
unfolding rank recover_sends
rank-recover i db v =
    let lost =
      update_where (is_lost db.jobs) (λ m. record m { state = MessageState.outcome_unknown })
        db.messages in
    let known =
      any-update_where (is_lost db.jobs) (by_id i)
        (λ m. record m { state = MessageState.outcome_unknown }) db.messages (λ m. refl) in
    rw known (
      rank-again_queued i (λ j. any (λ m. m.id == j.message_id && not (is_queued m.state)) lost)
        db.messages db.jobs v)

with_parts-jobs :
    (m : NewMessage) (id : ℕ) (db after : Database)
    → with_parts m id db ≡ ok after
    → (after.jobs ≡ db.jobs) × (after.messages ≡ db.messages)
with_parts-jobs m id db after e = ground arith

without_job-eq :
    (id : ℕ) (r : Result Database) (after : Database)
    → without_job id r ≡ ok after
    → (mid : Database) × (r ≡ ok mid)
      × (after.jobs ≡ delete_where (λ j. j.message_id == id) mid.jobs)
      × (after.messages ≡ mid.messages)
without_job-eq id (err e) after h = cc
without_job-eq id (ok mid) after h = (mid, refl, ground arith, ground arith)

-- The report of a message ends its job and keeps the messages, but for the fields of the one.
pub save_echo-eq :
    (m : NewMessage) (old : Message) (db : Database) (s : Saved)
    → save_echo m old db ≡ some (ok s)
    → (s.after.jobs ≡ delete_where (λ j. j.message_id == old.id) db.jobs)
      × (s.after.messages ≡ update_where (by_id old.id) (echo_row m) db.messages)
unfolding save_echo
save_echo-eq m old db s e =
    let updated = record db { messages = update_where (by_id old.id) (echo_row m) db.messages } in
    let (same, f) =
      saved_with-ok (echo_row m old) (without_job old.id (with_parts m old.id updated)) s e in
    let (mid, g, jobs, messages) = without_job-eq old.id (with_parts m old.id updated) s.after f in
    let (kept_jobs, kept) = with_parts-jobs m old.id updated mid g in
    (jobs ∙ ap (delete_where (λ j. j.message_id == old.id)) kept_jobs, messages ∙ kept)
