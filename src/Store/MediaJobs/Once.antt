-- ===== src/Store/MediaJobs/Once.antt =====
-- A message is handed to the provider at most once, whatever the order of the operations.
use convomeow.Base.{
  ℕ, ◌+◌, ◌≤◌, ◌≡◌, refl, sym, ap, ◌∙◌, inl, inr, Bool, true, false, ◌&&◌, some, List, [], ◌∷◌,
  arith, leb, ◌==◌, if◌then◌else◌, Bool-cases,
}
use convomeow.Store.MediaJobs.Keyed.{IsKeyed, apply-IsKeyed, begin_media_send-eq}
use convomeow.Base.Tables.{find_where, any, find_where-update_where, find_where_holds}
use convomeow.Core.{Result, ok, err, Result-cases}
use convomeow.Store.Tables.{Job, Phase, Database}
use convomeow.Store.MediaJobs.{by_message, begin_media_send, is_uploading}
use convomeow.Store.MediaJobs.Phases.{Op, rank, apply}
use convomeow.Store.MediaJobs.Forward.{rank-apply}

none_elsewhere :
    (id : ℕ) (p : Job → Bool) (jobs : List Job)
    → any (by_message id) jobs ≡ false
    → any (λ j. j.message_id == id && p j) jobs ≡ false
none_elsewhere id p [] h = refl
none_elsewhere id p (j ∷ js) h = ground (arith, none_elsewhere id p js)

-- Under a key there is one job, so a condition that some job meets is met by the one that is found.
find-any :
    (id : ℕ) (p : Job → Bool) (jobs : List Job)
    → IsKeyed jobs
    → any (λ j. j.message_id == id && p j) jobs ≡ true
    → (j : Job) × (find_where (by_message id) jobs ≡ some j) × (p j ≡ true)
find-any id p [] v h = cc
find-any id p (j ∷ js) v h = elim (Bool-cases (j.message_id == id)) [
  | inl same ↦
      let e : j.message_id ≡ id = ground arith in
      (
        j,
        rw same,
        ground (arith, none_elsewhere id p js (ap (λ k. any (by_message k) js) (sym e) ∙ v.0)),
      )
  | inr differ ↦ let (k, e, t) = find-any id p js v.1 (ground arith) in (k, rw differ e, t)
]

begin-rank :
    (id : ℕ) (db after : Database)
    → IsKeyed db.jobs
    → begin_media_send id db ≡ ok after
    → (rank id db ≡ 1) × (rank id after ≡ 2)
unfolding rank
begin-rank id db after v e =
    let (there, change) = begin_media_send-eq id db after e in
    let (j, found, up) = find-any id (λ j. is_uploading j.phase) db.jobs v there in
    let met : (j.message_id == id && is_uploading j.phase) ≡ true =
      ground (arith, find_where_holds (by_message id) db.jobs j found, up) in
    let found_after : find_where (by_message id) after.jobs
        ≡ some (record j { phase = Phase.sending }) =
      ap (find_where (by_message id)) change
      ∙ (find_where-update_where (λ j. j.message_id == id && is_uploading j.phase) (by_message id)
            (λ j. record j { phase = Phase.sending }) db.jobs (λ j h. refl)
          ∙ rw (found, met) refl) in
    rw (found, found_after) (ground (arith, up))

abbrev is_ok {ℓ} : {A : Type ℓ} → Result A → Bool
is_ok (ok a) = true
is_ok (err e) = false

-- Whether an operation hands the message over: `processMediaSend` calls the provider after
-- `BeginMediaSend` has succeeded, and nowhere else.
unfoldable pub hands_over : ℕ → Op → Database → Bool
hands_over id (Op.begin i) db = i == id && is_ok (begin_media_send id db)
hands_over id _ db = false

-- How often the message is handed over in a history of operations.
unfoldable pub handed_over : ℕ → List Op → Database → ℕ
handed_over id [] db = 0
handed_over id (op ∷ ops) db =
    (if hands_over id op db then 1 else 0) + handed_over id ops (apply op db)

hands_over-rank :
    (id : ℕ) (op : Op) (db : Database)
    → IsKeyed db.jobs
    → hands_over id op db ≡ true
    → (rank id db ≡ 1) × (rank id (apply op db) ≡ 2)
unfolding hands_over apply
hands_over-rank id (Op.begin i) db v h =
    let same : i ≡ id = ground arith in
    elim (Result-cases (begin_media_send i db)) [
      | inl (after, e) ↦
          rw e (begin-rank id db after v (ap (λ k. begin_media_send k db) (sym same) ∙ e))
      | inr (failure, e) ↦ ground arith
    ]
hands_over-rank id _ db v h = cc

handed_over-le :
    (id : ℕ) (ops : List Op) (db : Database)
    → IsKeyed db.jobs
    → handed_over id ops db ≤ (if leb (rank id db) 1 then 1 else 0)
unfolding handed_over
handed_over-le id [] db v = omega arith
handed_over-le id (op ∷ ops) db v =
    let ih = handed_over-le id ops (apply op db) (apply-IsKeyed op db v) in
    let forward = rank-apply id op db in
    elim (Bool-cases (hands_over id op db)) [
      | inl over ↦
          let r = hands_over-rank id op db v over in rw over (ground (arith, ih, forward, r))
      | inr other ↦ rw other (ground (arith, ih, forward))
    ]

-- In every history of reservations, claims, retries, beginnings, completions, logouts, restarts of the
-- server and reports of messages that were sent, from a database where a message has at most one job, a message is handed to the provider at most once.
pub handed_over_once :
    (id : ℕ) (ops : List Op) (db : Database) → IsKeyed db.jobs → handed_over id ops db ≤ 1
handed_over_once id ops db v = ground (arith, handed_over-le id ops db v)
