-- ===== src/Store/MediaJobs/Forward.antt =====
-- No operation on the jobs takes a message back.
use convomeow.Base.{
  ℕ, ◌≤◌, ◌≡◌, refl, ap, ◌∙◌, inl, inr, true, false, ◌||◌, Option, none, some, List, [], ◌∷◌, ◌++◌,
  arith, ◌==◌, if◌then◌else◌, Bool-cases,
}
use convomeow.Base.Tables.{
  find_where, any, any-update_where, any-append, find_where-any, find_where-append,
}
use convomeow.Core.{
  ok, err, >>=-eq-ok, Result-cases, or_fail, fail_if, invalid, not_found, idempotency,
}
use convomeow.Store.Tables.{Message, Job, Database}
use convomeow.Store.Messages.{
  row_of, next_order, prepare_message, as_queued, is_incomplete, by_key, get_message, NewMessage,
  Call, Reserved, by_id,
}
use convomeow.Core.{◌>>=◌}
use convomeow.Store.MediaJobs.Reserve.{new_job, reserve_media_rows-IsReserved}
use convomeow.Store.MediaJobs.{
  by_message, reserve_media_send, claim_media_send, retry_media_send, begin_media_send,
  complete_media_send, reserve_media_rows, Upload, SendKey, reserve_media_by_key, is_usable,
}
use convomeow.Store.Chats.{Run}
use convomeow.Store.Incoming.{Saved, is_echo, save_echo, echo_row}
use convomeow.Store.MediaJobs.Recovery.{are_valid, restart}
use convomeow.Store.MediaJobs.Endings.{rank-recover, save_echo-eq}
use convomeow.Store.MediaJobs.Phases.{Op, rank, rank_of, apply, apply_echo, kept_saved}
use convomeow.Store.MediaJobs.Sending.{
  rank-begin, rank-retry, rank-claim, find-delete_jobs, rank_complete, rank-fail,
}

rank-inserted :
    (i : ℕ) (m : NewMessage) (jobs : List Job) (messages : List Message) (row : Message)
    → row.id ≡ m.id
    → any (by_id m.id) messages ≡ false
    → any (by_message m.id) jobs ≡ false
    → rank_of (find_where (by_message i) jobs) (any (by_id i) messages)
      ≤ rank_of
          (find_where (by_message i) (jobs ++ new_job m.id ∷ []))
          (any (by_id i) (messages ++ row ∷ []))
rank-inserted i m jobs messages row e fresh no_job =
    rw
      (
        find_where-append (by_message i) jobs (new_job m.id ∷ []),
        any-append (by_id i) messages (row ∷ []),
      )
      (elim (Bool-cases (m.id == i)) [
        | inl same ↦
            let here : i ≡ m.id = ground arith in
            let fresh_i : any (by_id i) messages ≡ false =
              ap (λ k. any (by_id k) messages) here ∙ fresh in
            let none_i : find_where (by_message i) jobs ≡ none =
              ap (λ k. find_where (by_message k) jobs) here
              ∙ find_where-any (by_message m.id) jobs no_job in
            rw (none_i, fresh_i) (omega arith)
        | inr differ ↦ ground arith
      ])

id-row_of : (m : NewMessage) (n : ℕ) → (row_of m n).id ≡ m.id
unfolding row_of
id-row_of m n = refl

rank-reserve_rows :
    (i : ℕ) (c : Call) (m : NewMessage) (actor key hash : ℕ) (u : Upload) (db after : Database)
    → reserve_media_rows c m actor key hash u db ≡ ok after
    → rank i db ≤ rank i after
unfolding rank
rank-reserve_rows i c m actor key hash u db after e =
    let v = reserve_media_rows-IsReserved c m actor key hash u db after e in
    rw (v.jobs, v.messages)
      (rank-inserted i m db.jobs db.messages (row_of m (next_order db.messages)) (id-row_of m _)
        v.fresh v.no_job)

pub replayed_after :
    (k : SendKey) (hash : ℕ) (db : Database) (r : Reserved)
    → (if k.request_hash == hash
        then get_message k.message_id db
          >>= (λ saved. ok (record { message = saved; created = false; after = db }))
        else err idempotency)
      ≡ ok r
    → r.after ≡ db
replayed_after k hash db r e = ground (arith, Result-cases (get_message k.message_id db))

rank-by_key :
    (i : ℕ) (o : Option SendKey) (c : Call) (m : NewMessage) (actor key hash upload : ℕ)
    (db : Database) (r : Reserved)
    → reserve_media_by_key o c m actor key hash upload db ≡ ok r
    → rank i db ≤ rank i r.after
unfolding reserve_media_by_key
rank-by_key i none c m actor key hash upload db r e =
    let (u, f, g) =
      >>=-eq-ok (or_fail (find_where (is_usable m.account_id upload c.now) db.uploads) not_found) _
        e in
    let (after, f2, g2) = >>=-eq-ok (reserve_media_rows c m actor key hash u db) _ g in
    let same : after ≡ r.after = ground arith in
    rw (← same) (rank-reserve_rows i c m actor key hash u db after f2)
rank-by_key i (some k) c m actor key hash upload db r e =
    let same : r.after ≡ db = replayed_after k hash db r e in rw same (omega arith)

rank-reserve :
    (i : ℕ) (c : Call) (m : NewMessage) (actor key hash upload : ℕ) (db : Database) (r : Reserved)
    → reserve_media_send c m actor key hash upload db ≡ ok r
    → rank i db ≤ rank i r.after
unfolding reserve_media_send
rank-reserve i c m actor key hash upload db r e =
    let (u, f, g) =
      >>=-eq-ok (fail_if (is_incomplete m actor key hash || upload == 0) invalid) _ e in
    let (p, f2, g2) = >>=-eq-ok (prepare_message c (as_queued m)) _ g in
    rank-by_key i (find_where (by_key actor key) db.send_keys) c p actor key hash upload db r g2

rank-restart : (i : ℕ) (db : Database) → rank i db ≤ rank i (restart db)
rank-restart i db = elim (Bool-cases (are_valid db.messages db.jobs)) [
  | inl v ↦ rw v (rank-recover i db v)
  | inr v ↦ rw v (omega arith)
]

any_of_echo :
    (account provider : ℕ) (messages : List Message) (m : Message)
    → find_where (is_echo account provider) messages ≡ some m
    → any (by_id m.id) messages ≡ true
any_of_echo account provider [] m h = cc
any_of_echo account provider (x ∷ xs) m h = elim (Bool-cases (is_echo account provider x)) [
  | inl e ↦
      let same : x ≡ m = ground (arith, e) in
      let own : (x.id == m.id) ≡ true = rw same (ground arith) in ground (arith, own)
  | inr e ↦ ground (arith, e, any_of_echo account provider xs m)
]

rank-save_echo :
    (i : ℕ) (m : NewMessage) (old : Message) (db : Database) (s : Saved)
    → any (by_id old.id) db.messages ≡ true
    → save_echo m old db ≡ some (ok s)
    → rank i db ≤ rank i s.after
unfolding rank
rank-save_echo i m old db s known e =
    let (jobs, messages) = save_echo-eq m old db s e in
    let left = find-delete_jobs i (λ k. k == old.id) db.jobs in
    let same = any-update_where (by_id old.id) (by_id i) (echo_row m) db.messages (λ x. refl) in
    rw (jobs, messages, left, same)
      (elim (Bool-cases (i == old.id)) [
        | inl own ↦
            let here : i ≡ old.id = ground arith in
            let known_i : any (by_id i) db.messages ≡ true =
              ap (λ k. any (by_id k) db.messages) here ∙ known in
            rw (own, known_i) (ground arith)
        | inr differ ↦ rw differ (omega arith)
      ])

rank-kept :
    (i : ℕ) (db : Database) (r : Run Saved)
    → ((s : Saved) → r ≡ some (ok s) → rank i db ≤ rank i s.after)
    → rank i db ≤ rank i (kept_saved db r)
rank-kept i db none h = omega arith
rank-kept i db (some (err e)) h = omega arith
rank-kept i db (some (ok s)) h = h s refl

rank-echo :
    (i : ℕ) (m : NewMessage) (db : Database) (found : Option Message)
    → ((old : Message) → found ≡ some old → any (by_id old.id) db.messages ≡ true)
    → rank i db ≤ rank i (apply_echo m db found)
rank-echo i m db none h = omega arith
rank-echo i m db (some old) h =
    rank-kept i db (save_echo m old db) (λ s e. rank-save_echo i m old db s (h old refl) e)

-- No operation on the jobs, a restart of the server and the report of a sent message included, takes
-- the sending of a message back, where 0 is before it is reserved, 1 while it is queued or
-- uploaded, 2 while it is handed over, and 3 when its job is gone.
pub rank-apply : (i : ℕ) (op : Op) (db : Database) → rank i db ≤ rank i (apply op db)
unfolding apply
rank-apply i (Op.reserve c m actor key hash upload) db =
    elim (Result-cases (reserve_media_send c m actor key hash upload db)) [
      | inl (r, e) ↦ rw e (rank-reserve i c m actor key hash upload db r e)
      | inr (failure, e) ↦ rw e (omega arith)
    ]
rank-apply i (Op.claim id now) db = elim (Result-cases (claim_media_send id now db)) [
  | inl ((job, after), e) ↦ rw e (rank-claim i id now db after job e)
  | inr (failure, e) ↦ rw e (omega arith)
]
rank-apply i (Op.retry id next attempts) db =
    elim (Result-cases (retry_media_send id next attempts db)) [
      | inl (after, e) ↦ rw e (rank-retry i id next attempts db after e)
      | inr (failure, e) ↦ rw e (omega arith)
    ]
rank-apply i (Op.begin id) db = elim (Result-cases (begin_media_send id db)) [
  | inl (after, e) ↦ rw e (rank-begin i id db after e)
  | inr (failure, e) ↦ rw e (omega arith)
]
rank-apply i (Op.complete id state sent) db =
    elim (Result-cases (complete_media_send id state sent db)) [
      | inl (after, e) ↦ rw e (rank_complete i id state sent db after e)
      | inr (failure, e) ↦ rw e (omega arith)
    ]
rank-apply i (Op.fail_account account) db = rank-fail i account db
rank-apply i Op.recover db = rank-restart i db
rank-apply i (Op.echo m) db =
    rank-echo i m db (find_where (is_echo m.account_id m.provider_message_id) db.messages)
      (λ old e. any_of_echo m.account_id m.provider_message_id db.messages old e)
