-- ===== src/Store/MediaJobs/Taken.antt =====
-- An upload serves one message.
use convomeow.Base.{
  ℕ, ◌≡◌, refl, sym, ap, ◌∙◌, ◌≢◌, true, ◌&&◌, ◌||◌, Option, none, some, List, [], ◌∷◌, arith, ◌==◌,
}
use convomeow.Base.Tables.{find_where, delete_where}
use convomeow.Core.{Result-cases, ok, not_found, invalid, >>=-eq-ok, or_fail, fail_if}
use convomeow.Store.Tables.{Upload, SendKey, Database}
use convomeow.Store.Messages.{
  NewMessage, Call, Reserved, by_key, is_incomplete, as_queued, prepare_message, get_message,
}
use convomeow.Store.Uploads.{is_ready}
use convomeow.Store.MediaJobs.{
  is_usable, reserve_media_rows, reserve_media_by_key, reserve_media_send,
}
use convomeow.Store.MediaJobs.Reserve.{reserve_media_rows-IsReserved}

find-usable_deleted :
    (account id now : ℕ) (rows : List Upload)
    → find_where
        (is_usable account id now)
        (delete_where (λ r. r.id == id && is_ready r.state) rows)
      ≡ none
find-usable_deleted account id now [] = refl
find-usable_deleted account id now (u ∷ rows) =
    ground (arith, find-usable_deleted account id now rows)

id-find_usable :
    (account id now : ℕ) (rows : List Upload) (u : Upload)
    → find_where (is_usable account id now) rows ≡ some u
    → u.id ≡ id
id-find_usable account id now [] u e = cc
id-find_usable account id now (x ∷ rows) u e = ground (arith, id-find_usable account id now rows u)

by_key-taken :
    (o : Option SendKey) (c : Call) (m : NewMessage) (actor key hash upload account now : ℕ)
    (db : Database) (r : Reserved)
    → reserve_media_by_key o c m actor key hash upload db ≡ ok r
    → r.created ≡ true
    → find_where (is_usable account upload now) r.after.uploads ≡ none
unfolding reserve_media_by_key
by_key-taken none c m actor key hash upload account now db r e new =
    let (u, f, g) =
      >>=-eq-ok (or_fail (find_where (is_usable m.account_id upload c.now) db.uploads) not_found) _
        e in
    let (after, f2, g2) = >>=-eq-ok (reserve_media_rows c m actor key hash u db) _ g in
    let same : after ≡ r.after = ground arith in
    let there : find_where (is_usable m.account_id upload c.now) db.uploads ≡ some u =
      ground arith in
    let id = id-find_usable m.account_id upload c.now db.uploads u there in
    let v = reserve_media_rows-IsReserved c m actor key hash u db after f2 in
    ap (λ (d : Database). find_where (is_usable account upload now) d.uploads) (sym same)
    ∙ (ap (find_where (is_usable account upload now)) v.uploads
        ∙ (ap
              (λ i.
                find_where (is_usable account upload now)
                  (delete_where (λ (r : Upload). r.id == i && is_ready r.state) db.uploads))
              id
            ∙ find-usable_deleted account upload now db.uploads))
by_key-taken (some k) c m actor key hash upload account now db r e new =
    ground (arith, Result-cases (get_message k.message_id db))

refused :
    (d : Call) (q : NewMessage) (actor key hash upload : ℕ) (db : Database) (s : Reserved)
    → find_where (is_usable q.account_id upload d.now) db.uploads ≡ none
    → reserve_media_by_key none d q actor key hash upload db ≢ ok s
unfolding reserve_media_by_key
refused d q actor key hash upload db s gone e =
    let (u, f, g) =
      >>=-eq-ok (or_fail (find_where (is_usable q.account_id upload d.now) db.uploads) not_found) _
        e in
    ground (arith, gone)

-- Once a message has been reserved for an upload, a second reservation of that upload under a key
-- that is still free does not succeed, for any message, account and time.
pub reserve_media_send-taken :
    (c d : Call) (m n : NewMessage) (actor key hash upload actor' key' hash' : ℕ) (db : Database)
    (r : Reserved)
    → reserve_media_send c m actor key hash upload db ≡ ok r
    → r.created ≡ true
    → find_where (by_key actor' key') r.after.send_keys ≡ none
    → (s : Reserved) → reserve_media_send d n actor' key' hash' upload r.after ≢ ok s
unfolding reserve_media_send
reserve_media_send-taken c d m n actor key hash upload actor' key' hash' db r e new free s e' =
    let (u, f, g) =
      >>=-eq-ok (fail_if (is_incomplete m actor key hash || upload == 0) invalid) _ e in
    let (p, f2, g2) = >>=-eq-ok (prepare_message c (as_queued m)) _ g in
    let (u', f', g') =
      >>=-eq-ok (fail_if (is_incomplete n actor' key' hash' || upload == 0) invalid) _ e' in
    let (q, h, k) = >>=-eq-ok (prepare_message d (as_queued n)) _ g' in
    refused d q actor' key' hash' upload r.after s
      (by_key-taken (find_where (by_key actor key) db.send_keys) c p actor key hash upload
        q.account_id d.now db r g2 new)
      (ap (λ o. reserve_media_by_key o d q actor' key' hash' upload r.after) (sym free) ∙ k)
