-- ===== src/Store/Invariant.antt =====
-- Every transaction of the run queue of cloud/store.py keeps its tables valid.
use kirakira_agent_online.Prelude.{
  ℕ, ◌+◌, ◌≤◌, String, ◌≡◌, refl, sym, subst, true, false, Option, none, some, arith, ◌==◌, if_ind,
  is_some, is_text, Result, ok, err, ◌>>=◌, put, All, ind, Fields, end, ℤ, at_least, inl, ==→eq,
}
use kirakira_agent_online.Prelude.Table.{find-All, find-holds}
use kirakira_agent_online.Store.{
  StoreError, running, cancelled, Run, Db, Tx, after, is_running, find_run, write_run, status_data,
}
use kirakira_agent_online.Store.Runs.{
  running_in, check_owner, owned_run, ended, cancel_run, heartbeat_run, cancel_owned_run,
  failed_run, fail_run,
}
use kirakira_agent_online.Store.Valid.{Shape, RowValid, Valid, write_run-Valid}

-- A worker that passes the guard holds a row of the table, running and leased to it.
pub record Owned (run_id : ℕ) (worker_id : String) (run : Run) (db : Db) : Type 0 where
  pub found : find_run run_id db ≡ some run
  pub key : run.id ≡ run_id
  pub runs : run.status ≡ running
  pub lease : is_text run.lease_owner worker_id ≡ true

check_owner_ok :
    (w : String) (o : Option Run) (run : Run)
    → check_owner w o ≡ ok run
    → (o ≡ some run) × (run.status ≡ running) × (is_text run.lease_owner w ≡ true)
unfolding check_owner
check_owner_ok w none run h = cc
check_owner_ok w (some r) run h = ground arith

pub owned_run-Owned :
    (run_id : ℕ) (w : String) (db : Db) (run : Run)
    → owned_run run_id w db ≡ ok run
    → Owned run_id w run db
unfolding owned_run find_run
owned_run-Owned i w db run h =
    let (f, s, l) = check_owner_ok w (find_run i db) run h in
    record {
      found = f;
      key = ==→eq run.id i (find-holds (λ r. r.id == i) db.runs run f);
      runs = s;
      lease = l;
    }

-- The row of a worker, found by its own key, in the shape of a running run.
pub Owned-found :
    {i : ℕ} {w : String} {run : Run} {db : Db} → Owned i w run db → find_run run.id db ≡ some run
Owned-found {run = run} {db = db} o = subst (λ k. find_run k db ≡ some run) (sym o.key) o.found

pub found-Shape :
    (db : Db) (k : ℕ) (run : Run) → Valid db → find_run k db ≡ some run → Shape run.status run
unfolding find_run
found-Shape db k run v f = (find-All RowValid (λ r. r.id == k) db.runs run v.rows f).shape

pub Owned-Shape :
    {i : ℕ} {w : String} {run : Run} {db : Db} → Valid db → Owned i w run db → Shape running run
Owned-Shape {i} {run = run} {db = db} v o =
    subst (λ s. Shape s run) o.runs (found-Shape db i run v o.found)

-- A row that does not run takes no place in its conversation.
no_place :
    (new old : Run)
    → is_running new.status ≡ false
    → (c : ℕ) → ind (running_in c new) ≤ ind (running_in c old)
no_place new old h c = ground arith

-- Nor does a row that keeps its conversation and its status.
pub same_place :
    (new old : Run)
    → new.conversation_id ≡ old.conversation_id
    → new.status ≡ old.status
    → (c : ℕ) → ind (running_in c new) ≤ ind (running_in c old)
same_place new old p q c = ground arith

-- A found row is replaced by one in shape that does not run.
pub stop-Valid :
    (new old : Run) (t : String) (d : Fields) (db : Db)
    → Valid db
    → find_run new.id db ≡ some old
    → RowValid new
    → is_running new.status ≡ false
    → Valid (write_run new t d db)
stop-Valid new old t d db v f s n =
    write_run-Valid new old t d db v f s (λ c. inl (no_place new old n c))

-- The rows and the events are all that validity reads.
pub same_runs-Valid :
    {db db' : Db} → db'.runs ≡ db.runs → db'.events ≡ db.events → Valid db → Valid db'
same_runs-Valid {db} {db'} r e v = record {
  rows = subst (All RowValid) (sym r) v.rows;
  unique = λ k. rw r (v.unique k);
  exclusive = λ c. rw r (v.exclusive c);
  numbered = λ k. rw e (v.numbered k);
}

ended_cancelled-RowValid :
    (now : ℕ) (run : Run) → run.output_message_id ≡ none → RowValid (ended cancelled now run)
unfolding ended
ended_cancelled-RowValid now run o = record { shape = (refl, refl, refl, o) }

-- The cancellation of a row of the table that has no answer.
pub cancelled-Valid :
    (now : ℕ) (run : Run) (d : Fields) (db : Db)
    → Valid db
    → find_run run.id db ≡ some run
    → run.output_message_id ≡ none
    → Valid (write_run (ended cancelled now run) "run.cancelled" d db)
unfolding ended
cancelled-Valid now run d db v f o =
    stop-Valid (ended cancelled now run) run "run.cancelled" d db v f
      (ended_cancelled-RowValid now run o) refl

-- An update with no event.
pub put-Valid :
    (new old : Run) (db : Db)
    → Valid db
    → find_run new.id db ≡ some old
    → RowValid new
    → new.conversation_id ≡ old.conversation_id
    → new.status ≡ old.status
    → Valid (record db { runs = put (λ r. r.id) new db.runs })
unfolding write_run
put-Valid new old db v f s p q =
    let w = write_run-Valid new old "" end db v f s (λ c. inl (same_place new old p q c)) in
    record { rows = w.rows; unique = w.unique; exclusive = w.exclusive; numbered = v.numbered }

-- A transaction keeps the tables valid, whether it commits or is rolled back.
pub record Keeps (db : Db) {A : Type 0} (t : Tx A) : Type 0 where
  pub valid : Valid (after db t)

pub Keeps-bind :
    {db : Db} {A B : Type 0} (m : Result StoreError A) {f : A → Tx B}
    → Valid db
    → ((a : A) → m ≡ ok a → Keeps db (f a))
    → Keeps db (m >>= f)
Keeps-bind (ok a) v k = k a refl
Keeps-bind (err e) v k = record { valid = v }

renewed-RowValid :
    (run : Run) (now until : ℕ)
    → run.status ≡ running
    → Shape running run
    → RowValid (record run { heartbeat_at = some now; lease_expires_at = some until })
renewed-RowValid run now until s h = record {
  shape =
      subst (λ x. Shape x (record run { heartbeat_at = some now; lease_expires_at = some until }))
        (sym s) (h.0, refl, h.2, h.3, h.4);
}

pub heartbeat_run-Keeps :
    (run_id : ℕ) (w : String) (l : ℤ) (now : ℕ) (db : Db)
    → Valid db
    → Keeps db (heartbeat_run run_id w l now db)
unfolding heartbeat_run
heartbeat_run-Keeps i w l now db v = Keeps-bind (owned_run i w db) v λ run e.
    let o = owned_run-Owned i w db run e in
    let u = now + at_least 10 l in
    record {
      valid =
          put-Valid (record run { heartbeat_at = some now; lease_expires_at = some u }) run db v
            (Owned-found o) (renewed-RowValid run now u o.runs (Owned-Shape v o)) refl refl;
    }

pub cancel_run-Keeps :
    (i : ℕ) (w : String) (now : ℕ) (run : Run) (db : Db)
    → Valid db
    → Owned i w run db
    → Keeps db (ok (cancel_run now run db))
unfolding cancel_run
cancel_run-Keeps i w now run db v o = record {
  valid =
      cancelled-Valid now run (status_data "cancelled") db v (Owned-found o) (Owned-Shape v o).3;
}

pub cancel_owned_run-Keeps :
    (run_id : ℕ) (w : String) (now : ℕ) (db : Db)
    → Valid db
    → Keeps db (cancel_owned_run run_id w now db)
unfolding cancel_owned_run
cancel_owned_run-Keeps i w now db v =
    Keeps-bind (owned_run i w db) v
      λ run e. cancel_run-Keeps i w now run db v (owned_run-Owned i w db run e)

failed-RowValid :
    (error : String) (now : ℕ) (run : Run)
    → run.cancel_requested_at ≡ none
    → RowValid (failed_run error now run)
unfolding failed_run
failed-RowValid error now run c = record { shape = (refl, refl, refl, c, refl) }

failed-Valid :
    (error : String) (now : ℕ) (run : Run) (d : Fields) (db : Db)
    → Valid db
    → find_run run.id db ≡ some run
    → run.cancel_requested_at ≡ none
    → Valid (write_run (failed_run error now run) "run.failed" d db)
unfolding failed_run
failed-Valid error now run d db v f c =
    stop-Valid (failed_run error now run) run "run.failed" d db v f
      (failed-RowValid error now run c) refl

pub is_some-none {ℓ} : {A : Type ℓ} (o : Option A) → is_some o ≡ false → o ≡ none
is_some-none o h = ground arith

pub fail_run-Keeps :
    (run_id : ℕ) (w error : String) (now : ℕ) (db : Db)
    → Valid db
    → Keeps db (fail_run run_id w error now db)
unfolding fail_run
fail_run-Keeps i w error now db v = Keeps-bind (owned_run i w db) v λ run e.
    let o = owned_run-Owned i w db run e in
    if_ind (Keeps db) (is_some run.cancel_requested_at)
      (λ _. record { valid = cancelled-Valid now run _ db v (Owned-found o) (Owned-Shape v o).3 })
      λ n. record {
        valid =
            failed-Valid error now run _ db v (Owned-found o)
              (is_some-none run.cancel_requested_at n);
      }
