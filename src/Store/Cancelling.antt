-- ===== src/Store/Cancelling.antt =====
-- A requested cancellation in cloud/store.py is never lost: what each transaction does with such a run.
use mathlib.Core.Option.{some-injective}
use kirakira_agent_online.Prelude.{
  ℕ, ◌+◌, ◌≤◌, String, ◌≡◌, refl, ap, sym, subst, ◌∙◌, inl, inr, Bool, true, Option, some, List, [],
  ◌∷◌, arith, ◌==◌, if_ind, is_some, Result, ok, err, ◌>>=◌, find, put, any, Fields, ℤ, at_least,
  Bool-cases, Option-cases, count, All, All-map, ==→eq, ==_refl,
}
use kirakira_agent_online.Prelude.Table.{find_key-put_self, find_key-put_ne, find-append_some}
use kirakira_agent_online.Store.{
  StoreError, RunStatus, queued, running, completed, failed, cancelled, Run, Message, Conversation,
  Db, Tx, after, find_run, find_conversation, write_run,
}
use kirakira_agent_online.Store.Runs.{
  Completion, claimable, earliest, started_run, start_run, claim_next_run, owned_run, ended,
  cancel_run, completed_run, complete_writes, complete_in, complete_run, heartbeat_run,
  cancel_owned_run, failed_run, fail_run, user_run, cancel_by_status, request_cancel,
  append_runtime_run_event, answer_writes,
}
use kirakira_agent_online.Store.Reaper.{
  expired_runs, released, requeue_run, requeue_each, requeue_expired_runs,
}
use kirakira_agent_online.Store.Submit.{Submission, submit, submit_writes, queued_run, clean_key}
use kirakira_agent_online.Store.Valid.{Valid}
use kirakira_agent_online.Store.Invariant.{owned_run-Owned, Owned-found}
use kirakira_agent_online.Store.Completion.{answer_writes-runs, user_run-found, same_runs-find}
use kirakira_agent_online.Store.Claim.{claimed-found}
use kirakira_agent_online.Store.Recovery.{
  requeue_run-found, Expired, expired_runs-Expired, expired_runs-distinct,
}
use kirakira_agent_online.Store.Submission.{submit-cases}

-- A run that was asked to stop.
pub record Asked (k : ℕ) (db : Db) : Type 0 where
  pub row : Run
  pub found : find_run k db ≡ some row
  pub asked : is_some row.cancel_requested_at ≡ true

same-Asked : (k : ℕ) (db db' : Db) → db'.runs ≡ db.runs → Asked k db → Asked k db'
unfolding find_run
same-Asked k db db' e v = record {
  row = v.row;
  found = ap (find (λ r. r.id == k)) e ∙ v.found;
  asked = v.asked;
}

-- The update of a found row that keeps its request.
put-Asked :
    (k : ℕ) (new old : Run) (db db' : Db)
    → db'.runs ≡ put (λ r. r.id) new db.runs
    → find_run new.id db ≡ some old
    → (is_some old.cancel_requested_at ≡ true → is_some new.cancel_requested_at ≡ true)
    → Asked k db
    → Asked k db'
unfolding find_run
put-Asked k new old db db' e f c v = elim (Bool-cases (new.id == k)) [
  | inl i ↦
      let j = ==→eq new.id k i in
      let o : some old ≡ some v.row = sym f ∙ ap (λ n. find (λ r. r.id == n) db.runs) j ∙ v.found in
      record {
        row = new;
        found =
            ap (find (λ r. r.id == k)) e
            ∙ subst (λ n. find (λ r. r.id == n) (put (λ r. r.id) new db.runs) ≡ some new) j
                (find_key-put_self (λ r. r.id) new old db.runs f);
        asked = c (
            subst (λ r. is_some r.cancel_requested_at ≡ true) (sym (some-injective old v.row o))
              v.asked);
      }
  | inr i ↦ record {
    row = v.row;
    found = ap (find (λ r. r.id == k)) e ∙ find_key-put_ne (λ r. r.id) new db.runs k i ∙ v.found;
    asked = v.asked;
  }
]

after-Asked :
    (k : ℕ) {A B : Type 0} (db : Db) (m : Result StoreError A) (f : A → Tx B)
    → Asked k db
    → ((a : A) → m ≡ ok a → Asked k (after db (f a)))
    → Asked k (after db (m >>= f))
after-Asked k db (ok a) f v g = g a refl
after-Asked k db (err e) f v g = v

pub heartbeat-Asked :
    (k i : ℕ) (w : String) (l : ℤ) (now : ℕ) (db : Db)
    → Asked k db
    → Asked k (after db (heartbeat_run i w l now db))
unfolding heartbeat_run
heartbeat-Asked k i w l now db v = after-Asked k db (owned_run i w db) _ v λ run e.
    put-Asked k
      (record run { heartbeat_at = some now; lease_expires_at = some (now + at_least 10 l) }) run db
      _ refl (Owned-found (owned_run-Owned i w db run e)) (λ c. c) v

written-Asked :
    (k : ℕ) (new old : Run) (t : String) (d : Fields) (db : Db)
    → find_run new.id db ≡ some old
    → (is_some old.cancel_requested_at ≡ true → is_some new.cancel_requested_at ≡ true)
    → Asked k db
    → Asked k (write_run new t d db)
unfolding write_run
written-Asked k new old t d db f c v = put-Asked k new old db _ refl f c v

pub cancel_owned-Asked :
    (k i : ℕ) (w : String) (now : ℕ) (db : Db)
    → Asked k db
    → Asked k (after db (cancel_owned_run i w now db))
unfolding cancel_owned_run cancel_run ended
cancel_owned-Asked k i w now db v = after-Asked k db (owned_run i w db) _ v λ run e.
    written-Asked k (ended cancelled now run) run "run.cancelled" _ db
      (Owned-found (owned_run-Owned i w db run e)) (λ c. c) v

pub fail-Asked :
    (k i : ℕ) (w error : String) (now : ℕ) (db : Db)
    → Asked k db
    → Asked k (after db (fail_run i w error now db))
unfolding fail_run failed_run ended
fail-Asked k i w error now db v = after-Asked k db (owned_run i w db) _ v λ run e.
    let f = Owned-found (owned_run-Owned i w db run e) in
    if_ind (λ (t : Tx Run). Asked k (after db t)) (is_some run.cancel_requested_at)
      (λ _. written-Asked k (ended cancelled now run) run "run.cancelled" _ db f (λ c. c) v)
      (λ _. written-Asked k (failed_run error now run) run "run.failed" _ db f (λ c. c) v)

pub claim-Asked :
    (k : ℕ) (seen : List Run) (locked : ℕ → Bool) (w : String) (l : ℤ) (now : ℕ) (db : Db)
    → Valid db
    → Asked k db
    → Asked k (claim_next_run seen locked w l now db).1
unfolding claim_next_run start_run started_run
claim-Asked k seen locked w l now db u v =
    elim (Option-cases (earliest (claimable seen locked) db.runs)) [
      | inl e ↦ rw (e, claim_next_run) v
      | inr (run, e) ↦
          rw (e, claim_next_run)
            (if_ind (λ (x : Option Run × Db). Asked k x.1) (any _ db.runs) (λ _. v)
              (λ _.
                written-Asked k (started_run w l now run) run "run.started" _ db
                  (claimed-found seen locked db run u e) (λ c. c) v))
    ]

complete_writes-Asked :
    (k : ℕ) (a : Completion) (now : ℕ) (run : Run) (c : Conversation) (db : Db)
    → find_run run.id db ≡ some run
    → Asked k db
    → Asked k (complete_writes a now run c db)
unfolding complete_writes completed_run ended
complete_writes-Asked k a now run c db f v =
    let e = (answer_writes-runs a now c db).0 in
    written-Asked k (completed_run a now run) run "run.completed" _ (answer_writes a now c db)
      (same_runs-find db (answer_writes a now c db) run.id e ∙ f) (λ c. c)
      (same-Asked k db (answer_writes a now c db) e v)

complete_in-Asked :
    (k : ℕ) (a : Completion) (now : ℕ) (run : Run) (db : Db)
    → find_run run.id db ≡ some run
    → Asked k db
    → Asked k (after db (complete_in a now run db))
unfolding complete_in
complete_in-Asked k a now run db f v =
    elim (Option-cases (find_conversation run.conversation_id db)) [
      | inl e ↦ rw (e, complete_in) v
      | inr (c, e) ↦
          rw (e, complete_in)
            (if_ind (λ (t : Tx (Run × Option Message)). Asked k (after db t))
              (any (λ m. m.id == a.assistant_message_id) db.messages) (λ _. v)
              (λ _. complete_writes-Asked k a now run c db f v))
    ]

pub complete-Asked :
    (k i : ℕ) (w : String) (a : Completion) (now : ℕ) (db : Db)
    → Asked k db
    → Asked k (after db (complete_run i w a now db))
unfolding complete_run cancel_run ended
complete-Asked k i w a now db v = after-Asked k db (owned_run i w db) _ v λ run e.
    let f = Owned-found (owned_run-Owned i w db run e) in
    if_ind (λ (t : Tx (Run × Option Message)). Asked k (after db t))
      (is_some run.cancel_requested_at)
      (λ _. written-Asked k (ended cancelled now run) run "run.cancelled" _ db f (λ c. c) v)
      (λ _. complete_in-Asked k a now run db f v)

by_status-Asked :
    (s : RunStatus) (k now : ℕ) (run : Run) (db : Db)
    → find_run run.id db ≡ some run
    → Asked k db
    → Asked k (cancel_by_status s now run db).1
unfolding cancel_by_status
by_status-Asked queued k now run db f v =
    written-Asked k (record run { status = cancelled; completed_at = some now }) run "run.cancelled"
      _ db f (λ c. c) v
by_status-Asked running k now run db f v =
    written-Asked k (record run { cancel_requested_at = some now }) run "run.cancel_requested" _ db
      f (λ c. refl) v
by_status-Asked completed k now run db f v = v
by_status-Asked failed k now run db f v = v
by_status-Asked cancelled k now run db f v = v

pub request-Asked :
    (k u i now : ℕ) (db : Db)
    → Valid db
    → Asked k db
    → Asked k (after db (request_cancel u i now db))
unfolding request_cancel
request-Asked k u i now db va v = elim (Option-cases (user_run u i db)) [
  | inl e ↦ rw (e, request_cancel) v
  | inr (run, e) ↦
      rw (e, request_cancel)
        (by_status-Asked run.status k now run db (user_run-found u i db run va e) v)
]

pub event-Asked :
    (k i : ℕ) (t : String) (d : Fields) (db : Db)
    → Asked k db
    → Asked k (after db (append_runtime_run_event i t d db))
unfolding append_runtime_run_event
event-Asked k i t d db v = elim (Option-cases (find_run i db)) [
  | inl e ↦ rw (e, append_runtime_run_event) v
  | inr (run, e) ↦ rw (e, append_runtime_run_event) (same-Asked k db _ refl v)
]

-- A row that was not found before is no row that was asked to stop.
appended-Asked :
    (k : ℕ) (a : Submission) (key : Option String) (now : ℕ) (c : Conversation) (db : Db)
    → Asked k db
    → Asked k (submit_writes a key now c db)
unfolding submit_writes find_run
appended-Asked k a key now c db v = record {
  row = v.row;
  found = find-append_some (λ r. r.id == k) db.runs (queued_run a key now ∷ []) v.row v.found;
  asked = v.asked;
}

submitted-Asked :
    (k : ℕ) (db : Db) (t : Tx (Message × Run))
    → Asked k db
    → ((x : Message × Run) (db' : Db) → t ≡ ok (x, db') → Asked k db')
    → Asked k (after db t)
submitted-Asked k db (ok (x, db')) v f = f x db' refl
submitted-Asked k db (err e) v f = v

pub submit-Asked :
    (k : ℕ) (seen : List Run) (a : Submission) (now : ℕ) (db : Db)
    → Asked k db
    → Asked k (after db (submit seen a now db))
submit-Asked k seen a now db v = submitted-Asked k db (submit seen a now db) v λ x db' h.
    elim (submit-cases seen a now db x db' h) [
      | inl e ↦ subst (Asked k) (sym e) v
      | inr w ↦
          subst (Asked k) (sym w.writes)
            (appended-Asked k a (clean_key a.idempotency_key) now w.conversation db v)
    ]

requeue_run-Asked :
    (k now : ℕ) (run : Run) (db : Db)
    → find_run run.id db ≡ some run
    → Asked k db
    → Asked k (requeue_run now run db)
unfolding requeue_run released ended
requeue_run-Asked k now run db f v =
    if_ind (Asked k) (is_some run.cancel_requested_at)
      (λ _. written-Asked k (ended cancelled now run) run "run.cancelled" _ db f (λ c. c) v)
      (λ _. written-Asked k (released run) run "run.requeued" _ db f (λ c. c) v)

others-found :
    (now : ℕ) (run : Run) (db : Db) (rows : List Run)
    → count (λ r. r.id == run.id) rows ≡ 0
    → All (λ r. find_run r.id db ≡ some r) rows
    → All (λ r. find_run r.id (requeue_run now run db) ≡ some r) rows
others-found now run db [] n all = tt
others-found now run db (x ∷ rows) n all = (
  requeue_run-found now run db x.id (ground (arith, ==→eq run.id x.id)) ∙ all.0,
  others-found now run db rows (ground arith) all.1,
)

requeue_each-Asked :
    (k now : ℕ) (rows : List Run) (db : Db)
    → ((x : ℕ) → count (λ r. r.id == x) rows ≤ 1)
    → All (λ r. find_run r.id db ≡ some r) rows
    → Asked k db
    → Asked k (requeue_each now rows db)
unfolding requeue_each
requeue_each-Asked k now [] db u all v = v
requeue_each-Asked k now (run ∷ rows) db u all v =
    requeue_each-Asked k now rows (requeue_run now run db) (λ x. ground (arith, u x))
      (others-found now run db rows (ground (arith, u run.id, ==_refl run.id)) all.1)
      (requeue_run-Asked k now run db all.0 v)

pub recovery-Asked :
    (k : ℕ) (locked : ℕ → Bool) (limit : ℤ) (now : ℕ) (db : Db)
    → Valid db
    → Asked k db
    → Asked k (requeue_expired_runs locked limit now db).1
unfolding requeue_expired_runs
recovery-Asked k locked limit now db u v =
    requeue_each-Asked k now (expired_runs locked limit now db) db
      (expired_runs-distinct locked limit now db u)
      (All-map (Expired now db) (λ r. find_run r.id db ≡ some r) (expired_runs locked limit now db)
        (λ r e. e.found) (expired_runs-Expired locked limit now db u))
      v
