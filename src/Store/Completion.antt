-- ===== src/Store/Completion.antt =====
-- `complete_run` and `request_cancel` of cloud/store.py keep the tables valid.
use kirakira_agent_online.Prelude.{
  ℕ, String, ◌≡◌, refl, ap, sym, subst, ◌∙◌, inl, inr, none, some, List, [], ◌∷◌, ◌==◌, if_ind,
  is_some, ok, find, any, Fields, Option-cases,
}
use kirakira_agent_online.Prelude.Table.{find-find_key}
use kirakira_agent_online.Store.{
  RunStatus, queued, running, completed, failed, cancelled, Run, Message, Conversation, ChannelLink,
  Db, find_run, find_conversation, enqueue_links, enqueue_channel_deliveries, status_data,
}
use kirakira_agent_online.Store.Runs.{
  Completion, owned_run, cancel_run, completed_run, answer_writes, complete_writes, complete_in,
  complete_run, output_message, user_run, cancel_by_status, request_cancel,
  append_runtime_run_event,
}
use kirakira_agent_online.Store.Valid.{
  Shape, RowValid, Valid, append_run_event-Numbered, write_run-Valid,
}
use kirakira_agent_online.Store.Invariant.{
  owned_run-Owned, Owned-found, Owned-Shape, found-Shape, stop-Valid, cancelled-Valid,
  same_runs-Valid, Keeps, Keeps-bind, same_place, is_some-none,
}

-- The deliveries of a message change neither the runs nor their events.
pub enqueue_links-runs :
    (now m : ℕ) (links : List ChannelLink) (db : Db)
    → ((enqueue_links now m links db).runs ≡ db.runs)
      × ((enqueue_links now m links db).events ≡ db.events)
unfolding enqueue_links
enqueue_links-runs now m [] db = (refl, refl)
enqueue_links-runs now m (l ∷ links) db = enqueue_links-runs now m links _

pub enqueue-runs :
    (now : ℕ) (m : Message) (db : Db)
    → ((enqueue_channel_deliveries now m db).runs ≡ db.runs)
      × ((enqueue_channel_deliveries now m db).events ≡ db.events)
unfolding enqueue_channel_deliveries
enqueue-runs now m db = enqueue_links-runs now m.id _ db

completed-RowValid :
    (a : Completion) (now : ℕ) (run : Run)
    → run.cancel_requested_at ≡ none
    → RowValid (completed_run a now run)
unfolding completed_run
completed-RowValid a now run c = record { shape = (refl, refl, refl, c, refl) }

pub answer_writes-runs :
    (a : Completion) (now : ℕ) (c : Conversation) (db : Db)
    → ((answer_writes a now c db).runs ≡ db.runs) × ((answer_writes a now c db).events ≡ db.events)
unfolding answer_writes
answer_writes-runs a now c db = enqueue-runs now (output_message a c) _

-- Tables with the same runs find the same run.
pub same_runs-find : (db db' : Db) (k : ℕ) → db'.runs ≡ db.runs → find_run k db' ≡ find_run k db
unfolding find_run
same_runs-find db db' k e = ap (find (λ r. r.id == k)) e

complete_writes-Valid :
    (a : Completion) (now : ℕ) (run : Run) (c : Conversation) (db : Db)
    → Valid db
    → find_run run.id db ≡ some run
    → run.cancel_requested_at ≡ none
    → Valid (complete_writes a now run c db)
unfolding complete_writes
complete_writes-Valid a now run c db v f n =
    let (r, e) = answer_writes-runs a now c db in
    stop-Valid (completed_run a now run) run "run.completed" _ (answer_writes a now c db)
      (same_runs-Valid r e v) (same_runs-find db (answer_writes a now c db) run.id r ∙ f)
      (completed-RowValid a now run n) refl

complete_in-Keeps :
    (a : Completion) (now : ℕ) (run : Run) (db : Db)
    → Valid db
    → find_run run.id db ≡ some run
    → run.cancel_requested_at ≡ none
    → Keeps db (complete_in a now run db)
unfolding complete_in
complete_in-Keeps a now run db v f n =
    elim (Option-cases (find_conversation run.conversation_id db)) [
      | inl e ↦ rw (e, complete_in) (record { valid = v })
      | inr (c, e) ↦
          rw (e, complete_in)
            (if_ind (Keeps db) (any (λ m. m.id == a.assistant_message_id) db.messages)
              (λ _. record { valid = v })
              (λ _. record { valid = complete_writes-Valid a now run c db v f n }))
    ]

pub complete_run-Keeps :
    (run_id : ℕ) (w : String) (a : Completion) (now : ℕ) (db : Db)
    → Valid db
    → Keeps db (complete_run run_id w a now db)
unfolding complete_run cancel_run
complete_run-Keeps i w a now db v = Keeps-bind (owned_run i w db) v λ run e.
    let o = owned_run-Owned i w db run e in
    if_ind (Keeps db) (is_some run.cancel_requested_at)
      (λ _. record {
        valid =
            cancelled-Valid now run (status_data "cancelled") db v (Owned-found o)
              (Owned-Shape v o).3;
      })
      (λ n.
        complete_in-Keeps a now run db v (Owned-found o) (is_some-none run.cancel_requested_at n))

-- The row that a tenant's query finds is the row of its id, in the shape of its status.
pub user_run-found :
    (u k : ℕ) (db : Db) (run : Run)
    → Valid db
    → user_run u k db ≡ some run
    → find_run run.id db ≡ some run
unfolding user_run find_run
user_run-found u k db run v f = find-find_key (λ r. r.id) _ db.runs run f (v.unique run.id)

cancel_by_status-Keeps :
    (s : RunStatus) (now : ℕ) (run : Run) (db : Db)
    → Valid db
    → find_run run.id db ≡ some run
    → run.status ≡ s
    → Shape s run
    → Keeps db (ok (cancel_by_status s now run db))
unfolding cancel_by_status
cancel_by_status-Keeps queued now run db v f e h = record {
  valid =
      stop-Valid (record run { status = cancelled; completed_at = some now }) run "run.cancelled" _
        db v f (record { shape = (h.0, h.1, refl, h.4) }) refl;
}
cancel_by_status-Keeps running now run db v f e h = record {
  valid =
      write_run-Valid (record run { cancel_requested_at = some now }) run "run.cancel_requested" _
        db v f
        (record {
          shape = subst (λ s. Shape s (record run { cancel_requested_at = some now })) (sym e) h;
        })
        (λ c. inl (same_place (record run { cancel_requested_at = some now }) run refl refl c));
}
cancel_by_status-Keeps completed now run db v f e h = record { valid = v }
cancel_by_status-Keeps failed now run db v f e h = record { valid = v }
cancel_by_status-Keeps cancelled now run db v f e h = record { valid = v }

pub request_cancel-Keeps : (u k now : ℕ) (db : Db) → Valid db → Keeps db (request_cancel u k now db)
unfolding request_cancel
request_cancel-Keeps u k now db v = elim (Option-cases (user_run u k db)) [
  | inl e ↦ rw (e, request_cancel) (record { valid = v })
  | inr (run, e) ↦
      let f = user_run-found u k db run v e in
      rw (e, request_cancel)
        (cancel_by_status-Keeps run.status now run db v f refl (found-Shape db run.id run v f))
]

pub append_runtime_run_event-Keeps :
    (k : ℕ) (t : String) (d : Fields) (db : Db)
    → Valid db
    → Keeps db (append_runtime_run_event k t d db)
unfolding append_runtime_run_event
append_runtime_run_event-Keeps k t d db v = elim (Option-cases (find_run k db)) [
  | inl e ↦ rw (e, append_runtime_run_event) (record { valid = v })
  | inr (run, e) ↦
      rw (e, append_runtime_run_event)
        (record {
          valid = record {
            rows = v.rows;
            unique = v.unique;
            exclusive = v.exclusive;
            numbered = λ j. append_run_event-Numbered run t d db.events j (v.numbered j);
          };
        })
]
