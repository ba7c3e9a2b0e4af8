-- ===== src/Store/Runs.antt =====
-- The run queue of cloud/store.py (`CloudStore`): claim, heartbeat, completion, failure,
-- cancellation, recovery of expired leases, and the events of a run.
use kirakira_agent_online.Prelude.{
  ℕ, ◌+◌, min, String, Bool, ◌&&◌, ◌||◌, not, Option, none, some, List, [], ◌∷◌, ◌++◌, ◌==◌, ltb,
  leb, if◌then◌else◌, is_some, is_text, is_empty, or_else, Result, ok, err, ◌>>=◌, find, put, keep,
  any, take, cut, ℤ, at_least, Fields, end, field, number, uuid, str,
}
use kirakira_agent_online.Store.{
  StoreError, not_found_error, state_error, integrity_error, RunStatus, queued, running, completed,
  failed, cancelled, Run, RunEvent, Conversation, Message, Db, Tx, is_queued, is_running, find_run,
  find_conversation, append_run_event, write_run, enqueue_channel_deliveries, status_data,
}

-- `get_run`
unfoldable pub get_run : ℕ → ℕ → Db → Result StoreError Run
get_run user_id run_id db = elim (find (λ r. r.id == run_id && r.user_id == user_id) db.runs) [
  | none ↦ err not_found_error
  | some run ↦ ok run
]

-- `ORDER BY created_at, id`
unfoldable pub precedes : Run → Run → Bool
precedes a b = ltb a.created_at b.created_at || (a.created_at == b.created_at && leb a.id b.id)

unfoldable pub earlier : Run → Option Run → Run
unfolding precedes
earlier a none = a
earlier a (some b) = if precedes a b then a else b

-- The first row, in that order, that passes a test.
unfoldable pub earliest : (Run → Bool) → List Run → Option Run
unfolding earlier
earliest p [] = none
earliest p (r ∷ rows) = let rest = earliest p rows in if p r then some (earlier r rest) else rest

-- A running run of a conversation.
abbrev pub running_in : ℕ → Run → Bool
running_in c r = r.conversation_id == c && is_running r.status

-- The condition of the query of `claim_next_run`. `seen` are the rows that its subquery reads,
-- which other transactions may have changed since, and `locked` the rows that they hold.
unfoldable pub claimable : List Run → (ℕ → Bool) → Run → Bool
claimable seen locked r =
    is_queued r.status && not (any (running_in r.conversation_id) seen) && not (locked r.id)

unfoldable pub started_run : String → ℤ → ℕ → Run → Run
started_run worker_id lease_seconds now run = record run {
  status = running;
  lease_owner = some worker_id;
  lease_expires_at = some (now + at_least 10 lease_seconds);
  heartbeat_at = some now;
  started_at = or_else run.started_at now;
  attempt = run.attempt + 1;
}

-- The commit of `claim_next_run`: the partial unique index `uq_runs_one_running_per_conversation`
-- refuses a second running run of the conversation, and the loser returns None.
unfoldable pub start_run : String → ℤ → ℕ → Run → Db → Option Run × Db
unfolding started_run
start_run worker_id lease_seconds now run db =
    let run' = started_run worker_id lease_seconds now run in
    if any (running_in run.conversation_id) db.runs then (none, db) else (
      some run',
      write_run run' "run.started"
          (field "status" (str "running") (field "attempt" (number run'.attempt) end)) db,
    )

unfoldable pub claim_next_run : List Run → (ℕ → Bool) → String → ℤ → ℕ → Db → Option Run × Db
claim_next_run seen locked worker_id lease_seconds now db =
    elim (earliest (claimable seen locked) db.runs) [
      | none ↦ (none, db)
      | some run ↦ start_run worker_id lease_seconds now run db
    ]

-- The guard that the worker's transactions share: the run exists, runs, and is leased to the worker.
unfoldable pub check_owner : String → Option Run → Result StoreError Run
check_owner worker_id none = err not_found_error
check_owner worker_id (some run) =
    if is_running run.status && is_text run.lease_owner worker_id then ok run else err state_error

unfoldable pub owned_run : ℕ → String → Db → Result StoreError Run
owned_run run_id worker_id db = check_owner worker_id (find_run run_id db)

-- A run at the end of its life, with no lease.
unfoldable pub ended : RunStatus → ℕ → Run → Run
ended status now run = record run {
  status = status;
  completed_at = some now;
  lease_owner = none;
  lease_expires_at = none;
}

unfoldable pub cancel_run : ℕ → Run → Db → Run × Db
unfolding ended
cancel_run now run db =
    let run' = ended cancelled now run in
    (run', write_run run' "run.cancelled" (status_data "cancelled") db)

-- The arguments of `complete_run` besides the run and the worker, with the id of a new message.
pub record Completion : Type 0 where
  pub assistant_content : String
  pub assistant_message_id : ℕ  -- the caller's, or a fresh one
  pub assistant_metadata : Fields
  pub conversation_metadata : Option Fields
  pub last_consolidated : Option ℤ

unfoldable pub output_message : Completion → Conversation → Message
output_message a c = record {
  id = a.assistant_message_id;
  conversation_id = c.id;
  seq = c.next_message_seq;
  role = "assistant";
  content = a.assistant_content;
  agent_metadata = a.assistant_metadata;
  delivery_key = none;
}

unfoldable pub advanced : Completion → ℕ → Conversation → Conversation
advanced a now c = record c {
  next_message_seq = c.next_message_seq + 1;
  updated_at = now;
  agent_metadata = elim a.conversation_metadata [ none ↦ c.agent_metadata | some m ↦ m ];
  last_consolidated = elim a.last_consolidated [
    | none ↦ c.last_consolidated
    | some n ↦ at_least 0 n
  ];
}

unfoldable pub completed_run : Completion → ℕ → Run → Run
unfolding ended
completed_run a now run = record (ended completed now run) {
  output_message_id = some a.assistant_message_id;
}

-- The answer of a completion that was not cancelled, with its deliveries.
unfoldable pub answer_writes : Completion → ℕ → Conversation → Db → Db
unfolding output_message advanced
answer_writes a now c db = enqueue_channel_deliveries now (output_message a c) (record db {
  conversations = put (λ r. r.id) (advanced a now c) db.conversations;
  messages = db.messages ++ (output_message a c ∷ []);
})

-- The writes of that completion: the answer and the run.
unfoldable pub complete_writes : Completion → ℕ → Run → Conversation → Db → Db
unfolding completed_run answer_writes
complete_writes a now run c db =
    write_run (completed_run a now run) "run.completed"
      (field "status" (str "completed")
        (field "output_message_id" (uuid a.assistant_message_id) end))
      (answer_writes a now c db)

unfoldable pub complete_in : Completion → ℕ → Run → Db → Tx (Run × Option Message)
complete_in a now run db = elim (find_conversation run.conversation_id db) [
  | none ↦ err state_error
  | some c ↦
      if any (λ m. m.id == a.assistant_message_id) db.messages
      then err integrity_error
      else ok ((completed_run a now run, some (output_message a c)), complete_writes a now run c db)
]

unfoldable pub complete_run : ℕ → String → Completion → ℕ → Db → Tx (Run × Option Message)
complete_run run_id worker_id a now db = do
  run ← owned_run run_id worker_id db
  if is_some run.cancel_requested_at
      then (let (run', db') = cancel_run now run db in ok ((run', none), db'))
      else complete_in a now run db

-- `heartbeat_run`: renews the lease and says whether a cancellation was requested.
unfoldable pub heartbeat_run : ℕ → String → ℤ → ℕ → Db → Tx Bool
heartbeat_run run_id worker_id lease_seconds now db = do
  run ← owned_run run_id worker_id db
  ok (
    is_some run.cancel_requested_at,
    record db {
      runs =
          put (λ r. r.id)
            (record run {
              heartbeat_at = some now;
              lease_expires_at = some (now + at_least 10 lease_seconds);
            })
            db.runs;
    },
  )

unfoldable pub cancel_owned_run : ℕ → String → ℕ → Db → Tx Run
cancel_owned_run run_id worker_id now db = do
  run ← owned_run run_id worker_id db
  ok (cancel_run now run db)

-- `{**({"error": run.error} if run.error else {})}`
abbrev error_field : Option String → Fields
error_field none = end
error_field (some e) = if is_empty e then end else field "error" (str e) end

unfoldable pub failed_run : String → ℕ → Run → Run
unfolding ended
failed_run error now run = record (ended failed now run) { error = some (cut 8000 error) }

unfoldable pub fail_run : ℕ → String → String → ℕ → Db → Tx Run
fail_run run_id worker_id error now db = do
  run ← owned_run run_id worker_id db
  if is_some run.cancel_requested_at
      then (let run' = ended cancelled now run in
          ok (
            run',
            write_run run' "run.cancelled"
                (field "status" (str "cancelled") (error_field run.error)) db,
          ))
      else (let run' = failed_run error now run in
          ok (
            run',
            write_run run' "run.failed" (field "status" (str "failed") (error_field run'.error)) db,
          ))

-- The tenant's row, as `request_cancel` selects it.
unfoldable pub user_run : ℕ → ℕ → Db → Option Run
user_run user_id run_id db = find (λ r. r.id == run_id && r.user_id == user_id) db.runs

-- A queued run is cancelled at once, a running one is asked to stop, any other is returned as it is.
unfoldable pub cancel_by_status : RunStatus → ℕ → Run → Db → Run × Db
cancel_by_status queued now run db =
    let run' = record run { status = cancelled; completed_at = some now } in
    (run', write_run run' "run.cancelled" (status_data "cancelled") db)
cancel_by_status running now run db =
    let run' = record run { cancel_requested_at = some now } in
    (run', write_run run' "run.cancel_requested" (status_data "running") db)
cancel_by_status _ now run db = (run, db)

unfoldable pub request_cancel : ℕ → ℕ → ℕ → Db → Tx Run
unfolding user_run
request_cancel user_id run_id now db = elim (user_run user_id run_id db) [
  | none ↦ err not_found_error
  | some run ↦ ok (cancel_by_status run.status now run db)
]

-- `list_run_events`: the events are stored in the order of their numbers.
unfoldable pub list_run_events : ℕ → ℕ → ℤ → ℤ → Db → Result StoreError (List RunEvent)
unfolding user_run
list_run_events user_id run_id after_seq limit db = elim (user_run user_id run_id db) [
  | none ↦ err not_found_error
  | some run ↦ ok (
      take (min (at_least 1 limit) 1000) (
        keep (λ e. e.run_id == run_id && e.user_id == user_id && ltb (at_least 0 after_seq) e.seq)
          db.events))
]

-- `append_runtime_run_event`
unfoldable pub append_runtime_run_event : ℕ → String → Fields → Db → Tx (Unit {0})
append_runtime_run_event run_id event_type event_data db = elim (find_run run_id db) [
  | none ↦ err not_found_error
  | some run ↦ ok (tt, record db { events = append_run_event run event_type event_data db.events })
]
