-- ===== src/Store/Subagents.antt =====
-- The subagent jobs of cloud/store.py: durable tasks of a user that a worker claims, renews and finishes.
-- An id is a number, and its text a parameter where a message names it.
pub mod Moves
pub mod Requeue
pub mod Changes
pub mod Fate
use kirakira_agent_online.Prelude.{
  ℕ, ◌+◌, String, Bool, true, false, ◌&&◌, ◌||◌, not, Option, none, some, List, [], ◌∷◌, ◌++◌, ◌==◌,
  ltb, leb, str_append, is_empty, is_some, is_text, cut, if◌then◌else◌, Result, ok, err, ◌>>=◌,
  ◌>>◌, refuse_if, any, count, find, update, put, keep, take, map, first_by, ℤ, at_least, Fields,
  field, str, end, or_else,
}
use kirakira_agent_online.Store.{
  StoreError, not_found_error, state_error, integrity_error, RunStatus, queued, running, completed,
  failed, cancelled, Conversation, Message, Db, find_conversation, enqueue_channel_deliveries,
}
use kirakira_agent_online.Store.Reaper.{expires_before}

pub record CloudSubagentJob : Type 0 where
  pub id : ℕ
  pub user_id : ℕ
  pub conversation_id : ℕ
  pub task : String
  pub label : String
  pub profile : String
  pub max_iterations : ℕ
  pub status : RunStatus
  pub result : String
  pub result_metadata : Fields
  pub lease_owner : Option String
  pub lease_expires_at : Option ℕ
  pub cancel_requested_at : Option ℕ
  pub created_at : ℕ
  pub started_at : Option ℕ
  pub completed_at : Option ℕ

-- The table of jobs and the tables of the run queue.
pub record SubagentDb : Type 0 where
  pub jobs : List CloudSubagentJob
  pub db : Db

-- A transaction: its value and the tables, or an error, after which nothing was written.
abbrev pub SubagentTx : Type 0 → Type 0
SubagentTx A = Result StoreError (A × SubagentDb)

unfoldable pub is_queued_job : CloudSubagentJob → Bool
is_queued_job j = elim j.status [ queued ↦ true | _ ↦ false ]

unfoldable pub is_running_job : CloudSubagentJob → Bool
is_running_job j = elim j.status [ running ↦ true | _ ↦ false ]

-- `status.in_(("queued", "running"))`
unfoldable pub is_active_job : CloudSubagentJob → Bool
unfolding is_queued_job is_running_job
is_active_job j = is_queued_job j || is_running_job j

abbrev pub find_job : ℕ → List CloudSubagentJob → Option CloudSubagentJob
find_job id jobs = find (λ j. j.id == id) jobs

-- The `UPDATE` of one row.
unfoldable pub change_job :
    ℕ → (CloudSubagentJob → CloudSubagentJob) → List CloudSubagentJob → List CloudSubagentJob
unfolding update
change_job id f jobs = update (λ j. j.id == id) f jobs

abbrev pub job_limit : ℕ
job_limit = 3

abbrev pub active_of : ℕ → List CloudSubagentJob → ℕ
active_of user_id jobs = count (λ j. j.user_id == user_id && is_active_job j) jobs

-- The arguments of `create_subagent_job` besides the owner.
pub record SubagentTask : Type 0 where
  pub task : String
  pub label : String
  pub profile : String
  pub max_iterations : ℕ
  pub starts_running : Bool

unfoldable pub new_subagent_job : ℕ → ℕ → ℕ → SubagentTask → ℕ → CloudSubagentJob
new_subagent_job id user_id conversation_id a now = record {
  id = id;
  user_id = user_id;
  conversation_id = conversation_id;
  task = a.task;
  label = cut 200 a.label;
  profile = a.profile;
  max_iterations = a.max_iterations;
  status = if a.starts_running then running else queued;
  result = "";
  result_metadata = end;
  lease_owner = none;
  lease_expires_at = none;
  cancel_requested_at = none;
  created_at = now;
  started_at = if a.starts_running then some now else none;
  completed_at = none;
}

-- `id` is the new row's, a random one; the primary key refuses one that is taken.
unfoldable pub create_subagent_job :
    ℕ → ℕ → ℕ → SubagentTask → ℕ → SubagentDb → SubagentTx CloudSubagentJob
unfolding new_subagent_job is_active_job
create_subagent_job id user_id conversation_id a now s = do
  refuse_if (not (any (λ c. c.id == conversation_id && c.user_id == user_id) s.db.conversations))
      not_found_error
  refuse_if (leb job_limit (active_of user_id s.jobs)) state_error
  refuse_if (any (λ j. j.id == id) s.jobs) integrity_error
  ok (
    new_subagent_job id user_id conversation_id a now,
    record s { jobs = s.jobs ++ (new_subagent_job id user_id conversation_id a now ∷ []) },
  )

-- What a cancellation does to a job that is found.
unfoldable pub cancelled_job : ℕ → CloudSubagentJob → CloudSubagentJob
cancelled_job now j = elim j.status [
  | queued ↦ record j { status = cancelled; completed_at = some now }
  | running ↦ record j { cancel_requested_at = some now }
  | _ ↦ j
]

unfoldable pub cancel_subagent_job : ℕ → ℕ → ℕ → SubagentDb → SubagentTx CloudSubagentJob
unfolding cancelled_job change_job
cancel_subagent_job user_id id now s = elim (find_job id s.jobs) [
  | none ↦ err not_found_error
  | some j ↦
      if not (j.user_id == user_id)
      then err not_found_error
      else ok (cancelled_job now j, record s { jobs = change_job id (cancelled_job now) s.jobs })
]

-- `locked` are the rows that other transactions hold, which `skip_locked` passes over.
unfoldable pub stale_jobs : (ℕ → Bool) → ℕ → List CloudSubagentJob → List ℕ
unfolding is_running_job
stale_jobs locked now jobs = take 20 (
    map (λ j. j.id)
      (keep (λ j. is_running_job j && expires_before j.lease_expires_at now && not (locked j.id))
        jobs))

unfoldable pub requeued_job : CloudSubagentJob → CloudSubagentJob
requeued_job j = record j { status = queued; lease_owner = none; lease_expires_at = none }

unfoldable pub requeue_jobs : List ℕ → List CloudSubagentJob → List CloudSubagentJob
unfolding update requeued_job
requeue_jobs ids jobs = update (λ j. any (λ i. i == j.id) ids) requeued_job jobs

unfoldable pub leased_job : Option ℕ → String → ℤ → ℕ → CloudSubagentJob → CloudSubagentJob
leased_job started worker_id lease_seconds now j = record j {
  status = running;
  started_at = or_else started now;
  lease_owner = some (cut 200 worker_id);
  lease_expires_at = some (now + at_least 30 lease_seconds);
}

-- The oldest queued job that no other transaction holds.
unfoldable pub oldest_queued : (ℕ → Bool) → List CloudSubagentJob → Option CloudSubagentJob
unfolding first_by is_queued_job
oldest_queued locked jobs =
    first_by (λ a b. leb a.created_at b.created_at) (λ j. is_queued_job j && not (locked j.id)) jobs

unfoldable pub claim_next_subagent_job :
    (ℕ → Bool) → String → ℤ → ℕ → SubagentDb → SubagentTx (Option CloudSubagentJob)
unfolding stale_jobs requeue_jobs oldest_queued leased_job change_job
claim_next_subagent_job locked worker_id lease_seconds now s =
    let jobs = requeue_jobs (stale_jobs locked now s.jobs) s.jobs in
    elim (oldest_queued locked jobs) [
      | none ↦ ok (none, record s { jobs = jobs })
      | some j ↦ ok (
        some (leased_job j.started_at worker_id lease_seconds now j),
        record s {
          jobs = change_job j.id (leased_job j.started_at worker_id lease_seconds now) jobs;
        },
      )
    ]

unfoldable pub claim_subagent_job : ℕ → String → ℤ → ℕ → SubagentDb → SubagentTx CloudSubagentJob
unfolding leased_job change_job is_queued_job
claim_subagent_job id worker_id lease_seconds now s = elim (find_job id s.jobs) [
  | none ↦ err state_error
  | some j ↦
      if not (is_queued_job j)
      then err state_error
      else ok (
        leased_job none worker_id lease_seconds now j,
        record s { jobs = change_job id (leased_job none worker_id lease_seconds now) s.jobs },
      )
]

-- The row of a job that the worker owns.
unfoldable pub owned_job : ℕ → String → List CloudSubagentJob → Result StoreError CloudSubagentJob
owned_job id worker_id jobs = elim (find_job id jobs) [
  | none ↦ err state_error
  | some j ↦ if not (is_text j.lease_owner (cut 200 worker_id)) then err state_error else ok j
]

unfoldable pub renewed_job : ℤ → ℕ → CloudSubagentJob → CloudSubagentJob
renewed_job lease_seconds now j = record j {
  lease_expires_at = some (now + at_least 30 lease_seconds);
}

unfoldable pub heartbeat_subagent_job : ℕ → String → ℤ → ℕ → SubagentDb → SubagentTx Bool
unfolding owned_job renewed_job change_job
heartbeat_subagent_job id worker_id lease_seconds now s = owned_job id worker_id s.jobs >>= λ j.
    ok (
      is_some j.cancel_requested_at,
      record s { jobs = change_job id (renewed_job lease_seconds now) s.jobs },
    )

-- The arguments of `finish_subagent_job` besides the job and the worker, with the id of the message.
pub record SubagentFinish : Type 0 where
  pub status : RunStatus
  pub result : String
  pub metadata : Fields
  pub deliver : Bool
  pub message_id : ℕ

unfoldable pub finished_job : SubagentFinish → ℕ → CloudSubagentJob → CloudSubagentJob
finished_job a now j =
    let asked = is_some j.cancel_requested_at in
    record j {
      status = if asked then cancelled else a.status;
      result = cut 1_000_000 (if asked then "后台子任务已由用户取消。" else a.result);
      result_metadata = a.metadata;
      lease_owner = none;
      lease_expires_at = none;
      completed_at = some now;
    }

unfoldable pub subagent_message :
    (ℕ → String) → SubagentFinish → CloudSubagentJob → Conversation → Message
subagent_message id_text a j c = record {
  id = a.message_id;
  conversation_id = c.id;
  seq = c.next_message_seq;
  role = "assistant";
  content =
      str_append "[子代理 " (
        str_append (if is_empty j.label then id_text j.id else j.label)
          (str_append "]\n" j.result));
  agent_metadata = field "subagent_job_id" (str (id_text j.id)) a.metadata;
  delivery_key = some (str_append "subagent:" (id_text j.id));
}

-- The answer of a finished job in its conversation, with its deliveries. A conversation has no two messages
-- of one delivery key.
unfoldable pub deliver_result :
    (ℕ → String) → SubagentFinish → ℕ → CloudSubagentJob → Db → Result StoreError Db
unfolding subagent_message
deliver_result id_text a now j db = elim (find_conversation j.conversation_id db) [
  | none ↦ err not_found_error
  | some c ↦
      if any
        (λ m.
          m.conversation_id == c.id
          && is_text m.delivery_key (str_append "subagent:" (id_text j.id)))
        db.messages
      then err integrity_error
      else ok (
          enqueue_channel_deliveries now (subagent_message id_text a j c) (record db {
            conversations =
                put (λ r. r.id)
                  (record c { next_message_seq = c.next_message_seq + 1; updated_at = now })
                  db.conversations;
            messages = db.messages ++ (subagent_message id_text a j c ∷ []);
          }))
]

unfoldable pub finish_subagent_job :
    (ℕ → String) → ℕ → String → SubagentFinish → ℕ → SubagentDb → SubagentTx CloudSubagentJob
unfolding owned_job finished_job change_job deliver_result
finish_subagent_job id_text id worker_id a now s = owned_job id worker_id s.jobs >>= λ j.
    (if a.deliver then deliver_result id_text a now (finished_job a now j) s.db else ok s.db)
    >>= λ db.
        ok (
          finished_job a now j,
          record { jobs = change_job id (finished_job a now) s.jobs; db = db },
        )
