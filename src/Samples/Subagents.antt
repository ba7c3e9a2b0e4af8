-- ===== src/Samples/Subagents.antt =====
-- The subagent jobs of cloud/store.py at concrete inputs.
use kirakira_agent_online.Prelude.{
  ℕ, ◌≡◌, ◌≤◌, refl, String, true, false, Bool, some, List, [], ◌∷◌, arith, pos, All, end, find,
}
use kirakira_agent_online.Store.{RunStatus, completed, Conversation}
use kirakira_agent_online.Store.Subagents.{
  CloudSubagentJob, SubagentDb, SubagentTask, SubagentFinish, new_subagent_job, is_running_job,
  is_queued_job, is_active_job, find_job, active_of,
}
use kirakira_agent_online.Store.Subagents.Moves.{JobShape, is_doomed, ids_of}
use kirakira_agent_online.Store.Subagents.Changes.{ValidJobs}
use kirakira_agent_online.Store.Subagents.Fate.{
  SubagentCall, create, cancel, claim_next, heartbeat, finish, subagent_calls,
  subagent_calls-ValidJobs, subagent_fate,
}

abbrev conversation : Conversation
conversation = record {
  id = 10;
  user_id = 1;
  next_message_seq = 1;
  agent_metadata = end;
  last_consolidated = 0;
  updated_at = 0;
}

abbrev tables : List CloudSubagentJob → SubagentDb
tables jobs = record {
  jobs = jobs;
  db = record {
    runs = [];
    events = [];
    conversations = conversation ∷ [];
    messages = [];
    links = [];
    deliveries = [];
    next_delivery_id = 1;
    automations = [];
    files = [];
  };
}

abbrev id_text : ℕ → String
id_text n = "sub_1"

abbrev search_task : SubagentTask
search_task = record {
  task = "search";
  label = "papers";
  profile = "research";
  max_iterations = 8;
  starts_running = false;
}

abbrev done : SubagentFinish
done = record {
  status = completed;
  result = "found";
  metadata = end;
  deliver = true;
  message_id = 70;
}

abbrev free : ℕ → Bool
free n = false

-- Four jobs are asked for, of which three are let in; the oldest is claimed, cancelled and finished.
abbrev a_busy_user : List SubagentCall
a_busy_user =
    create 1 1 10 search_task 100
    ∷ create 2 1 10 search_task 101
    ∷ create 3 1 10 search_task 102
    ∷ create 4 1 10 search_task 103
    ∷ claim_next free "worker" (pos 60) 110
    ∷ cancel 1 1 120
    ∷ heartbeat 1 "worker" (pos 60) 130
    ∷ finish 1 "worker" done 140
    ∷ []

subagent_calls-ValidJobs_example :
    let jobs = (subagent_calls id_text a_busy_user (tables [])).jobs in
    ((user : ℕ) → active_of user jobs ≤ 3) × ((k : ℕ) → ids_of k jobs ≤ 1) × All JobShape jobs
subagent_calls-ValidJobs_example = subagent_calls-ValidJobs id_text a_busy_user (tables []) refl

abbrev asked_job : CloudSubagentJob
asked_job = record (new_subagent_job 1 1 10 search_task 100) {
  status = RunStatus.running;
  lease_owner = some "worker";
  lease_expires_at = some 170;
  cancel_requested_at = some 120;
}

asked_job-ValidJobs : ValidJobs (asked_job ∷ [])
unfolding new_subagent_job is_active_job is_running_job is_queued_job
asked_job-ValidJobs = record {
  unique = λ k. ground arith;
  shapes = (record { leased = λ p. ground arith; asked = λ p. ground arith }, tt);
  within = λ u. ground arith;
}

abbrev lease_lost : List SubagentCall
lease_lost =
    claim_next free "other" (pos 60) 200
    ∷ finish 1 "worker" done 210
    ∷ finish 1 "other" done 220
    ∷ []

-- The lease of a job that its user has cancelled runs out, and another worker finishes it.
subagent_fate_example :
    (j' : CloudSubagentJob) × (find_job 1
        (subagent_calls id_text lease_lost (tables (asked_job ∷ []))).jobs
      ≡ some j')
    × (j'.user_id ≡ asked_job.user_id)
    × (is_doomed asked_job ≡ true → is_doomed j' ≡ true)
    × (is_active_job asked_job ≡ false → j' ≡ asked_job)
unfolding find new_subagent_job
subagent_fate_example =
    subagent_fate id_text lease_lost (tables (asked_job ∷ [])) 1 asked_job asked_job-ValidJobs refl
