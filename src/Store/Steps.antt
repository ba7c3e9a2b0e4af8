-- ===== src/Store/Steps.antt =====
-- The run queue of cloud/store.py as a whole: every transaction on it as a step, and what holds in
-- every state that they reach.
use kirakira_agent_online.Prelude.{ℕ, String, Bool, List, [], ◌∷◌, Fields, ℤ}
use kirakira_agent_online.Store.{Run, Db, after}
use kirakira_agent_online.Store.Runs.{
  Completion, claim_next_run, complete_run, heartbeat_run, cancel_owned_run, fail_run,
  request_cancel, append_runtime_run_event,
}
use kirakira_agent_online.Store.Reaper.{requeue_expired_runs}
use kirakira_agent_online.Store.Submit.{Submission, submit}
use kirakira_agent_online.Store.Valid.{Valid}
use kirakira_agent_online.Store.Invariant.{
  heartbeat_run-Keeps, cancel_owned_run-Keeps, fail_run-Keeps,
}
use kirakira_agent_online.Store.Claim.{claim_next_run-Valid}
use kirakira_agent_online.Store.Completion.{
  complete_run-Keeps, request_cancel-Keeps, append_runtime_run_event-Keeps,
}
use kirakira_agent_online.Store.Recovery.{requeue_expired_runs-Valid}
use kirakira_agent_online.Store.Submission.{submit-Keeps}

-- The transactions of users, workers and reapers.
pub data Action : Type 0 where
  submission : (seen : List Run) → Submission → (now : ℕ) → Action
  claim : (seen : List Run) → (locked : ℕ → Bool) → (worker_id : String) → ℤ → (now : ℕ) → Action
  heartbeat : (run_id : ℕ) → (worker_id : String) → ℤ → (now : ℕ) → Action
  completion : (run_id : ℕ) → (worker_id : String) → Completion → (now : ℕ) → Action
  failure : (run_id : ℕ) → (worker_id error : String) → (now : ℕ) → Action
  stop : (run_id : ℕ) → (worker_id : String) → (now : ℕ) → Action
  cancellation : (user_id run_id now : ℕ) → Action
  recovery : (locked : ℕ → Bool) → (limit : ℤ) → (now : ℕ) → Action
  runtime_event : (run_id : ℕ) → (event_type : String) → Fields → Action

unfoldable pub act : Action → Db → Db
act (submission seen a now) db = after db (submit seen a now db)
act (claim seen locked w l now) db = (claim_next_run seen locked w l now db).1
act (heartbeat i w l now) db = after db (heartbeat_run i w l now db)
act (completion i w a now) db = after db (complete_run i w a now db)
act (failure i w error now) db = after db (fail_run i w error now db)
act (stop i w now) db = after db (cancel_owned_run i w now db)
act (cancellation u i now) db = after db (request_cancel u i now db)
act (recovery locked limit now) db = (requeue_expired_runs locked limit now db).1
act (runtime_event i t d) db = after db (append_runtime_run_event i t d db)

unfoldable pub acts : List Action → Db → Db
acts [] db = db
acts (a ∷ more) db = acts more (act a db)

pub act-Valid : (a : Action) (db : Db) → Valid db → Valid (act a db)
unfolding act
act-Valid (submission seen a now) db v = (submit-Keeps seen a now db v).valid
act-Valid (claim seen locked w l now) db v = claim_next_run-Valid seen locked w l now db v
act-Valid (heartbeat i w l now) db v = (heartbeat_run-Keeps i w l now db v).valid
act-Valid (completion i w a now) db v = (complete_run-Keeps i w a now db v).valid
act-Valid (failure i w error now) db v = (fail_run-Keeps i w error now db v).valid
act-Valid (stop i w now) db v = (cancel_owned_run-Keeps i w now db v).valid
act-Valid (cancellation u i now) db v = (request_cancel-Keeps u i now db v).valid
act-Valid (recovery locked limit now) db v = requeue_expired_runs-Valid locked limit now db v
act-Valid (runtime_event i t d) db v = (append_runtime_run_event-Keeps i t d db v).valid

-- Whatever submissions, claims, heartbeats, completions, failures, cancellations, recoveries and
-- runtime events follow one another, in whatever order and with whatever stale reads and locked rows,
-- valid tables stay valid: every row has the fields of its status, ids are unique, no conversation has
-- two running runs, and the events of each run are numbered from 1 on without a gap.
pub acts-Valid : (more : List Action) (db : Db) → Valid db → Valid (acts more db)
unfolding acts
acts-Valid [] db v = v
acts-Valid (a ∷ more) db v = acts-Valid more (act a db) (act-Valid a db v)
